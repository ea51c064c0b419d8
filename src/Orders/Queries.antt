-- ===== src/Orders/Queries.antt =====
-- src/orders/orders.service.ts: `findOne`; src/orders/order-lifecycle.service.ts:
-- `getAvailableOrders`.
use couriers_server_node.Entities.{
  UserRole, OrderStatus, same_status, Order, OrderItem, AuditAction, OrderAuditEntry, created,
}
use couriers_server_node.Http.{Message, HttpError}
use couriers_server_node.Lifecycle.Rules.{is_order}
use couriers_server_node.Orders.Responses.{OrderResponse, map_to_order_response}
use couriers_server_node.Pagination.Query.{Numeric, Page, paginate, paged}
use couriers_server_node.Prelude.{
  ◌==◌, or_else, filter, find, sort, ascending, descending, ℕ, min, String, Bool, true, ◌&&◌,
  Option, none, some, List, ◌∷◌, map, [],
}
use couriers_server_node.World.{Db, Exec, pure, gets, or_raise, ◌>>=◌}

pub record AuditEntryResponse : Type 0 where
  pub id : ℕ
  pub action : AuditAction
  pub actor_id : ℕ
  pub actor_role : UserRole
  pub created_at : ℕ

unfoldable pub map_to_audit_entry : OrderAuditEntry → AuditEntryResponse
map_to_audit_entry e = record {
  id = e.id;
  action = e.action;
  actor_id = e.actor_id;
  actor_role = e.actor_role;
  created_at = e.created_at;
}

pub record OrderDetailResponse : Type 0 where
  pub order : OrderResponse
  pub audit_entries : List AuditEntryResponse

abbrev pub items_of : ℕ → Db → List OrderItem
items_of order d = filter (λ i. i.order_id == order) d.order_items

abbrev pub entries_of : ℕ → Db → List OrderAuditEntry
entries_of order d = filter (λ e. e.order_id == order) d.audit_entries

-- The order with its client, its items and its audit entries.
unfoldable pub find_one : ℕ → ℕ → Exec OrderDetailResponse
find_one id owner = do
  o ←
      or_raise (← gets (λ d. find (is_order id owner) d.orders))
        (HttpError.not_found Message.order_not_found)
  c ← or_raise (← gets (λ d. find (λ x. x.id == o.client_id) d.clients)) HttpError.type_error
  items ← gets (items_of o.id)
  entries ← gets (entries_of o.id)
  pure (record {
    order = map_to_order_response o c items;
    audit_entries = map map_to_audit_entry entries;
  })

pub record AvailableOrder : Type 0 where
  pub id : ℕ
  pub order_number : String
  pub pickup_address : String
  pub dropoff_address : String
  pub delivery_fee : ℕ
  pub created_at : ℕ

abbrev pub to_available : Order → AvailableOrder
to_available o = record {
  id = o.id;
  order_number = o.order_number;
  pickup_address = o.pickup_address;
  dropoff_address = o.dropoff_address;
  delivery_fee = o.delivery_fee;
  created_at = o.created_at;
}

-- The tenant's new orders, the oldest first.
abbrev pub available_orders : ℕ → Db → List Order
available_orders owner d =
    sort (ascending (λ o. o.created_at))
      (filter (λ o. o.owner_id == owner && same_status o.status created) d.orders)

unfoldable pub get_available_orders :
    ℕ → Option Numeric → Option Numeric → Db → Option (Page AvailableOrder)
get_available_orders owner page limit d = elim (paged page limit (available_orders owner d)) [
  | none ↦ none
  | some found ↦ some (record { rows = map to_available found.rows; meta = found.meta })
]

-- `mapToOrderResponse` over the rows, each with its client and its items.
unfoldable pub respond_all : Db → List Order → Exec (List OrderResponse)
respond_all d [] = pure []
respond_all d (o ∷ os) = do
  c ← or_raise (find (λ x. x.id == o.client_id) d.clients) HttpError.type_error
  rest ← respond_all d os
  pure (map_to_order_response o c (items_of o.id d) ∷ rest)

abbrev pub status_asked : Option OrderStatus → Order → Bool
status_asked none o = true
status_asked (some s) o = same_status o.status s

-- `Math.min(query.limit ?? 20, 100)`
abbrev pub list_limit : Option ℕ → ℕ
list_limit limit = min (or_else limit 20) 100

-- The latest orders first; for a whole page and a limit of at least 1, which this endpoint does not clamp
-- from below.
unfoldable pub find_all :
    Option OrderStatus → (page limit : Option ℕ) → ℕ → Exec (Page OrderResponse)
find_all status page limit owner = do
  d ← gets (λ d. d)
  let found = paginate (or_else page 1) (list_limit limit) (
        sort (descending (λ o. o.created_at))
          (filter (λ o. o.owner_id == owner && status_asked status o) d.orders)) in
      respond_all d found.rows >>= λ answers. pure (record { rows = answers; meta = found.meta })
