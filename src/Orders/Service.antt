-- ===== src/Orders/Service.antt =====
-- src/orders/orders.service.ts: `create`, one transaction.
use couriers_server_node.Entities.{
  Owner, Client, AuthUser, Order, OrderItem, AuditAction, OrderAuditEntry, created,
}
use couriers_server_node.Gateway.{emit_order_created}
use couriers_server_node.Http.{Message, HttpError, Result, ok, err}
use couriers_server_node.Orders.Responses.{
  OrderItemDto, CreateOrderDto, OrderResponse, map_to_order_response,
}
use couriers_server_node.Prelude.{
  ◌==◌, if◌then◌else◌, find, any, ℕ, suc, String, Bool, ◌&&◌, Option, none, some, List, ◌∷◌, ◌++◌,
  str_eq, [],
}
use couriers_server_node.Users.Service.{saved}
use couriers_server_node.World.{
  Job, OrderPayload, World, Env, Exec, pure, raise, gets, or_raise, modify, insert_unique, enqueue,
  transaction, ◌>>=◌, ◌>>◌,
}

-- The unique indexes of `clients` (owner_id, phone) and `orders` (owner_id, order_number).
abbrev pub is_client_of : ℕ → String → Client → Bool
is_client_of owner phone c = c.owner_id == owner && str_eq c.phone phone

abbrev pub is_numbered : ℕ → String → Order → Bool
is_numbered owner number o = o.owner_id == owner && str_eq o.order_number number

abbrev recovered : {A : Type 0} → Bool → Exec A → Result A × World → Result A × World
recovered usable handler (ok a, w) = (ok a, w)
recovered usable handler (err HttpError.unique_violation, w) =
    if usable then handler w else (err HttpError.aborted_transaction, w)
recovered usable handler (err e, w) = (err e, w)

-- `try { save } catch (err) { if (err is 23505) … }` within a transaction. The handler queries, and
-- `usable` says whether the transaction still takes a query after the statement that failed.
unfoldable pub recover : {A : Type 0} → Bool → Exec A → Exec A → Exec A
recover usable m handler w = recovered usable handler (m w)

abbrev pub new_client : Env → CreateOrderDto → AuthUser → Client
new_client env dto user = record {
  id = env.uuid 1;
  owner_id = user.owner_id;
  phone = dto.client_phone;
  name = none;
  created_at = env.db_now;
  updated_at = env.db_now;
}

unfoldable pub insert_client : Env → CreateOrderDto → AuthUser → Exec Client
insert_client env dto user = do
  insert_unique (λ d. any (is_client_of user.owner_id dto.client_phone) d.clients)
      (λ d. record d { clients = d.clients ++ new_client env dto user ∷ [] })
  pure (new_client env dto user)

unfoldable pub reread_client : CreateOrderDto → AuthUser → Exec Client
reread_client dto user = do
  or_raise (← gets (λ d. find (is_client_of user.owner_id dto.client_phone) d.clients))
      HttpError.unique_violation

-- The client that the query found, or a new one.
unfoldable pub find_or_create_client :
    Env → Bool → CreateOrderDto → AuthUser → Option Client → Exec Client
find_or_create_client env usable dto user none =
    recover usable (insert_client env dto user) (reread_client dto user)
find_or_create_client env usable dto user (some c) = pure c

abbrev pub new_order : Env → CreateOrderDto → AuthUser → Owner → Client → Order
new_order env dto user o c = record {
  id = env.uuid 0;
  owner_id = user.owner_id;
  client_id = c.id;
  order_number = dto.order_number;
  status = created;
  pickup_address = dto.pickup_address;
  pickup_lat = dto.pickup_lat;
  pickup_lng = dto.pickup_lng;
  dropoff_address = dto.dropoff_address;
  dropoff_lat = dto.dropoff_lat;
  dropoff_lng = dto.dropoff_lng;
  delivery_fee = o.default_delivery_fee;
  callback_url = dto.callback_url;
  courier_id = none;
  assigned_at = none;
  picked_up_at = none;
  in_delivery_at = none;
  completed_at = none;
  cancelled_at = none;
  created_by_id = user.user_id;
  created_by_role = user.role;
  created_at = env.db_now;
  updated_at = env.db_now;
}

abbrev pub id_of_existing : Option Order → Option ℕ
id_of_existing none = none
id_of_existing (some o) = some o.id

unfoldable pub order_number_conflict : CreateOrderDto → AuthUser → Exec Order
order_number_conflict dto user = do
  existing ← gets (λ d. find (is_numbered user.owner_id dto.order_number) d.orders)
  raise (HttpError.conflict (Message.order_number_taken (id_of_existing existing)))

-- The row of an order, whose coordinates the columns round.
abbrev pub stored_order : Env → Order → Order
stored_order env o = record o {
  pickup_lat = env.round_coordinate o.pickup_lat;
  pickup_lng = env.round_coordinate o.pickup_lng;
  dropoff_lat = env.round_coordinate o.dropoff_lat;
  dropoff_lng = env.round_coordinate o.dropoff_lng;
}

-- `save` answers the entity as it was given, not as its row is stored.
unfoldable pub insert_order : Env → Order → Exec Order
insert_order env o = do
  insert_unique (λ d. any (is_numbered o.owner_id o.order_number) d.orders)
      (λ d. record d { orders = d.orders ++ stored_order env o ∷ [] })
  pure o

-- The items, their identifiers from the `n`th on: the entities in memory, whose prices are those of
-- the body, and their rows, whose prices the column rounds.
unfoldable pub item_rows : Env → (ℕ → ℕ) → ℕ → ℕ → ℕ → List OrderItemDto → List OrderItem
item_rows env price n order owner [] = []
item_rows env price n order owner (i ∷ is) =
    record {
      id = env.uuid n;
      order_id = order;
      owner_id = owner;
      name = i.name;
      quantity = i.quantity;
      price = price i.price;
      created_at = env.db_now;
      updated_at = env.db_now;
    }
    ∷ item_rows env price (suc n) order owner is

abbrev pub saved_items : Env → ℕ → ℕ → ℕ → List OrderItemDto → List OrderItem
saved_items env = item_rows env (λ p. p)

abbrev pub stored_items : Env → ℕ → ℕ → ℕ → List OrderItemDto → List OrderItem
stored_items env = item_rows env env.round_price

abbrev pub created_entry : Env → AuthUser → Order → OrderAuditEntry
created_entry env user o = record {
  id = env.uuid 2;
  order_id = o.id;
  owner_id = user.owner_id;
  action = AuditAction.order_created;
  actor_id = user.user_id;
  actor_role = user.role;
  metadata = none;
  created_at = env.db_now;
}

abbrev pub created_payload : CreateOrderDto → Order → OrderPayload
created_payload dto o = record {
  id = o.id;
  order_number = o.order_number;
  status = o.status;
  pickup_address = o.pickup_address;
  dropoff_address = o.dropoff_address;
  delivery_fee = o.delivery_fee;
  client_phone = dto.client_phone;
  created_at = o.created_at;
}

-- From the answer of the query for the client on.
unfoldable pub create_found :
    Env → Bool → CreateOrderDto → AuthUser → Owner → Option Client → Exec OrderResponse
create_found env usable dto user o found = do
  c ← find_or_create_client env usable dto user found
  saved ←
      recover usable (insert_order env (new_order env dto user o c))
        (order_number_conflict dto user)
  modify λ d. record d {
    order_items = d.order_items ++ stored_items env 3 saved.id user.owner_id dto.items;
  }
  modify λ d. record d { audit_entries = d.audit_entries ++ created_entry env user saved ∷ [] }
  emit_order_created env user.owner_id (created_payload dto saved)
  enqueue env (Job.new_order_notify saved.id user.owner_id)
  pure (map_to_order_response saved c (saved_items env 3 saved.id user.owner_id dto.items))

unfoldable pub create_rows : Env → Bool → CreateOrderDto → AuthUser → Exec OrderResponse
create_rows env usable dto user = do
  o ←
      or_raise (← gets (λ d. find (λ x. x.id == user.owner_id) d.owners))
        (HttpError.not_found Message.owner_not_found)
  found ← gets (λ d. find (is_client_of user.owner_id dto.client_phone) d.clients)
  create_found env usable dto user o found

unfoldable pub create : Env → Bool → CreateOrderDto → AuthUser → Exec OrderResponse
create env usable dto user = transaction (create_rows env usable dto user)
