-- ===== src/Lifecycle/Calls.antt =====
-- src/orders/order-lifecycle.service.ts: the private methods that the handlers share.
use couriers_server_node.Prelude.{
  ℕ, String, Bool, Option, none, some, [], ◌∷◌, ◌++◌, ◌==◌, str_eq, find, count, update,
  if◌then◌else◌,
}
use couriers_server_node.Http.{HttpError, Message, ok}
use couriers_server_node.Entities.{
  Order, OrderStatus, OrderAuditEntry, AuditAction, Transition, Courier, AuthUser,
}
use couriers_server_node.World.{
  Db, Env, Exec, Job, StatusPayload, pure, gets, or_raise, modify, enqueue, ◌>>=◌,
}
use couriers_server_node.Lifecycle.Rules.{is_order, triggers_callback}

-- `UPDATE orders SET f WHERE p`; the result is `affected`.
abbrev pub update_orders : (Order → Bool) → (Order → Order) → Exec ℕ
update_orders p f w = (ok (count p w.db.orders), record w { db = new })
  where
    new : Db
    new = let d = w.db in record d { orders = update p f d.orders }

-- An order with its relation `courier`.
pub record LoadedOrder : Type 0 where
  pub order : Order
  pub courier : Option Courier

abbrev pub courier_of : Db → Option ℕ → Option Courier
courier_of d none = none
courier_of d (some c) = find (λ x. x.id == c) d.couriers

abbrev pub load : Db → ℕ → ℕ → Option Order
load d id owner = find (is_order id owner) d.orders

unfoldable pub load_order : ℕ → ℕ → Exec LoadedOrder
load_order id owner = do
  order ← or_raise (← gets (λ d. load d id owner)) (HttpError.not_found Message.order_not_found)
  courier ← gets (λ d. courier_of d order.courier_id)
  pure (record { order = order; courier = courier })

unfoldable pub audit_entry : Env → ℕ → AuthUser → Transition → OrderAuditEntry
audit_entry env order user change = record {
  id = env.uuid 0;
  order_id = order;
  owner_id = user.owner_id;
  action = AuditAction.status_changed;
  actor_id = user.user_id;
  actor_role = user.role;
  metadata = some change;
  created_at = env.db_now;
}

unfoldable pub append_audit_entry : Env → ℕ → AuthUser → Transition → Exec (Unit {0})
append_audit_entry env order user change =
    modify
      λ d. record d { audit_entries = d.audit_entries ++ audit_entry env order user change ∷ [] }

abbrev pub build_status_changed_payload : Order → OrderStatus → StatusPayload
build_status_changed_payload o previous = record {
  id = o.id;
  order_number = o.order_number;
  status = o.status;
  previous_status = previous;
  courier_id = o.courier_id;
  updated_at = o.updated_at;
}

-- The emptiness test of `order.callback_url && …`.
abbrev pub filled : Option String → Option String
filled none = none
filled (some url) = if str_eq url "" then none else some url

unfoldable pub enqueue_callback_if_needed : Env → Order → OrderStatus → Exec (Unit {0})
enqueue_callback_if_needed env o status = elim (filled o.callback_url) [
  | none ↦ pure tt
  | some url ↦
      if triggers_callback status
      then enqueue env (Job.order_callback o.id url status o.owner_id)
      else pure tt
]

pub record CourierSummary : Type 0 where
  pub id : ℕ
  pub first_name : String
  pub last_name : String
  pub phone : String

pub record OrderLifecycleResponse : Type 0 where
  pub id : ℕ
  pub owner_id : ℕ
  pub order_number : String
  pub status : OrderStatus
  pub courier : Option CourierSummary
  pub pickup_address : String
  pub dropoff_address : String
  pub delivery_fee : ℕ
  pub callback_url : Option String
  pub assigned_at : Option ℕ
  pub picked_up_at : Option ℕ
  pub in_delivery_at : Option ℕ
  pub completed_at : Option ℕ
  pub cancelled_at : Option ℕ
  pub created_at : ℕ
  pub updated_at : ℕ

abbrev pub summary_of : Option Courier → Option CourierSummary
summary_of none = none
summary_of (some c) =
    some (record { id = c.id; first_name = c.first_name; last_name = c.last_name; phone = c.phone })

unfoldable pub map_to_dto : LoadedOrder → OrderLifecycleResponse
map_to_dto l = record {
  id = l.order.id;
  owner_id = l.order.owner_id;
  order_number = l.order.order_number;
  status = l.order.status;
  courier = summary_of l.courier;
  pickup_address = l.order.pickup_address;
  dropoff_address = l.order.dropoff_address;
  delivery_fee = l.order.delivery_fee;
  callback_url = l.order.callback_url;
  assigned_at = l.order.assigned_at;
  picked_up_at = l.order.picked_up_at;
  in_delivery_at = l.order.in_delivery_at;
  completed_at = l.order.completed_at;
  cancelled_at = l.order.cancelled_at;
  created_at = l.order.created_at;
  updated_at = l.order.updated_at;
}
