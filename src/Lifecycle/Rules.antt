-- ===== src/Lifecycle/Rules.antt =====
-- src/orders/order-lifecycle.service.ts: the transition tables, and the conditions and writes of the
-- statements, row by row.
use couriers_server_node.Prelude.{
  ℕ, Bool, true, false, not, ◌&&◌, Option, none, some, ◌==◌, holds, is_none,
}
use couriers_server_node.Entities.{
  Order, OrderStatus, created, assigned, picked_up, in_delivery, completed, cancelled, same_status,
  CourierShift, OpenStatus, AuthUser,
}
use couriers_server_node.World.{Env}

-- `COURIER_TRANSITIONS`; `none` is the missing key.
abbrev pub courier_transitions : OrderStatus → Option OrderStatus
courier_transitions created = none
courier_transitions assigned = some picked_up
courier_transitions picked_up = some in_delivery
courier_transitions in_delivery = some completed
courier_transitions completed = none
courier_transitions cancelled = none

-- `OPERATOR_TRANSITIONS`
abbrev pub operator_transitions : OrderStatus → Option OrderStatus
operator_transitions created = some cancelled
operator_transitions assigned = some cancelled
operator_transitions picked_up = some cancelled
operator_transitions in_delivery = some cancelled
operator_transitions completed = none
operator_transitions cancelled = none

-- `TIMESTAMP_COLUMN`, and the write of that column.
abbrev pub set_timestamp : OrderStatus → ℕ → Order → Order
set_timestamp created t o = o
set_timestamp assigned t o = record o { assigned_at = some t }
set_timestamp picked_up t o = record o { picked_up_at = some t }
set_timestamp in_delivery t o = record o { in_delivery_at = some t }
set_timestamp completed t o = record o { completed_at = some t }
set_timestamp cancelled t o = record o { cancelled_at = some t }

-- `CALLBACK_TRIGGER_STATUSES.has`
abbrev pub triggers_callback : OrderStatus → Bool
triggers_callback created = false
triggers_callback assigned = false
triggers_callback picked_up = true
triggers_callback in_delivery = false
triggers_callback completed = true
triggers_callback cancelled = true

-- `… === target` on an entry of a transition table.
abbrev pub leads_to : Option OrderStatus → OrderStatus → Bool
leads_to none target = false
leads_to (some s) target = same_status s target

-- `status IN ('completed', 'cancelled')`
abbrev pub is_final : OrderStatus → Bool
is_final completed = true
is_final cancelled = true
is_final _ = false

-- `id = :id AND owner_id = :ownerId`
abbrev pub is_order : ℕ → ℕ → Order → Bool
is_order id owner o = o.id == id && o.owner_id == owner

abbrev pub is_open_shift : AuthUser → CourierShift → Bool
is_open_shift user s =
    s.courier_id == user.user_id
    && (s.owner_id == user.owner_id && elim s.status [ OpenStatus.opened ↦ true | _ ↦ false ])

-- An order that counts against the courier's limit of one.
abbrev pub is_active_order : ℕ → ℕ → Order → Bool
is_active_order courier owner o =
    holds o.courier_id courier && (o.owner_id == owner && not (is_final o.status))

-- The condition of the update in `claim`.
abbrev pub is_claimable : ℕ → ℕ → Order → Bool
is_claimable id owner o =
    is_order id owner o && (same_status o.status created && is_none o.courier_id)

-- The condition of the update in `cancel`.
abbrev pub is_cancellable : ℕ → ℕ → Order → Bool
is_cancellable id owner o = is_order id owner o && not (is_final o.status)

abbrev pub set_claimed : Env → AuthUser → Order → Order
set_claimed env user o = record o {
  status = assigned;
  courier_id = some user.user_id;
  assigned_at = some env.db_now;
  updated_at = env.db_now;
}

abbrev pub set_status : Env → OrderStatus → Order → Order
set_status env target o =
    let stamped = set_timestamp target env.db_now o in
    record stamped { status = target; updated_at = env.db_now }

abbrev pub set_cancelled : Env → Order → Order
set_cancelled env o = record o {
  status = cancelled;
  cancelled_at = some env.db_now;
  courier_id = none;
  updated_at = env.db_now;
}
