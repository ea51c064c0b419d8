-- ===== src/Lifecycle/Handlers.antt =====
-- src/orders/order-lifecycle.service.ts: `claim`, `advanceStatus` and `cancel`.
use couriers_server_node.Prelude.{
  ℕ, String, not, Option, none, some, [], ◌∷◌, ◌++◌, ltb, ◌==◌, holds, is_none, find, count, any,
}
use couriers_server_node.Http.{HttpError, Message}
use couriers_server_node.Entities.{
  Order, OrderStatus, created, assigned, completed, cancelled, same_status, DeliveryRecord,
  CourierEarning, AuthUser,
}
use couriers_server_node.World.{
  Env, Exec, Job, Event, pure, branch, raise, gets, raise_if, insert_unique, enqueue, transaction,
  ◌>>=◌, ◌>>◌, couriers,
}
use couriers_server_node.Gateway.{emit, emit_status_changed}
use couriers_server_node.Lifecycle.Rules.{
  courier_transitions, operator_transitions, leads_to, is_order, is_open_shift, is_active_order,
  is_claimable, is_cancellable, set_claimed, set_status, set_cancelled,
}
use couriers_server_node.Lifecycle.Calls.{
  OrderLifecycleResponse, update_orders, load, load_order, append_audit_entry,
  build_status_changed_payload, enqueue_callback_if_needed, map_to_dto,
}

-- The two queries before the update: an open shift, and no active order.
unfoldable pub claim_check : AuthUser → Exec (Unit {0})
claim_check user = do
  open_shift ← gets (λ d. find (is_open_shift user) d.shifts)
  raise_if (is_none open_shift) (HttpError.unprocessable Message.courier_without_shift)
  active_count ← gets (λ d. count (is_active_order user.user_id user.owner_id) d.orders)
  raise_if (ltb 0 active_count) (HttpError.conflict Message.courier_has_active_order)

-- No row was updated: which error it is.
unfoldable pub claim_refused : ℕ → AuthUser → Exec OrderLifecycleResponse
claim_refused id user = do
  existing ← gets (λ d. load d id user.owner_id)
  elim existing [
    | none ↦ raise (HttpError.not_found Message.order_not_found)
    | some o ↦ raise (HttpError.conflict (Message.order_unavailable o.courier_id))
  ]

unfoldable pub claim_granted : Env → ℕ → AuthUser → Exec OrderLifecycleResponse
claim_granted env id user = do
  loaded ← load_order id user.owner_id
  append_audit_entry env loaded.order.id user
      (record { from = created; to = assigned; reason = none })
  emit_status_changed env loaded.order.owner_id (build_status_changed_payload loaded.order created)
  emit env (
      (
        couriers loaded.order.owner_id,
        Event.order_status_changed (build_status_changed_payload loaded.order created),
      )
      ∷ [])
  enqueue_callback_if_needed env loaded.order assigned
  pure (map_to_dto loaded)

unfoldable pub claim_commit : Env → ℕ → AuthUser → Exec OrderLifecycleResponse
claim_commit env id user = do
  affected ← update_orders (is_claimable id user.owner_id) (set_claimed env user)
  branch (affected == 0) (claim_refused id user) (claim_granted env id user)

unfoldable pub claim : Env → ℕ → AuthUser → Exec OrderLifecycleResponse
claim env id user = do claim_check user; claim_commit env id user

-- The order as it was read, if the courier may move it on.
unfoldable pub advance_check : ℕ → OrderStatus → AuthUser → Exec Order
advance_check id target user = do
  loaded ← load_order id user.owner_id
  raise_if (not (leads_to (courier_transitions loaded.order.status) target))
      (HttpError.unprocessable (Message.cannot_transition loaded.order.status))
  raise_if (not (holds loaded.order.courier_id user.user_id))
      (HttpError.forbidden Message.not_assigned_courier)
  pure loaded.order

abbrev pub delivery_record : Env → ℕ → AuthUser → Order → DeliveryRecord
delivery_record env id user order = record {
  id = env.uuid 1;
  owner_id = user.owner_id;
  order_id = id;
  courier_id = user.user_id;
  delivery_fee = order.delivery_fee;
  completed_at = env.app_now;
  created_at = env.db_now;
}

abbrev pub courier_earning : Env → ℕ → AuthUser → Order → CourierEarning
courier_earning env id user order = record {
  id = env.uuid 2;
  owner_id = user.owner_id;
  courier_id = user.user_id;
  order_id = id;
  amount = order.delivery_fee;
  earned_at = env.app_now;
  created_at = env.db_now;
}

-- The body of the transaction: both tables have a unique `order_id` (migrations 014 and 015).
unfoldable pub complete_rows : Env → ℕ → AuthUser → Order → Exec (Unit {0})
complete_rows env id user order = do
  update_orders (is_order id user.owner_id) (set_status env completed)
  insert_unique (λ d. any (λ r. r.order_id == id) d.delivery_records)
      (λ d. record d {
        delivery_records = d.delivery_records ++ delivery_record env id user order ∷ [];
      })
  insert_unique (λ d. any (λ r. r.order_id == id) d.courier_earnings)
      (λ d. record d {
        courier_earnings = d.courier_earnings ++ courier_earning env id user order ∷ [];
      })

unfoldable pub advance_rows : Env → ℕ → OrderStatus → AuthUser → Order → Exec (Unit {0})
advance_rows env id target user order =
    branch (same_status target completed) (transaction (complete_rows env id user order))
      (update_orders (is_order id user.owner_id) (set_status env target) >> pure tt)

unfoldable pub advance_report :
    Env → ℕ → OrderStatus → AuthUser → Order → Exec OrderLifecycleResponse
advance_report env id target user order = do
  updated ← load_order id user.owner_id
  append_audit_entry env id user (record { from = order.status; to = target; reason = none })
  emit_status_changed env updated.order.owner_id
      (build_status_changed_payload updated.order order.status)
  enqueue_callback_if_needed env updated.order target
  pure (map_to_dto updated)

unfoldable pub advance_commit :
    Env → ℕ → OrderStatus → AuthUser → Order → Exec OrderLifecycleResponse
advance_commit env id target user order = do
  advance_rows env id target user order
  advance_report env id target user order

unfoldable pub advance_status : Env → ℕ → OrderStatus → AuthUser → Exec OrderLifecycleResponse
advance_status env id target user = do
  order ← advance_check id target user
  advance_commit env id target user order

unfoldable pub cancel_check : ℕ → AuthUser → Exec Order
cancel_check id user = do
  loaded ← load_order id user.owner_id
  raise_if (not (leads_to (operator_transitions loaded.order.status) cancelled))
      (HttpError.unprocessable (Message.cannot_transition loaded.order.status))
  pure loaded.order

-- `if (previousCourierId) await this.cancelQueue.add(…)`
unfoldable pub notify_courier : Env → ℕ → AuthUser → Option ℕ → Exec (Unit {0})
notify_courier env id user none = pure tt
notify_courier env id user (some c) = enqueue env (Job.cancel_notify c id user.owner_id)

unfoldable pub cancel_report :
    Env → ℕ → Option String → AuthUser → Order → Exec OrderLifecycleResponse
cancel_report env id reason user order = do
  updated ← load_order id user.owner_id
  append_audit_entry env id user (record { from = order.status; to = cancelled; reason = reason })
  notify_courier env id user order.courier_id
  emit_status_changed env updated.order.owner_id
      (build_status_changed_payload updated.order order.status)
  emit env (
      (
        couriers updated.order.owner_id,
        Event.order_cancelled (build_status_changed_payload updated.order order.status),
      )
      ∷ [])
  enqueue_callback_if_needed env updated.order cancelled
  pure (map_to_dto updated)

unfoldable pub cancel_commit :
    Env → ℕ → Option String → AuthUser → Order → Exec OrderLifecycleResponse
cancel_commit env id reason user order = do
  affected ← update_orders (is_cancellable id user.owner_id) (set_cancelled env)
  raise_if (affected == 0) (HttpError.unprocessable (Message.cannot_transition order.status))
  cancel_report env id reason user order

unfoldable pub cancel : Env → ℕ → Option String → AuthUser → Exec OrderLifecycleResponse
cancel env id reason user = do order ← cancel_check id user; cancel_commit env id reason user order
