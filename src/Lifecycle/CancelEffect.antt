-- ===== src/Lifecycle/CancelEffect.antt =====
-- What `cancel` does to the database.
use couriers_server_node.Entities.{AuthUser, Order, cancelled}
use couriers_server_node.Http.{Message, HttpError, ok, err}
use couriers_server_node.Lifecycle.Calls.{
  load, load_order, append_audit_entry, enqueue_callback_if_needed,
}
use couriers_server_node.Lifecycle.Effects.{audited}
use couriers_server_node.Lifecycle.Handlers.{
  cancel_check, notify_courier, cancel_report, cancel_commit, cancel,
}
use couriers_server_node.Lifecycle.Rules.{
  operator_transitions, leads_to, is_cancellable, set_cancelled,
}
use couriers_server_node.Prelude.{
  ◌==◌, Bool-cases, Option-cases, count, update, update_none, ℕ, String, ◌≡◌, ◌≢◌, ◌⊎◌, inl, inr,
  true, Option, some, arith,
}
use couriers_server_node.World.{Db, World, Env}

-- The update of `cancel`, and its audit entry.
abbrev pub cancelled_db : Env → ℕ → Option String → AuthUser → Order → Db → Db
cancelled_db env id reason user order d =
    audited env id user (record { from = order.status; to = cancelled; reason = reason })
      (record d { orders = update (is_cancellable id user.owner_id) (set_cancelled env) d.orders })

-- What `cancel` has checked when it writes, and the order that it read.
pub record CanCancel (d : Db) (id : ℕ) (user : AuthUser) (o : Order) : Type 0 where
  pub loaded : load d id user.owner_id ≡ some o
  pub edge : leads_to (operator_transitions o.status) cancelled ≡ true

cancel_report-db :
    (env : Env) (id : ℕ) (reason : Option String) (user : AuthUser) (o : Order) (w : World)
    → (cancel_report env id reason user o w).1.db
      ≡ audited env id user (record { from = o.status; to = cancelled; reason = reason }) w.db
unfolding cancel_report load_order append_audit_entry notify_courier enqueue_callback_if_needed
cancel_report-db env id reason user o w = ground arith

pub cancel_commit-db :
    (env : Env) (id : ℕ) (reason : Option String) (user : AuthUser) (o : Order) (w : World)
    → ((cancel_commit env id reason user o w).1.db ≡ w.db)
      ⊎ ((count (is_cancellable id user.owner_id) w.db.orders ≢ 0)
          × ((cancel_commit env id reason user o w).1.db ≡ cancelled_db env id reason user o w.db))
unfolding cancel_commit
cancel_commit-db env id reason user o w =
    let d = w.db in
    let p = is_cancellable id user.owner_id in
    let w' : World = record w {
      db = record d { orders = update p (set_cancelled env) d.orders };
    } in
    elim (Bool-cases (count p d.orders == 0)) [
      | inl e ↦ inl (ground (arith, update_none p (set_cancelled env) d.orders))
      | inr e ↦ inr (ground arith, ground (arith, cancel_report-db env id reason user o w'))
    ]

pub cancel_check_cases :
    (id : ℕ) (user : AuthUser) (w : World)
    → ((e : HttpError) × (cancel_check id user w ≡ (err e, w)))
      ⊎ ((o : Order) × CanCancel w.db id user o × (cancel_check id user w ≡ (ok o, w)))
unfolding cancel_check load_order
cancel_check_cases id user w = elim (Option-cases (load w.db id user.owner_id)) [
  | inl e ↦ inl (HttpError.not_found Message.order_not_found, ground arith)
  | inr (o, e) ↦ elim (Bool-cases (leads_to (operator_transitions o.status) cancelled)) [
    | inr f ↦ inl (HttpError.unprocessable (Message.cannot_transition o.status), ground arith)
    | inl f ↦ inr (o, record { loaded = e; edge = f }, ground arith)
  ]
]

-- `cancel` leaves the database as it was, or it has made every check and has cancelled the order.
pub cancel-db :
    (env : Env) (id : ℕ) (reason : Option String) (user : AuthUser) (w : World)
    → ((cancel env id reason user w).1.db ≡ w.db)
      ⊎ ((o : Order) × CanCancel w.db id user o
          × ((cancel env id reason user w).1.db ≡ cancelled_db env id reason user o w.db))
unfolding cancel
cancel-db env id reason user w = elim (cancel_check_cases id user w) [
  | inl (e, h) ↦ inl (ground arith)
  | inr (o, can, h) ↦ elim (cancel_commit-db env id reason user o w) [
    | inl q ↦ inl (ground arith)
    | inr q ↦ inr (o, can, ground arith)
  ]
]

-- A cancellation whose condition holds of some row writes, whatever was read before.
pub cancel_commit_writes :
    (env : Env) (id : ℕ) (reason : Option String) (user : AuthUser) (o : Order) (w : World)
    → count (is_cancellable id user.owner_id) w.db.orders ≢ 0
    → (cancel_commit env id reason user o w).1.db ≡ cancelled_db env id reason user o w.db
unfolding cancel_commit
cancel_commit_writes env id reason user o w n =
    let d = w.db in
    let p = is_cancellable id user.owner_id in
    let w' : World = record w {
      db = record d { orders = update p (set_cancelled env) d.orders };
    } in
    ground (arith, cancel_report-db env id reason user o w')
