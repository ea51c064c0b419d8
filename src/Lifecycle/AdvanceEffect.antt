-- ===== src/Lifecycle/AdvanceEffect.antt =====
-- What `advanceStatus` does to the database.
use couriers_server_node.Entities.{AuthUser, OrderStatus, same_status, Order, created, completed}
use couriers_server_node.Http.{Message, HttpError, ok, err}
use couriers_server_node.Lifecycle.Calls.{
  load, load_order, append_audit_entry, enqueue_callback_if_needed,
}
use couriers_server_node.Lifecycle.Effects.{audited}
use couriers_server_node.Lifecycle.Handlers.{
  advance_check, delivery_record, courier_earning, complete_rows, advance_rows, advance_report,
  advance_commit, advance_status,
}
use couriers_server_node.Lifecycle.Rules.{courier_transitions, leads_to, is_order, set_status}
use couriers_server_node.Prelude.{
  ◌==◌, if◌then◌else◌, holds, Bool-cases, Option-cases, update, any, ℕ, ◌≡◌, refl, ◌⊎◌, inl, inr,
  true, false, none, some, ◌∷◌, ◌++◌, arith, [],
}
use couriers_server_node.World.{Db, World, Env, Exec, transaction}

-- The statements that move an order on: for a completion also the delivery and the earning.
abbrev pub advanced_rows : Env → ℕ → OrderStatus → AuthUser → Order → Db → Db
advanced_rows env id target user order d =
    let moved = update (is_order id user.owner_id) (set_status env target) d.orders in
    if same_status target completed
    then record d {
      orders = moved;
      delivery_records = d.delivery_records ++ delivery_record env id user order ∷ [];
      courier_earnings = d.courier_earnings ++ courier_earning env id user order ∷ [];
    }
    else record d { orders = moved }

abbrev pub advanced_db : Env → ℕ → OrderStatus → AuthUser → Order → Db → Db
advanced_db env id target user order d =
    audited env id user (record { from = order.status; to = target; reason = none })
      (advanced_rows env id target user order d)

-- No row of the order stands in the two tables that a completion writes.
pub record IsUnpaid (d : Db) (id : ℕ) : Type 0 where
  pub undelivered : any (λ r. r.order_id == id) d.delivery_records ≡ false
  pub unearned : any (λ r. r.order_id == id) d.courier_earnings ≡ false

-- What `advanceStatus` has checked when it writes, and the order that it read.
pub record CanAdvance (d : Db) (id : ℕ) (target : OrderStatus) (user : AuthUser) (o : Order)
    : Type 0 where
  pub loaded : load d id user.owner_id ≡ some o
  pub edge : leads_to (courier_transitions o.status) target ≡ true
  pub assigned_to : holds o.courier_id user.user_id ≡ true

complete_rows_cases :
    (env : Env) (id : ℕ) (user : AuthUser) (o : Order) (w : World)
    → let (r, w') = complete_rows env id user o w in
      (r ≡ err HttpError.unique_violation)
      ⊎ ((r ≡ ok tt) × (w'.db ≡ advanced_rows env id completed user o w.db) × IsUnpaid w.db id)
unfolding complete_rows
complete_rows_cases env id user o w =
    elim (Bool-cases (any (λ r. r.order_id == id) w.db.delivery_records)) [
      | inl f ↦ inl (ground arith)
      | inr f ↦ elim (Bool-cases (any (λ r. r.order_id == id) w.db.courier_earnings)) [
        | inl g ↦ inl (ground arith)
        | inr g ↦ inr (ground arith, ground arith, record { undelivered = f; unearned = g })
      ]
    ]

rolled_back_err :
    {A : Type 0} (m : Exec A) (w : World) (e : HttpError)
    → (m w).0 ≡ err e
    → ((transaction m w).0 ≡ err e) × ((transaction m w).1.db ≡ w.db)
unfolding transaction
rolled_back_err m w e h = ground arith

committed :
    {A : Type 0} (m : Exec A) (w : World) (a : A)
    → (m w).0 ≡ ok a
    → transaction m w ≡ (ok a, (m w).1)
unfolding transaction
committed m w a h = ground arith

pub advance_rows-db :
    (env : Env) (id : ℕ) (target : OrderStatus) (user : AuthUser) (o : Order) (w : World)
    → let (r, w') = advance_rows env id target user o w in
      ((e : HttpError) × (r ≡ err e) × (w'.db ≡ w.db))
      ⊎ ((r ≡ ok tt)
          × (w'.db ≡ advanced_rows env id target user o w.db)
          × (same_status target completed ≡ true → IsUnpaid w.db id))
unfolding advance_rows
advance_rows-db env id completed user o w = elim (complete_rows_cases env id user o w) [
  | inl h ↦ let q = rolled_back_err (complete_rows env id user o) w _ h in inl (_, q.0, q.1)
  | inr h ↦ rw (committed (complete_rows env id user o) w tt h.0) (inr (refl, h.1, λ _. h.2))
]
advance_rows-db env id created user o w = inr (refl, refl, λ q. absurd (cc))
advance_rows-db env id _ user o w = inr (refl, refl, λ q. absurd (cc))

pub advance_report-db :
    (env : Env) (id : ℕ) (target : OrderStatus) (user : AuthUser) (o : Order) (w : World)
    → (advance_report env id target user o w).1.db
      ≡ audited env id user (record { from = o.status; to = target; reason = none }) w.db
unfolding advance_report load_order append_audit_entry enqueue_callback_if_needed
advance_report-db env id target user o w = ground arith

pub advance_commit-db :
    (env : Env) (id : ℕ) (target : OrderStatus) (user : AuthUser) (o : Order) (w : World)
    → ((advance_commit env id target user o w).1.db ≡ w.db)
      ⊎ (((advance_commit env id target user o w).1.db ≡ advanced_db env id target user o w.db)
          × (same_status target completed ≡ true → IsUnpaid w.db id))
unfolding advance_commit
advance_commit-db env id target user o w = elim (advance_rows-db env id target user o w) [
  | inl h ↦ inl (ground arith)
  | inr h ↦ inr (
    ground (arith, advance_report-db env id target user o (advance_rows env id target user o w).1),
    h.2,
  )
]

pub advance_check_cases :
    (id : ℕ) (target : OrderStatus) (user : AuthUser) (w : World)
    → ((e : HttpError) × (advance_check id target user w ≡ (err e, w)))
      ⊎ ((o : Order) × CanAdvance w.db id target user o
          × (advance_check id target user w ≡ (ok o, w)))
unfolding advance_check load_order
advance_check_cases id target user w = elim (Option-cases (load w.db id user.owner_id)) [
  | inl e ↦ inl (HttpError.not_found Message.order_not_found, ground arith)
  | inr (o, e) ↦ elim (Bool-cases (leads_to (courier_transitions o.status) target)) [
    | inr f ↦ inl (HttpError.unprocessable (Message.cannot_transition o.status), ground arith)
    | inl f ↦ elim (Bool-cases (holds o.courier_id user.user_id)) [
      | inr g ↦ inl (HttpError.forbidden Message.not_assigned_courier, ground arith)
      | inl g ↦ inr (o, record { loaded = e; edge = f; assigned_to = g }, ground arith)
    ]
  ]
]

-- `advanceStatus` leaves the database as it was, or it has made every check and has moved the order.
pub advance_status-db :
    (env : Env) (id : ℕ) (target : OrderStatus) (user : AuthUser) (w : World)
    → ((advance_status env id target user w).1.db ≡ w.db)
      ⊎ ((o : Order) × CanAdvance w.db id target user o
          × (same_status target completed ≡ true → IsUnpaid w.db id)
          × ((advance_status env id target user w).1.db ≡ advanced_db env id target user o w.db))
unfolding advance_status
advance_status-db env id target user w = elim (advance_check_cases id target user w) [
  | inl (e, h) ↦ inl (ground arith)
  | inr (o, can, h) ↦ elim (advance_commit-db env id target user o w) [
    | inl q ↦ inl (ground arith)
    | inr q ↦ inr (o, can, q.1, ground arith)
  ]
]

pub advanced_rows-orders :
    (env : Env) (id : ℕ) (t : OrderStatus) (user : AuthUser) (o : Order) (d : Db)
    → (advanced_rows env id t user o d).orders
      ≡ update (is_order id user.owner_id) (set_status env t) d.orders
advanced_rows-orders env id t user o d = ground arith

complete_rows_ok :
    (env : Env) (id : ℕ) (user : AuthUser) (o : Order) (w : World)
    → IsUnpaid w.db id
    → (complete_rows env id user o w).0 ≡ ok tt
unfolding complete_rows
complete_rows_ok env id user o w u = ground (arith, u.undelivered, u.unearned)

pub advance_rows_ok :
    (env : Env) (id : ℕ) (user : AuthUser) (o : Order) (w : World)
    → IsUnpaid w.db id
    → (advance_rows env id completed user o w).0 ≡ ok tt
unfolding advance_rows
advance_rows_ok env id user o w u =
    rw (committed (complete_rows env id user o) w tt (complete_rows_ok env id user o w u)) refl

-- A completion of an order that is not paid yet goes through, whatever its status has become.
pub complete_commit-db :
    (env : Env) (id : ℕ) (user : AuthUser) (o : Order) (w : World)
    → IsUnpaid w.db id
    → (advance_commit env id completed user o w).1.db ≡ advanced_db env id completed user o w.db
unfolding advance_commit
complete_commit-db env id user o w u = elim (advance_rows-db env id completed user o w) [
  | inl (e, h, _) ↦ absurd (cc (advance_rows_ok env id user o w u))
  | inr h ↦
      ground (
        arith,
        advance_report-db env id completed user o (advance_rows env id completed user o w).1,
      )
]
