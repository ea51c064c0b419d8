-- ===== src/Lifecycle/Answers.antt =====
-- src/orders/order-lifecycle.service.ts: the requests of a courier that are answered with the order.
use couriers_server_node.Entities.{AuthUser, OrderStatus, Order, completed, created}
use couriers_server_node.Http.{Result, ok, err}
use couriers_server_node.Lifecycle.AdvanceEffect.{
  advanced_rows, advanced_db, IsUnpaid, CanAdvance, advance_rows-db, advance_report-db,
  advanced_rows-orders, advance_rows_ok,
}
use couriers_server_node.Lifecycle.Calls.{
  load, load_order, append_audit_entry, enqueue_callback_if_needed,
}
use couriers_server_node.Lifecycle.Diagram.{set_status-SameOrder}
use couriers_server_node.Lifecycle.Effects.{claim_granted-db, claimed_orders, claimed_db}
use couriers_server_node.Lifecycle.Handlers.{
  claim_check, claim_granted, claim_commit, claim, advance_check, advance_rows, advance_report,
  advance_commit, advance_status,
}
use couriers_server_node.Lifecycle.Rules.{
  is_order, is_open_shift, is_active_order, is_claimable, set_claimed, set_status,
}
use couriers_server_node.Prelude.{
  found-count, find, count, find_holds, find-update, ℕ, ◌≡◌, refl, ◌∙◌, ◌≢◌, inl, inr, Bool, true,
  false, none, some, arith,
}
use couriers_server_node.World.{Db, World, Env}

-- An answer that is no error.
abbrev pub is_ok : {A : Type 0} → Result A → Bool
is_ok (ok a) = true
is_ok (err e) = false

claim_check_passes :
    (user : AuthUser) (w : World)
    → find (is_open_shift user) w.db.shifts ≢ none
    → count (is_active_order user.user_id user.owner_id) w.db.orders ≡ 0
    → claim_check user w ≡ (ok tt, w)
unfolding claim_check
claim_check_passes user w s i = ground arith

claim_granted-is_ok :
    (env : Env) (id : ℕ) (user : AuthUser) (o : Order) (w : World)
    → load w.db id user.owner_id ≡ some o
    → is_ok (claim_granted env id user w).0 ≡ true
unfolding claim_granted load_order append_audit_entry enqueue_callback_if_needed
claim_granted-is_ok env id user o w e = ground arith

advance_check_passes :
    (id : ℕ) (t : OrderStatus) (user : AuthUser) (o : Order) (w : World)
    → CanAdvance w.db id t user o
    → advance_check id t user w ≡ (ok o, w)
unfolding advance_check load_order
advance_check_passes id t user o w c = ground (arith, c.loaded, c.edge, c.assigned_to)

advance_report-is_ok :
    (env : Env) (id : ℕ) (t : OrderStatus) (user : AuthUser) (o x : Order) (w : World)
    → env.queue_ready ≡ true
    → load w.db id user.owner_id ≡ some x
    → is_ok (advance_report env id t user o w).0 ≡ true
unfolding advance_report load_order append_audit_entry enqueue_callback_if_needed
advance_report-is_ok env id t user o x w q e = ground arith

pub claim_answers :
    (env : Env) (id : ℕ) (user : AuthUser) (o : Order) (w : World)
    → find (is_open_shift user) w.db.shifts ≢ none
    → count (is_active_order user.user_id user.owner_id) w.db.orders ≡ 0
    → load w.db id user.owner_id ≡ some o
    → is_claimable id user.owner_id o ≡ true
    → (is_ok (claim env id user w).0 ≡ true)
      × ((claim env id user w).1.db ≡ claimed_db env id user w.db)
unfolding claim claim_commit
claim_answers env id user o w s i e c =
    let p = is_claimable id user.owner_id in
    let d = w.db in
    let n = found-count (is_order id user.owner_id) p d.orders o e c in
    let w' : World = record w { db = claimed_orders env id user d } in
    let l : load w'.db id user.owner_id ≡ some (set_claimed env user o) =
      rw
        (
          find-update (is_order id user.owner_id) p (set_claimed env user) d.orders (λ x. refl),
          e,
          c,
        )
        refl in
    ground (
      arith,
      claim_check_passes user w s i,
      claim_granted-is_ok env id user (set_claimed env user o) w' l,
      claim_granted-db env id user w',
    )

rows_ok :
    (env : Env) (id : ℕ) (t : OrderStatus) (user : AuthUser) (o : Order) (w : World)
    → IsUnpaid w.db id
    → (advance_rows env id t user o w).0 ≡ ok tt
unfolding advance_rows
rows_ok env id completed user o w u = advance_rows_ok env id user o w u
rows_ok env id created user o w u = refl
rows_ok env id _ user o w u = refl

-- The order is there to be read again.
pub load-advanced :
    (env : Env) (id : ℕ) (t : OrderStatus) (user : AuthUser) (o : Order) (d : Db)
    → load d id user.owner_id ≡ some o
    → load (advanced_rows env id t user o d) id user.owner_id ≡ some (set_status env t o)
load-advanced env id t user o d e =
    let q = is_order id user.owner_id in
    let k = find_holds q d.orders o e in
    let same : (x : Order) → q (set_status env t x) ≡ q x =
      λ x. let s = set_status-SameOrder env t x in rw (s.same_id, s.same_owner) refl in
    let f = find-update q q (set_status env t) d.orders same in
    rw (advanced_rows-orders env id t user o d) (f ∙ rw (e, k) refl)

pub advance_answers :
    (env : Env) (id : ℕ) (t : OrderStatus) (user : AuthUser) (o : Order) (w : World)
    → env.queue_ready ≡ true
    → CanAdvance w.db id t user o
    → IsUnpaid w.db id
    → (is_ok (advance_status env id t user w).0 ≡ true)
      × ((advance_status env id t user w).1.db ≡ advanced_db env id t user o w.db)
unfolding advance_status advance_commit
advance_answers env id t user o w q c u = elim (advance_rows-db env id t user o w) [
  | inl (e, h, _) ↦ absurd (let k = rows_ok env id t user o w u in cc)
  | inr (h, e, _) ↦
      let l = load-advanced env id t user o w.db c.loaded in
      let l' : load (advance_rows env id t user o w).1.db id user.owner_id
          ≡ some (set_status env t o) =
        rw e l in
      ground (
        arith,
        advance_check_passes id t user o w c,
        advance_report-is_ok env id t user o (set_status env t o) (advance_rows env id t user o w).1
            q l',
        advance_report-db env id t user o (advance_rows env id t user o w).1,
      )
]
