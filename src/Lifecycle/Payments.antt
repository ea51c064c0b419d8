-- ===== src/Lifecycle/Payments.antt =====
-- The money of an order under interleavings of requests, with the unique indexes of migrations 014 and
-- 015 (src/orders/order-lifecycle.service.ts).
use couriers_server_node.Entities.{
  AuthUser, OrderStatus, same_status, Order, Transition, created, completed,
}
use couriers_server_node.Lifecycle.AdvanceEffect.{advanced_rows, IsUnpaid, advance_commit-db}
use couriers_server_node.Lifecycle.CancelEffect.{cancel_commit-db}
use couriers_server_node.Lifecycle.Effects.{audited, claimed_orders, claim_commit-db, audited_only}
use couriers_server_node.Lifecycle.Handlers.{delivery_record, courier_earning}
use couriers_server_node.Lifecycle.Interleaving.{
  Pending, System, commit, Step, Reach, admit, perform, here, next, claiming, advancing, cancelling,
}
use couriers_server_node.Lifecycle.Rules.{is_claimable}
use couriers_server_node.Lifecycle.Settlement.{earnings_of, deliveries_of}
use couriers_server_node.Prelude.{
  ◌==◌, Bool-cases, count, any, any-count, count_concat, ℕ, ◌≤◌, ◌≡◌, refl, sym, subst, inl, inr,
  true, false, List, ◌∷◌, ◌++◌, arith, [],
}
use couriers_server_node.World.{Db, World, Env}

abbrev pub PaidOnce : Db → Type 0
PaidOnce d =
    (order : ℕ)
    → (count (earnings_of order) d.courier_earnings ≤ 1)
      × (count (deliveries_of order) d.delivery_records ≤ 1)

-- A row that no row stands in the way of.
concat-le :
    {A : Type 0} (key : A → ℕ) (xs : List A) (x : A) (k : ℕ)
    → any (λ y. key y == key x) xs ≡ false
    → count (λ y. key y == k) xs ≤ 1
    → count (λ y. key y == k) (xs ++ x ∷ []) ≤ 1
concat-le key xs x k free h = elim (Bool-cases (key x == k)) [
  | inl e ↦
      rw (count_concat (λ y. key y == k) xs x, e)
        (ground (arith, any-count (λ y. key y == key x) xs free))
  | inr n ↦ rw (count_concat (λ y. key y == k) xs x, n) h
]

advanced-PaidOnce :
    (env : Env) (id : ℕ) (t : OrderStatus) (user : AuthUser) (o : Order) (d : Db)
    → (same_status t completed ≡ true → IsUnpaid d id)
    → PaidOnce d
    → PaidOnce (advanced_rows env id t user o d)
advanced-PaidOnce env id completed user o d free h k =
    let u = free refl in
    (
      concat-le (λ e. e.order_id) d.courier_earnings (courier_earning env id user o) k u.unearned
          (h k).0,
      concat-le (λ r. r.order_id) d.delivery_records (delivery_record env id user o) k u.undelivered
          (h k).1,
    )
advanced-PaidOnce env id created user o d free h k = h k
advanced-PaidOnce env id _ user o d free h k = h k

audited-PaidOnce :
    (env : Env) (id : ℕ) (user : AuthUser) (c : Transition) (d : Db)
    → PaidOnce d
    → PaidOnce (audited env id user c d)
audited-PaidOnce env id user c d h k =
    let a = audited_only env id user c d in rw (a.earnings, a.deliveries) (h k)

commit-PaidOnce : (p : Pending) (w : World) → PaidOnce w.db → PaidOnce (commit p w).db
unfolding commit
commit-PaidOnce (claiming env id user) w h =
    subst PaidOnce (sym (claim_commit-db env id user w))
      (elim (Bool-cases (count (is_claimable id user.owner_id) w.db.orders == 0)) [
        | inl e ↦ rw e h
        | inr e ↦ rw e (audited-PaidOnce env id user _ (claimed_orders env id user w.db) h)
      ])
commit-PaidOnce (advancing env id t user o) w h = elim (advance_commit-db env id t user o w) [
  | inl e ↦ subst PaidOnce (sym e) h
  | inr (e, free) ↦ subst PaidOnce (sym e) (
      audited-PaidOnce env id user _ (advanced_rows env id t user o w.db)
        (advanced-PaidOnce env id t user o w.db free h))
]
commit-PaidOnce (cancelling env id reason user o) w h =
    elim (cancel_commit-db env id reason user o w) [
      | inl e ↦ subst PaidOnce (sym e) h
      | inr (_, e) ↦ subst PaidOnce (sym e) (audited-PaidOnce env id user _ _ h)
    ]

Step-PaidOnce : {s t : System} → Step s t → PaidOnce s.world.db → PaidOnce t.world.db
Step-PaidOnce (admit p a) h = h
Step-PaidOnce (perform {w} before after p) h = commit-PaidOnce p w h

-- After any interleaving of claims, advances and cancellations no order has two earnings or two
-- delivery records, if none had before.
pub Reach-PaidOnce : {s t : System} → PaidOnce s.world.db → Reach s t → PaidOnce t.world.db
Reach-PaidOnce h here = h
Reach-PaidOnce h (next r st) = Step-PaidOnce st (Reach-PaidOnce h r)
