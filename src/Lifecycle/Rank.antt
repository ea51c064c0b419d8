-- ===== src/Lifecycle/Rank.antt =====
-- src/orders/order-lifecycle.service.ts: how often the status of an order can change.
use couriers_server_node.Entities.{
  OrderStatus, status_code, same_status, Order, completed, created, assigned, picked_up,
  in_delivery, cancelled,
}
use couriers_server_node.Lifecycle.Diagram.{
  Edge, Moves, handle-Moves, taken, picked, started, finished, dropped,
}
use couriers_server_node.Lifecycle.Keys.{Distinct}
use couriers_server_node.Lifecycle.Requests.{handle, Call, run, handle-Effect}
use couriers_server_node.Lifecycle.Rows.{Effect-Distinct}
use couriers_server_node.Prelude.{
  ◌==◌, if◌then◌else◌, ==_refl, find, Pointwise, ℕ, suc, ◌+◌, ◌≤◌, ◌≡◌, refl, ap, ◌⊎◌, inl, inr,
  Bool, true, false, Option, none, some, List, ◌∷◌, arith, [],
}
use couriers_server_node.World.{World}

-- The steps that are left from a status at most.
abbrev pub rank : OrderStatus → ℕ
rank created = 4
rank assigned = 3
rank picked_up = 2
rank in_delivery = 1
rank completed = 0
rank cancelled = 0

abbrev pub status_at : ℕ → List Order → Option OrderStatus
status_at id os = elim (find (λ o. o.id == id) os) [ none ↦ none | some o ↦ some o.status ]

abbrev pub rank_at : ℕ → List Order → ℕ
rank_at id os = elim (find (λ o. o.id == id) os) [ none ↦ 0 | some o ↦ rank o.status ]

abbrev pub same_at : Option OrderStatus → Option OrderStatus → Bool
same_at none none = true
same_at none (some t) = false
same_at (some s) none = false
same_at (some s) (some t) = same_status s t

-- The requests of a sequence that change the status of an order.
unfoldable pub changes : ℕ → List Call → World → ℕ
changes id [] w = 0
changes id ((env, user, r) ∷ calls) w =
    let w' = (handle env user r w).1 in
    let rest = changes id calls w' in
    if same_at (status_at id w.db.orders) (status_at id w'.db.orders) then rest else suc rest

Edge-rank : (s t : OrderStatus) → Edge s t → suc (rank t) ≤ rank s
Edge-rank s t taken = omega arith
Edge-rank s t picked = omega arith
Edge-rank s t started = omega arith
Edge-rank s t finished = omega arith
Edge-rank s t (dropped n) = ground arith

same_refl : (s : Option OrderStatus) → same_at s s ≡ true
same_refl none = refl
same_refl (some s) = ==_refl (status_code s)

Moves-rank :
    (id : ℕ) (os os' : List Order)
    → Pointwise Moves os os'
    → ((status_at id os' ≡ status_at id os) × (rank_at id os' ≡ rank_at id os))
      ⊎ (suc (rank_at id os') ≤ rank_at id os)
unfolding find
Moves-rank id [] [] h = inl (refl, refl)
Moves-rank id [] (y ∷ ys) h = absurd h
Moves-rank id (x ∷ xs) [] h = absurd h
Moves-rank id (x ∷ xs) (y ∷ ys) (inl e, h) =
    ground
      (arith, ap (λ (o : Order). o.id) e, ap (λ (o : Order). o.status) e, Moves-rank id xs ys h)
Moves-rank id (x ∷ xs) (y ∷ ys) (inr (g, s), h) =
    ground (arith, s.same_id, Edge-rank x.status y.status g, Moves-rank id xs ys h)

-- Of any sequence of requests, however long and whoever makes them, at most as many change the status of an order as its
-- rank says, four for a new order and none for a completed or cancelled one, and each lowers the rank; orders have
-- distinct keys.
pub changes_bounded :
    (id : ℕ) (calls : List Call) (w : World)
    → Distinct w.db.orders
    → changes id calls w + rank_at id (run calls w).db.orders ≤ rank_at id w.db.orders
unfolding changes run
changes_bounded id [] w u = omega arith
changes_bounded id ((env, user, r) ∷ calls) w u =
    let w' = (handle env user r w).1 in
    let u' = Effect-Distinct env user r w.db w'.db (handle-Effect env user r w) u in
    let rest = changes_bounded id calls w' u' in
    elim (Moves-rank id w.db.orders w'.db.orders (handle-Moves env user r w u)) [
      | inl (s, k) ↦ rw (s, same_refl (status_at id w.db.orders)) (omega (arith, k, rest))
      | inr k ↦ ground (arith, k, rest)
    ]
