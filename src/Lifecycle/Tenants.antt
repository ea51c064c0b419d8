-- ===== src/Lifecycle/Tenants.antt =====
-- src/orders/order-lifecycle.service.ts: the requests of one tenant's users and the orders of another.
use couriers_server_node.Entities.{AuthUser, Order}
use couriers_server_node.Lifecycle.Keys.{Distinct}
use couriers_server_node.Lifecycle.Requests.{
  Request, handle, Call, run, handle-Effect, claims, advances, cancels,
}
use couriers_server_node.Lifecycle.Rows.{Met, Effect-Pointwise, Effect-Distinct}
use couriers_server_node.Prelude.{
  All, Pointwise, Pointwise-refl, Pointwise-trans, ℕ, ◌≡◌, refl, sym, subst, ◌∙◌, ◌≢◌, List, ◌∷◌,
  [],
}
use couriers_server_node.World.{World}

-- An order of the tenant stays as it is.
abbrev pub Untouched : ℕ → Order → Order → Type 0
Untouched tenant o o' = o.owner_id ≡ tenant → o' ≡ o

Untouched-trans :
    (tenant : ℕ) (x y z : Order)
    → Untouched tenant x y
    → Untouched tenant y z
    → Untouched tenant x z
Untouched-trans tenant x y z p q e = q (subst (λ o. o.owner_id ≡ tenant) (sym (p e)) e) ∙ p e

Met-owner : (user : AuthUser) (r : Request) (x : Order) → Met user r x → x.owner_id ≡ user.owner_id
Met-owner user (claims id) x m = m.1
Met-owner user (advances id t) x m = m.1
Met-owner user (cancels id reason) x m = m.1

-- The calls of users of other tenants, whatever they ask for and whatever they are answered, leave
-- every order of a tenant as it was; orders have distinct keys.
pub run-Untouched :
    (tenant : ℕ) (calls : List Call) (w : World)
    → All (λ (c : Call). c.1.owner_id ≢ tenant) calls
    → Distinct w.db.orders
    → Pointwise (Untouched tenant) w.db.orders (run calls w).db.orders
unfolding run
run-Untouched tenant [] w h u = Pointwise-refl (Untouched tenant) (λ x e. refl) w.db.orders
run-Untouched tenant ((env, user, r) ∷ calls) w h u =
    let w' = (handle env user r w).1 in
    let e = handle-Effect env user r w in
    Pointwise-trans (Untouched tenant) (Untouched tenant) (Untouched tenant)
      (Untouched-trans tenant) w.db.orders w'.db.orders (run calls w').db.orders
      (Effect-Pointwise (Untouched tenant) env user r w.db w'.db (λ x q. refl)
        (λ x m q. absurd (h.0 (sym (Met-owner user r x m) ∙ q))) e u)
      (run-Untouched tenant calls w' h.1 (Effect-Distinct env user r w.db w'.db e u))
