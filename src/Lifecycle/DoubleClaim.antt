-- ===== src/Lifecycle/DoubleClaim.antt =====
-- src/orders/order-lifecycle.service.ts: FR-016 when two claims overlap.
use couriers_server_node.Entities.{AuthUser, Order}
use couriers_server_node.Http.{ok}
use couriers_server_node.Lifecycle.Effects.{claimed_orders, claim_commit-db, audited_only}
use couriers_server_node.Lifecycle.Handlers.{claim_check, claim_commit}
use couriers_server_node.Lifecycle.Rules.{is_active_order, is_claimable, set_claimed}
use couriers_server_node.Prelude.{
  ◌==◌, Bool-cases, count, update, count-update_add, count-update_same, ℕ, ◌≤◌, ◌≡◌, ap, ◌∙◌, ◌≢◌,
  inl, inr, true, false, arith,
}
use couriers_server_node.World.{Db, World, Env}

claimed_active :
    (env : Env) (id : ℕ) (user : AuthUser) (x : Order)
    → is_claimable id user.owner_id x ≡ true
    → (is_active_order user.user_id user.owner_id (set_claimed env user x) ≡ true)
      × (is_active_order user.user_id user.owner_id x ≡ false)
claimed_active env id user x e = ground arith

other_claimable :
    (env : Env) (id id' : ℕ) (user : AuthUser) (x : Order)
    → id ≢ id'
    → is_claimable id user.owner_id x ≡ true
    → is_claimable id' user.owner_id (set_claimed env user x) ≡ is_claimable id' user.owner_id x
other_claimable env id id' user x n e = ground arith

commit-claimed :
    (env : Env) (id : ℕ) (user : AuthUser) (w : World)
    → count (is_claimable id user.owner_id) w.db.orders ≢ 0
    → (claim_commit env id user w).1.db.orders
      ≡ update (is_claimable id user.owner_id) (set_claimed env user) w.db.orders
commit-claimed env id user w n =
    elim (Bool-cases (count (is_claimable id user.owner_id) w.db.orders == 0)) [
      | inl e ↦ absurd (ground arith)
      | inr e ↦
          ap (λ (x : Db). x.orders) (claim_commit-db env id user w)
          ∙ rw e (audited_only env id user _ (claimed_orders env id user w.db)).orders
    ]

-- A courier without an active order passes the check of `claim` for two orders at once; both commits
-- then go through, and the courier has two active orders.
pub claims_overlap :
    (env env' : Env) (id id' : ℕ) (user : AuthUser) (w : World)
    → claim_check user w ≡ (ok tt, w)
    → id ≢ id'
    → count (is_claimable id user.owner_id) w.db.orders ≢ 0
    → count (is_claimable id' user.owner_id) w.db.orders ≢ 0
    → let w' = (claim_commit env' id' user (claim_commit env id user w).1).1 in
      2 ≤ count (is_active_order user.user_id user.owner_id) w'.db.orders
claims_overlap env env' id id' user w checked n some_id some_id' =
    let p = is_claimable id user.owner_id in
    let p' = is_claimable id' user.owner_id in
    let active = is_active_order user.user_id user.owner_id in
    let w1 = (claim_commit env id user w).1 in
    let left =
      count-update_same p' p (set_claimed env user) w.db.orders
        (λ x e. other_claimable env id id' user x n e) in
    let here' = commit-claimed env id user w some_id in
    let still : count p' w1.db.orders ≡ count p' w.db.orders = rw here' left in
    rw (commit-claimed env' id' user w1 (rw still some_id'), here')
      (omega (
        arith,
        count-update_add active p' (set_claimed env' user)
            (update p (set_claimed env user) w.db.orders) (claimed_active env' id' user),
        count-update_add active p (set_claimed env user) w.db.orders (claimed_active env id user),
        left,
        some_id,
        some_id',
      ))
