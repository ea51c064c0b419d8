-- ===== src/Lifecycle/OneActive.antt =====
-- FR-016, the limit on active orders in `claim`, for requests that run one after the other
-- (src/orders/order-lifecycle.service.ts).
use couriers_server_node.Entities.{AuthUser, OrderStatus, Order}
use couriers_server_node.Lifecycle.Diagram.{set_status-SameOrder, set_status-courier, not_final}
use couriers_server_node.Lifecycle.Keys.{Distinct, count-is_order}
use couriers_server_node.Lifecycle.Requests.{
  Request, Call, run, Effect, run_induction, claims, advances, cancels,
}
use couriers_server_node.Lifecycle.Rows.{
  written, Met, Checked, Effect-orders, Checked-Met, Effect-Distinct,
}
use couriers_server_node.Lifecycle.Rules.{
  is_order, is_active_order, is_claimable, is_cancellable, set_claimed, set_status, set_cancelled,
}
use couriers_server_node.Prelude.{
  ◌==◌, Bool-cases, count, All-of, All-mono, count-update-le, count-update-le-add, count_mono, ℕ,
  ◌≤◌, ◌≡◌, inl, inr, true, false, ◌&&◌, List, arith,
}
use couriers_server_node.World.{Db, World, Env}

abbrev pub AtMostOne : Db → Type 0
AtMostOne d = (courier owner : ℕ) → count (is_active_order courier owner) d.orders ≤ 1

abbrev pub OneActive : Db → Type 0
OneActive d = Distinct d.orders × AtMostOne d

-- An advance makes no order active that was not.
kept_active :
    (env : Env) (user : AuthUser) (id : ℕ) (t : OrderStatus) (c owner : ℕ) (x : Order)
    → Met user (advances id t) x
    → is_active_order c owner (set_status env t x) ≡ true
    → is_active_order c owner x ≡ true
kept_active env user id t c owner x m h =
    ground
      (arith, set_status-courier env t x, set_status-SameOrder env t x, not_final x.status t m.2)

-- A claim makes orders active for the claiming courier, within the tenant, and for no other.
claimed_by :
    (env : Env) (id : ℕ) (user : AuthUser) (c owner : ℕ) (x : Order)
    → (c == user.user_id && owner == user.owner_id) ≡ false
    → is_claimable id user.owner_id x ≡ true
    → is_active_order c owner (set_claimed env user x) ≡ true
    → is_active_order c owner x ≡ true
claimed_by env id user c owner x n p h = absurd (ground arith)

claimable_once :
    (id : ℕ) (user : AuthUser) (os : List Order)
    → Distinct os
    → count (is_claimable id user.owner_id) os ≤ 1
claimable_once id user os u = omega (
  arith,
  count_mono (is_claimable id user.owner_id) (is_order id user.owner_id) os (λ x e. ground arith),
  count-is_order id user.owner_id os u,
)

written-AtMostOne :
    (env : Env) (user : AuthUser) (r : Request) (d : Db) (c owner : ℕ)
    → Checked user r d
    → OneActive d
    → count (is_active_order c owner) (written env user r d.orders) ≤ 1
written-AtMostOne env user (claims id) d c owner can (u, h) =
    elim (Bool-cases (c == user.user_id && owner == user.owner_id)) [
      | inl e ↦ ground (
        arith,
        can.idle,
        claimable_once id user d.orders u,
        count-update-le-add (is_active_order c owner) (is_claimable id user.owner_id)
            (set_claimed env user) d.orders,
      )
      | inr n ↦ omega (
        arith,
        h c owner,
        count-update-le (is_active_order c owner) (is_claimable id user.owner_id)
            (set_claimed env user) d.orders
            (All-of _ (λ x p q. claimed_by env id user c owner x n p q) d.orders),
      )
    ]
written-AtMostOne env user (advances id t) d c owner can (u, h) = omega (
  arith,
  h c owner,
  count-update-le (is_active_order c owner) (is_order id user.owner_id) (set_status env t) d.orders
      (All-mono _ _ (λ x met p q. kept_active env user id t c owner x (met p) q) d.orders
        (Checked-Met user (advances id t) d can u)),
)
written-AtMostOne env user (cancels id reason) d c owner can (u, h) = omega (
  arith,
  h c owner,
  count-update-le (is_active_order c owner) (is_cancellable id user.owner_id) (set_cancelled env)
      d.orders (All-of _ (λ x p q. absurd (cc)) d.orders),
)

pub Effect-OneActive :
    (env : Env) (user : AuthUser) (r : Request) (d d' : Db)
    → Effect env user r d d'
    → OneActive d
    → OneActive d'
Effect-OneActive env user r d d' h p = (
  Effect-Distinct env user r d d' h p.0,
  λ c owner. elim (Effect-orders env user r d d' h) [
    | inl e ↦ rw e (p.1 c owner)
    | inr (can, e) ↦ rw e (written-AtMostOne env user r d c owner can p)
  ],
)

-- After any sequence of requests no courier has two active orders, if none had two before.
pub run-OneActive : (calls : List Call) (w : World) → OneActive w.db → OneActive (run calls w).db
run-OneActive calls w h = run_induction OneActive Effect-OneActive calls w h
