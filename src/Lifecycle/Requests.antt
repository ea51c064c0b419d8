-- ===== src/Lifecycle/Requests.antt =====
-- src/orders/order-lifecycle.controller.ts: the requests that change an order, and what each does to
-- the database.
use couriers_server_node.Entities.{AuthUser, OrderStatus, same_status, Order, completed}
use couriers_server_node.Lifecycle.AdvanceEffect.{
  advanced_db, IsUnpaid, CanAdvance, advance_status-db,
}
use couriers_server_node.Lifecycle.Calls.{OrderLifecycleResponse}
use couriers_server_node.Lifecycle.CancelEffect.{cancelled_db, CanCancel, cancel-db}
use couriers_server_node.Lifecycle.Effects.{claimed_db, CanClaim, claim-db}
use couriers_server_node.Lifecycle.Handlers.{claim, advance_status, cancel}
use couriers_server_node.Prelude.{ℕ, String, ◌≡◌, ◌⊎◌, true, Option, List, ◌∷◌, []}
use couriers_server_node.World.{Db, World, Env, Exec}

pub data Request : Type 0 where
  claims : (id : ℕ) → Request
  advances : (id : ℕ) (target : OrderStatus) → Request
  cancels : (id : ℕ) (reason : Option String) → Request

-- `claim`, `pickup` / `startDelivery` / `complete`, and `cancel` of the controller.
unfoldable pub handle : Env → AuthUser → Request → Exec OrderLifecycleResponse
handle env user (claims id) = claim env id user
handle env user (advances id target) = advance_status env id target user
handle env user (cancels id reason) = cancel env id reason user

-- A request in its context: the environment that it meets and the user who makes it.
abbrev pub Call : Type 0
Call = Env × AuthUser × Request

unfoldable pub run : List Call → World → World
run [] w = w
run ((env, user, r) ∷ calls) w = run calls (handle env user r w).1

-- The database stays as it was, or it changes as the request says under the conditions checked.
abbrev pub Effect : Env → AuthUser → Request → Db → Db → Type 0
Effect env user (claims id) d d' = (d' ≡ d) ⊎ (CanClaim d id user × (d' ≡ claimed_db env id user d))
Effect env user (advances id target) d d' =
    (d' ≡ d)
    ⊎ ((o : Order) × CanAdvance d id target user o
        × (same_status target completed ≡ true → IsUnpaid d id)
        × (d' ≡ advanced_db env id target user o d))
Effect env user (cancels id reason) d d' =
    (d' ≡ d) ⊎ ((o : Order) × CanCancel d id user o × (d' ≡ cancelled_db env id reason user o d))

pub handle-Effect :
    (env : Env) (user : AuthUser) (r : Request) (w : World)
    → Effect env user r w.db (handle env user r w).1.db
unfolding handle
handle-Effect env user (claims id) w = claim-db env id user w
handle-Effect env user (advances id target) w = advance_status-db env id target user w
handle-Effect env user (cancels id reason) w = cancel-db env id reason user w

-- A property of the database that every effect keeps is kept by every sequence of requests.
pub run_induction :
    (P : Db → Type 0)
    → ((env : Env) (user : AuthUser) (r : Request) (d d' : Db)
        → Effect env user r d d'
        → P d
        → P d')
    → (calls : List Call) (w : World) → P w.db
    → P (run calls w).db
unfolding run
run_induction P keep [] w h = h
run_induction P keep ((env, user, r) ∷ calls) w h =
    run_induction P keep calls (handle env user r w).1
      (keep env user r w.db _ (handle-Effect env user r w) h)
