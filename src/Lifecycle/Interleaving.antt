-- ===== src/Lifecycle/Interleaving.antt =====
-- Requests that overlap: between the reads of a handler and its first update, other handlers run.
-- A step is the check of a request, which may put its commit among those pending, or any commit
-- that is pending. Each statement, and the transaction of a completion, is atomic.
use couriers_server_node.Entities.{AuthUser, OrderStatus, Order, created, assigned, cancelled}
use couriers_server_node.Http.{ok}
use couriers_server_node.Lifecycle.AdvanceEffect.{
  advanced_rows, advance_commit-db, advanced_rows-orders,
}
use couriers_server_node.Lifecycle.CancelEffect.{cancel_commit-db}
use couriers_server_node.Lifecycle.Effects.{claimed_orders, claim_commit-db, audited_only}
use couriers_server_node.Lifecycle.Handlers.{
  claim_check, claim_commit, advance_check, advance_commit, cancel_check, cancel_commit,
}
use couriers_server_node.Lifecycle.Requests.{Request}
use couriers_server_node.Lifecycle.Rows.{written}
use couriers_server_node.Lifecycle.Rules.{is_claimable}
use couriers_server_node.Prelude.{
  ◌==◌, Bool-cases, count, ℕ, String, ◌≡◌, ap, ◌∙◌, ◌⊎◌, inl, inr, Option, none, List, ◌∷◌, ◌++◌,
}
use couriers_server_node.World.{Db, World, Env}

-- A commit that waits, with what its check has read.
pub data Pending : Type 0 where
  claiming : Env → (id : ℕ) → AuthUser → Pending
  advancing : Env → (id : ℕ) → OrderStatus → AuthUser → Order → Pending
  cancelling : Env → (id : ℕ) → Option String → AuthUser → Order → Pending

pub record System : Type 0 where
  pub world : World
  pub pending : List Pending

unfoldable pub commit : Pending → World → World
commit (claiming env id user) w = (claim_commit env id user w).1
commit (advancing env id t user o) w = (advance_commit env id t user o w).1
commit (cancelling env id reason user o) w = (cancel_commit env id reason user o w).1

-- A check that passes, against the database of that moment.
pub data Admitted (w : World) : Pending → Type 0 where
  claim_admitted :
      (env : Env) (id : ℕ) (user : AuthUser)
      → claim_check user w ≡ (ok tt, w)
      → Admitted w (claiming env id user)
  advance_admitted :
      (env : Env) (id : ℕ) (t : OrderStatus) (user : AuthUser) (o : Order)
      → advance_check id t user w ≡ (ok o, w)
      → Admitted w (advancing env id t user o)
  cancel_admitted :
      (env : Env) (id : ℕ) (reason : Option String) (user : AuthUser) (o : Order)
      → cancel_check id user w ≡ (ok o, w)
      → Admitted w (cancelling env id reason user o)

pub data Step : System → System → Type 0 where
  admit :
      {w : World} {ps : List Pending} (p : Pending)
      → Admitted w p
      → Step (record { world = w; pending = ps }) (record { world = w; pending = p ∷ ps })
  perform :
      {w : World} (before after : List Pending) (p : Pending)
      → Step
          (record { world = w; pending = before ++ p ∷ after })
          (record { world = commit p w; pending = before ++ after })

pub data Reach (s : System) : System → Type 0 where
  here : Reach s s
  next : {t u : System} → Reach s t → Step t u → Reach s u

abbrev pub env_of : Pending → Env
env_of (claiming env id user) = env
env_of (advancing env id t user o) = env
env_of (cancelling env id reason user o) = env

abbrev pub user_of : Pending → AuthUser
user_of (claiming env id user) = user
user_of (advancing env id t user o) = user
user_of (cancelling env id reason user o) = user

abbrev pub request_of : Pending → Request
request_of (claiming env id user) = Request.claims id
request_of (advancing env id t user o) = Request.advances id t
request_of (cancelling env id reason user o) = Request.cancels id reason

-- A commit writes the table of orders once, or leaves the database as it was.
pub commit-orders :
    (p : Pending) (w : World)
    → ((commit p w).db ≡ w.db)
      ⊎ ((commit p w).db.orders ≡ written (env_of p) (user_of p) (request_of p) w.db.orders)
unfolding commit
commit-orders (claiming env id user) w =
    elim (Bool-cases (count (is_claimable id user.owner_id) w.db.orders == 0)) [
      | inl e ↦ inl (claim_commit-db env id user w ∙ rw e)
      | inr e ↦ inr (
          ap (λ (x : Db). x.orders) (claim_commit-db env id user w)
          ∙ rw e
              (audited_only env id user (record { from = created; to = assigned; reason = none })
                (claimed_orders env id user w.db)).orders)
    ]
commit-orders (advancing env id t user o) w = elim (advance_commit-db env id t user o w) [
  | inl e ↦ inl e
  | inr (e, _) ↦ inr (
      ap (λ (x : Db). x.orders) e
      ∙ (audited_only env id user (record { from = o.status; to = t; reason = none })
          (advanced_rows env id t user o w.db)).orders
      ∙ advanced_rows-orders env id t user o w.db)
]
commit-orders (cancelling env id reason user o) w = elim (cancel_commit-db env id reason user o w) [
  | inl e ↦ inl e
  | inr (_, e) ↦ inr (
      ap (λ (x : Db). x.orders) e
      ∙ (audited_only env id user (record { from = o.status; to = cancelled; reason = reason })
          _).orders)
]
