-- ===== src/Lifecycle/Rows.antt =====
-- The three requests as one statement on the table of orders: a condition, a write, and what the
-- checks of the handler guarantee of every row that the write meets.
use couriers_server_node.Entities.{AuthUser, OrderStatus, same_status, Order, created, completed}
use couriers_server_node.Lifecycle.AdvanceEffect.{advanced_rows, IsUnpaid, CanAdvance}
use couriers_server_node.Lifecycle.CancelEffect.{CanCancel}
use couriers_server_node.Lifecycle.Effects.{claimed_orders, CanClaim, audited_only}
use couriers_server_node.Lifecycle.Keys.{Distinct, same_row, Distinct-update}
use couriers_server_node.Lifecycle.Requests.{Request, Effect, claims, advances, cancels}
use couriers_server_node.Lifecycle.Rules.{
  courier_transitions, leads_to, is_final, is_order, is_claimable, is_cancellable, set_claimed,
  set_status, set_cancelled,
}
use couriers_server_node.Prelude.{
  holds, update, All, Pointwise, Pointwise-refl, update-Pointwise, All-update, All-of, All-mono, ℕ,
  String, ◌≡◌, refl, sym, ap, subst, ◌∙◌, ◌⊎◌, inl, inr, Bool, true, false, Option, none, List,
  arith,
}
use couriers_server_node.World.{Db, Env}

abbrev pub condition : AuthUser → Request → Order → Bool
condition user (claims id) = is_claimable id user.owner_id
condition user (advances id t) = is_order id user.owner_id
condition user (cancels id reason) = is_cancellable id user.owner_id

abbrev pub write : Env → AuthUser → Request → Order → Order
write env user (claims id) = set_claimed env user
write env user (advances id t) = set_status env t
write env user (cancels id reason) = set_cancelled env

abbrev pub written : Env → AuthUser → Request → List Order → List Order
written env user r = update (condition user r) (write env user r)

-- What is known of a row under the write.
abbrev pub Met : AuthUser → Request → Order → Type 0
Met user (claims id) x =
    (x.id ≡ id) × (x.owner_id ≡ user.owner_id) × (x.status ≡ created) × (x.courier_id ≡ none)
Met user (advances id t) x =
    (x.id ≡ id)
    × (x.owner_id ≡ user.owner_id)
    × (leads_to (courier_transitions x.status) t ≡ true)
    × (holds x.courier_id user.user_id ≡ true)
Met user (cancels id reason) x =
    (x.id ≡ id) × (x.owner_id ≡ user.owner_id) × (is_final x.status ≡ false)

abbrev pub Checked : AuthUser → Request → Db → Type 0
Checked user (claims id) d = CanClaim d id user
Checked user (advances id t) d =
    (o : Order) × CanAdvance d id t user o × (same_status t completed ≡ true → IsUnpaid d id)
Checked user (cancels id reason) d = (o : Order) × CanCancel d id user o

-- The table of orders after a request.
pub Effect-orders :
    (env : Env) (user : AuthUser) (r : Request) (d d' : Db)
    → Effect env user r d d'
    → (d' ≡ d) ⊎ (Checked user r d × (d'.orders ≡ written env user r d.orders))
Effect-orders env user (claims id) d d' (inl e) = inl e
Effect-orders env user (claims id) d d' (inr (can, e)) = inr (
  can,
  ap (λ (x : Db). x.orders) e ∙ (audited_only env id user _ (claimed_orders env id user d)).orders,
)
Effect-orders env user (advances id t) d d' (inl e) = inl e
Effect-orders env user (advances id t) d d' (inr (o, can, free, e)) = inr (
  (o, can, free),
  ap (λ (x : Db). x.orders) e
      ∙ (audited_only env id user _ (advanced_rows env id t user o d)).orders
      ∙ ground arith,
)
Effect-orders env user (cancels id reason) d d' (inl e) = inl e
Effect-orders env user (cancels id reason) d d' (inr (o, can, e)) =
    inr ((o, can), ap (λ (x : Db). x.orders) e ∙ (audited_only env id user _ _).orders)

claim_meets :
    (user : AuthUser) (id : ℕ) (x : Order)
    → condition user (claims id) x ≡ true
    → Met user (claims id) x
claim_meets user id x e = ground arith

cancel_meets :
    (user : AuthUser) (id : ℕ) (r : Option String) (x : Order)
    → condition user (cancels id r) x ≡ true
    → Met user (cancels id r) x
cancel_meets user id r x e = ground arith

advance_meets :
    (user : AuthUser) (id : ℕ) (t : OrderStatus) (d : Db) (o x : Order)
    → CanAdvance d id t user o
    → condition user (advances id t) x ≡ true
    → x ≡ o
    → Met user (advances id t) x
advance_meets user id t d o x can c e = ground arith

pub Checked-Met :
    (user : AuthUser) (r : Request) (d : Db)
    → Checked user r d
    → Distinct d.orders
    → All (λ x. condition user r x ≡ true → Met user r x) d.orders
Checked-Met user (claims id) d can u = All-of _ (claim_meets user id) d.orders
Checked-Met user (advances id t) d (o, can, _) u =
    All-mono _ _ (λ x same c. advance_meets user id t d o x can c (same c)) d.orders
      (same_row id user.owner_id d.orders o u can.loaded)
Checked-Met user (cancels id reason) d can u = All-of _ (cancel_meets user id reason) d.orders

-- A relation that holds between each row and its write holds between the tables.
pub Effect-Pointwise :
    (R : Order → Order → Type 0) (env : Env) (user : AuthUser) (r : Request) (d d' : Db)
    → ((x : Order) → R x x)
    → ((x : Order) → Met user r x → R x (write env user r x))
    → Effect env user r d d'
    → Distinct d.orders
    → Pointwise R d.orders d'.orders
Effect-Pointwise R env user r d d' same step h u = elim (Effect-orders env user r d d' h) [
  | inl e ↦ subst (λ y. Pointwise R d.orders y.orders) (sym e) (Pointwise-refl R same d.orders)
  | inr (can, e) ↦ subst (Pointwise R d.orders) (sym e) (
      update-Pointwise R (condition user r) (write env user r) same d.orders
        (All-mono _ _ (λ x met c. step x (met c)) d.orders (Checked-Met user r d can u)))
]

-- So does a predicate that each write keeps.
pub Effect-All :
    (P : Order → Type 0) (env : Env) (user : AuthUser) (r : Request) (d d' : Db)
    → ((x : Order) → Met user r x → P x → P (write env user r x))
    → Effect env user r d d'
    → Distinct d.orders
    → All P d.orders
    → All P d'.orders
Effect-All P env user r d d' step h u a = elim (Effect-orders env user r d d' h) [
  | inl e ↦ subst (λ y. All P y.orders) (sym e) a
  | inr (can, e) ↦ subst (All P) (sym e) (
      All-update P (condition user r) (write env user r) d.orders
        (All-mono _ _ (λ x met c. step x (met c)) d.orders (Checked-Met user r d can u)) a)
]

write-id : (env : Env) (user : AuthUser) (r : Request) (x : Order) → (write env user r x).id ≡ x.id
write-id env user (claims id) x = refl
write-id env user (advances id t) x = ground arith
write-id env user (cancels id reason) x = refl

-- The keys stay distinct.
pub Effect-Distinct :
    (env : Env) (user : AuthUser) (r : Request) (d d' : Db)
    → Effect env user r d d'
    → Distinct d.orders
    → Distinct d'.orders
Effect-Distinct env user r d d' h u = elim (Effect-orders env user r d d' h) [
  | inl e ↦ subst (λ y. Distinct y.orders) (sym e) u
  | inr (can, e) ↦
      subst Distinct (sym e)
        (Distinct-update (condition user r) (write env user r) d.orders (write-id env user r) u)
]
