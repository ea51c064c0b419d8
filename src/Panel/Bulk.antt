-- ===== src/Panel/Bulk.antt =====
-- admin/src/pages/orders/BulkConfirmModal.tsx and src/orders: what a bulk cancellation reports and what
-- it has done.
use couriers_server_node.Access.Guards.{JwtPayload, validate}
use couriers_server_node.Entities.{AuthUser, OrderStatus, Order, cancelled}
use couriers_server_node.Http.{HttpError, Result, err}
use couriers_server_node.Lifecycle.Answers.{is_ok}
use couriers_server_node.Lifecycle.Calls.{load}
use couriers_server_node.Lifecycle.CancelEffect.{
  cancel_check_cases, cancel-db, cancel_commit_writes,
}
use couriers_server_node.Lifecycle.Effects.{audited_only}
use couriers_server_node.Lifecycle.Handlers.{cancel_check, cancel}
use couriers_server_node.Lifecycle.Races.{cancel_after_check}
use couriers_server_node.Lifecycle.Requests.{cancels}
use couriers_server_node.Lifecycle.Rows.{Effect-orders}
use couriers_server_node.Lifecycle.Rules.{
  operator_transitions, leads_to, is_final, is_order, is_cancellable, set_cancelled,
}
use couriers_server_node.Panel.Pages.{BulkCall, resolves, cancel_all}
use couriers_server_node.Prelude.{
  ◌==◌, ==_refl, Bool-cases, found-count, update, any, All, All-mono, find_holds, find-update, ℕ,
  String, ◌≡◌, refl, sym, subst, ◌∙◌, ◌⊎◌, inl, inr, true, false, Option, none, some, List, ◌∷◌,
  arith, [],
}
use couriers_server_node.Server.Requests.{void, perform, serve, cancels_order}
use couriers_server_node.Server.Runs.{void-world, serve_cases}
use couriers_server_node.World.{Db, World, Env, Exec}

abbrev pub IsCancelled : ℕ → ℕ → Db → Type 0
IsCancelled id owner d = (o : Order) × (load d id owner ≡ some o) × (o.status ≡ cancelled)

cancel_open :
    (s : OrderStatus) → leads_to (operator_transitions s) cancelled ≡ true → is_final s ≡ false
cancel_open s e = ground arith

refused_check :
    (env : Env) (id : ℕ) (reason : Option String) (user : AuthUser) (w : World) (e : HttpError)
    → cancel_check id user w ≡ (err e, w)
    → is_ok (cancel env id reason user w).0 ≡ false
unfolding cancel
refused_check env id reason user w e h = ground (arith, h)

cancel-IsCancelled :
    (env : Env) (id : ℕ) (reason : Option String) (user : AuthUser) (w : World)
    → is_ok (cancel env id reason user w).0 ≡ true
    → IsCancelled id user.owner_id (cancel env id reason user w).1.db
cancel-IsCancelled env id reason user w h = elim (cancel_check_cases id user w) [
  | inl (e, k) ↦ absurd (let z = refused_check env id reason user w e k in cc)
  | inr (o, can, k) ↦
      let q = is_order id user.owner_id in
      let p = is_cancellable id user.owner_id in
      let c : p o ≡ true =
        rw (find_holds q w.db.orders o can.loaded, cancel_open o.status can.edge) refl in
      let n = found-count q p w.db.orders o can.loaded c in
      let a =
        audited_only env id user (record { from = o.status; to = cancelled; reason = reason })
          (record (w.db) { orders = update p (set_cancelled env) w.db.orders }) in
      let f = find-update q p (set_cancelled env) w.db.orders (λ x. refl) in
      rw (cancel_after_check env id reason user o w k) (
        subst (IsCancelled id user.owner_id) (sym (cancel_commit_writes env id reason user o w n))
          (set_cancelled env o, rw (a.orders) (f ∙ rw (can.loaded, c) refl), refl))
]

-- A later cancellation leaves a cancelled order cancelled.
IsCancelled-cancel :
    (env : Env) (user : AuthUser) (other : ℕ) (reason : Option String) (id owner : ℕ) (w : World)
    → IsCancelled id owner w.db
    → IsCancelled id owner (cancel env other reason user w).1.db
IsCancelled-cancel env user other reason id owner w (o, l, s) =
    elim (Effect-orders env user (cancels other reason) w.db _
      (cancel-db env other reason user w)) [
        | inl e ↦ subst (IsCancelled id owner) (sym e) (o, l, s)
        | inr (_, e) ↦
            let q = is_order id owner in
            let p = is_cancellable other user.owner_id in
            let f = find-update q p (set_cancelled env) w.db.orders (λ x. refl) in
            let n : p o ≡ false = rw s (ground arith) in (o, rw e (f ∙ rw (l, n) refl), s)
      ]

-- What a request of the loop leaves: if it resolves, its order is cancelled, and orders that were
-- cancelled still are.
abbrev After : JwtPayload → BulkCall → World → Result (Unit {0}) × World → Type 0
After p c w r =
    (resolves c r.0 ≡ true → IsCancelled c.id p.owner_id r.1.db)
    × ((id : ℕ) → IsCancelled id p.owner_id w.db → IsCancelled id p.owner_id r.1.db)

void-resolves :
    {A : Type 0} (c : BulkCall) (m : Exec A) (w : World)
    → resolves c (void m w).0 ≡ true
    → is_ok (m w).0 ≡ true
void-resolves c m w h = ground (arith, h)

performed :
    (p : JwtPayload) (c : BulkCall) (w : World)
    → After p c w (perform c.site (validate p) (cancels_order c.id none) w)
unfolding perform
performed p c w =
    let env = c.site.env in
    let user = validate p in
    let m = cancel env c.id none user in
    let v = void-world m w in
    (
      λ h.
          subst (λ (x : World). IsCancelled c.id p.owner_id x.db) (sym v)
            (cancel-IsCancelled env c.id none user w (void-resolves c m w h)),
      λ id k.
          subst (λ (x : World). IsCancelled id p.owner_id x.db) (sym v)
            (IsCancelled-cancel env user c.id none id p.owner_id w k),
    )

served :
    (p : JwtPayload) (c : BulkCall) (w : World)
    → After p c w (serve c.site (some p) (cancels_order c.id none) w)
served p c w = elim (serve_cases c.site p (cancels_order c.id none) w) [
  | inl (e, h) ↦ subst (After p c w) (sym h) (λ k. absurd (cc), λ id k. k)
  | inr h ↦ subst (After p c w) (sym h) (performed p c w)
]

-- The rest of the loop leaves cancelled orders cancelled.
still :
    (p : JwtPayload) (cs : List BulkCall) (w : World) (id : ℕ)
    → IsCancelled id p.owner_id w.db
    → IsCancelled id p.owner_id (cancel_all (some p) cs w).1.db
unfolding cancel_all
still p [] w id h = h
still p (c ∷ cs) w id h =
    still p cs (serve c.site (some p) (cancels_order c.id none) w).1 id ((served p c w).1 id h)

-- Every id of the list is reported as failed, or the order is cancelled.
abbrev pub Reported : JwtPayload → List ℕ → World → BulkCall → Type 0
Reported p failed w c = (any (λ x. x == c.id) failed ≡ true) ⊎ IsCancelled c.id p.owner_id w.db

module _ (token : Option JwtPayload) (c : BulkCall) (cs : List BulkCall) (w : World) where
  abbrev next_world : World
  next_world = (serve c.site token (cancels_order c.id none) w).1

  all_resolved :
      resolves c (serve c.site token (cancels_order c.id none) w).0 ≡ true
      → cancel_all token (c ∷ cs) w ≡ cancel_all token cs next_world
  unfolding cancel_all
  all_resolved e = ground (arith, e)

  all_failed :
      resolves c (serve c.site token (cancels_order c.id none) w).0 ≡ false
      → cancel_all token (c ∷ cs) w
        ≡ (c.id ∷ (cancel_all token cs next_world).0, (cancel_all token cs next_world).1)
  unfolding cancel_all
  all_failed e = ground (arith, e)

abbrev pub AllReported : JwtPayload → List BulkCall → List ℕ × World → Type 0
AllReported p cs r = All (Reported p r.0 r.1) cs

listed_more :
    (p : JwtPayload) (id : ℕ) (failed : List ℕ) (w : World) (c : BulkCall)
    → Reported p failed w c
    → Reported p (id ∷ failed) w c
unfolding any
listed_more p id failed w c (inl h) = inl (ground (arith, h))
listed_more p id failed w c (inr h) = inr h

listed_first : (id : ℕ) (failed : List ℕ) → any (λ x. x == id) (id ∷ failed) ≡ true
unfolding any
listed_first id failed = ground (arith, ==_refl id)

-- After a bulk cancellation with a valid token, every order of the list is reported as failed or is cancelled,
-- whatever became of the requests and the answers of the others.
pub cancel_all-AllReported :
    (p : JwtPayload) (cs : List BulkCall) (w : World) → AllReported p cs (cancel_all (some p) cs w)
cancel_all-AllReported p [] w = tt
cancel_all-AllReported p (c ∷ cs) w =
    let w' = next_world (some p) c cs w in
    let rest = cancel_all-AllReported p cs w' in
    elim (Bool-cases (resolves c (serve c.site (some p) (cancels_order c.id none) w).0)) [
      | inl e ↦
          subst (AllReported p (c ∷ cs)) (sym (all_resolved (some p) c cs w e))
            (inr (still p cs w' c.id ((served p c w).0 e)), rest)
      | inr e ↦
          let r = cancel_all (some p) cs w' in
          subst (AllReported p (c ∷ cs)) (sym (all_failed (some p) c cs w e))
            (inl (listed_first c.id r.0), All-mono _ _ (listed_more p c.id r.0 r.1) cs rest)
    ]
