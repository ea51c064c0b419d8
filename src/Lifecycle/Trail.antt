-- ===== src/Lifecycle/Trail.antt =====
-- The audit trail (src/orders/entities/order-audit-entry.entity.ts) and the statuses of the orders.
use couriers_server_node.Entities.{
  AuthUser, OrderStatus, Order, Transition, OrderAuditEntry, created,
}
use couriers_server_node.Lifecycle.AdvanceEffect.{advanced_rows}
use couriers_server_node.Lifecycle.Calls.{audit_entry}
use couriers_server_node.Lifecycle.Effects.{audited, load_key, claimed_orders, audited_only}
use couriers_server_node.Lifecycle.Grants.{Grant, claim-Grant, advance-Grant, cancel-Grant}
use couriers_server_node.Lifecycle.Keys.{Distinct, same_key}
use couriers_server_node.Lifecycle.Requests.{
  Request, Call, run, Effect, run_induction, claims, advances, cancels,
}
use couriers_server_node.Lifecycle.Rows.{condition, write, written, Effect-Distinct}
use couriers_server_node.Lifecycle.Rules.{is_order, is_cancellable, set_cancelled}
use couriers_server_node.Prelude.{
  ◌==◌, if◌then◌else◌, All-update_to, find, update, All, All-mono, find-update, ℕ, ◌≡◌, refl, sym,
  subst, ◌∙◌, ◌≢◌, inl, inr, true, false, none, some, List, ◌∷◌, ◌++◌, arith, [],
}
use couriers_server_node.World.{Db, World, Env}

-- The status of an order after an entry, given the one before.
abbrev pub told_by : ℕ → OrderStatus → OrderAuditEntry → OrderStatus
told_by id s e = elim (e.order_id == id) [
  | true ↦ elim e.metadata [ none ↦ s | some c ↦ c.to ]
  | false ↦ s
]

-- The status that a trail leads to.
unfoldable pub replay : ℕ → OrderStatus → List OrderAuditEntry → OrderStatus
replay id s [] = s
replay id s (e ∷ es) = replay id (told_by id s e) es

-- An entry begins where the trail before it ended.
abbrev pub Follows : ℕ → OrderStatus → OrderAuditEntry → Type 0
Follows id s e = (c : Transition) → e.order_id ≡ id → e.metadata ≡ some c → c.from ≡ s

abbrev pub Chained : ℕ → OrderStatus → List OrderAuditEntry → Type 0
Chained id s [] = Unit
Chained id s (e ∷ es) = Follows id s e × Chained id (told_by id s e) es

pub record IsTold (es : List OrderAuditEntry) (o : Order) : Type 0 where
  pub chained : Chained o.id created es
  pub ends : replay o.id created es ≡ o.status

pub replay-concat :
    (id : ℕ) (s : OrderStatus) (es : List OrderAuditEntry) (e : OrderAuditEntry)
    → replay id s (es ++ e ∷ []) ≡ told_by id (replay id s es) e
unfolding replay
replay-concat id s [] e = refl
replay-concat id s (x ∷ es) e = replay-concat id (told_by id s x) es e

pub Chained-concat :
    (id : ℕ) (s : OrderStatus) (es : List OrderAuditEntry) (e : OrderAuditEntry)
    → Chained id s es
    → Follows id (replay id s es) e
    → Chained id s (es ++ e ∷ [])
unfolding replay
Chained-concat id s [] e h f = (f, tt)
Chained-concat id s (x ∷ es) e h f = (h.0, Chained-concat id (told_by id s x) es e h.1 f)

other_entry :
    (env : Env) (user : AuthUser) (id : ℕ) (c : Transition) (es : List OrderAuditEntry) (x : Order)
    → id ≢ x.id
    → IsTold es x
    → IsTold (es ++ audit_entry env id user c ∷ []) x
unfolding audit_entry
other_entry env user id c es x n h =
    let e = audit_entry env id user c in
    record {
      chained = Chained-concat x.id created es e h.chained (λ c' q _. absurd (n q));
      ends = rw (replay-concat x.id created es e) (ground (arith, h.ends));
    }

own_entry :
    (env : Env) (user : AuthUser) (r : Request) (d : Db) (id : ℕ) (c : Transition) (o : Order)
    → Grant env user r d id c o
    → IsTold d.audit_entries o
    → IsTold (d.audit_entries ++ audit_entry env id user c ∷ []) (write env user r o)
unfolding audit_entry
own_entry env user r d id c o g h =
    let e = audit_entry env id user c in
    let es = d.audit_entries in
    let k : o.id ≡ id = (load_key d id user.owner_id o g.loaded).0 in
    let same = (g.keeps o).0 in
    record {
      chained =
          subst (λ i. Chained i created (es ++ e ∷ [])) (sym same)
            (Chained-concat o.id created es e h.chained
              (λ c' q m. ground (arith, g.starts, h.ends)));
      ends =
          subst (λ i. replay i created (es ++ e ∷ []) ≡ (write env user r o).status) (sym same)
            (replay-concat o.id created es e ∙ ground (arith, k, g.leads));
    }

granted_row :
    (env : Env) (user : AuthUser) (r : Request) (d : Db) (id : ℕ) (c : Transition) (o x : Order)
    → Grant env user r d id c o
    → (x.id ≡ id → x ≡ o)
    → IsTold d.audit_entries x
    → (condition user r x ≡ true
        → IsTold (d.audit_entries ++ audit_entry env id user c ∷ []) (write env user r x))
      × (condition user r x ≡ false → IsTold (d.audit_entries ++ audit_entry env id user c ∷ []) x)
granted_row env user r d id c o x g same h = (
  λ met.
      let e = same (ground (arith, g.keyed x met)) in
      subst (λ y. IsTold (d.audit_entries ++ audit_entry env id user c ∷ []) (write env user r y))
        (sym e) (own_entry env user r d id c o g (subst (IsTold d.audit_entries) e h)),
  λ unmet.
      other_entry env user id c d.audit_entries x
        (λ q. absurd (
          let e = same (sym q) in
          let m = subst (λ y. condition user r y ≡ false) e unmet in let g' = g.meets in cc))
        h,
)

granted-IsTold :
    (env : Env) (user : AuthUser) (r : Request) (d : Db) (id : ℕ) (c : Transition) (o : Order)
    → Grant env user r d id c o
    → Distinct d.orders
    → All (IsTold d.audit_entries) d.orders
    → All (IsTold (d.audit_entries ++ audit_entry env id user c ∷ [])) (written env user r d.orders)
granted-IsTold env user r d id c o g u h =
    All-update_to _ _ (condition user r) (write env user r) d.orders
      (All-mono _ _ (λ x same. granted_row env user r d id c o x g same) d.orders
        (same_key id user.owner_id d.orders o u g.loaded))
      h

-- The order can be read again after the write, so the entry is added.
audited-entries :
    (env : Env) (user : AuthUser) (r : Request) (d d' : Db) (id : ℕ) (c : Transition) (o : Order)
    → Grant env user r d id c o
    → d'.orders ≡ written env user r d.orders
    → d'.audit_entries ≡ d.audit_entries
    → (audited env id user c d').audit_entries ≡ d.audit_entries ++ audit_entry env id user c ∷ []
audited-entries env user r d d' id c o g e f =
    let q = is_order id user.owner_id in
    let h : (x : Order) → q (write env user r x) ≡ q x =
      λ x. let k = g.keeps x in rw (k.0, k.1) refl in
    let s = find-update q (condition user r) (write env user r) d.orders h in
    let l : find q d'.orders ≡ some (if condition user r o then write env user r o else o) =
      rw (e, s, g.loaded) refl in
    ground (arith, l, f)

abbrev pub AllTold : Db → Type 0
AllTold d = Distinct d.orders × All (IsTold d.audit_entries) d.orders

-- A granted request, from its effect: the tables after it.
granted-AllTold :
    (env : Env) (user : AuthUser) (r : Request) (d between d' : Db) (id : ℕ) (c : Transition)
    (o : Order)
    → Grant env user r d id c o
    → between.orders ≡ written env user r d.orders
    → between.audit_entries ≡ d.audit_entries
    → d' ≡ audited env id user c between
    → AllTold d
    → All (IsTold d'.audit_entries) d'.orders
granted-AllTold env user r d between d' id c o g e f p (u, h) =
    subst (λ x. All (IsTold x.audit_entries) x.orders) (sym p)
      (rw
        (
          audited-entries env user r d between id c o g e f,
          (audited_only env id user c between).orders,
          e,
        )
        (granted-IsTold env user r d id c o g u h))

IsTold-after :
    (env : Env) (user : AuthUser) (r : Request) (d d' : Db)
    → Effect env user r d d'
    → AllTold d
    → All (IsTold d'.audit_entries) d'.orders
IsTold-after env user (claims id) d d' (inl e) t =
    subst (λ x. All (IsTold x.audit_entries) x.orders) (sym e) t.1
IsTold-after env user (claims id) d d' (inr (can, e)) t =
    let (o, g) = claim-Grant env user id d t.0 can in
    granted-AllTold env user (claims id) d (claimed_orders env id user d) d' id _ o g refl refl e t
IsTold-after env user (advances id x) d d' (inl e) t =
    subst (λ x. All (IsTold x.audit_entries) x.orders) (sym e) t.1
IsTold-after env user (advances id x) d d' (inr (o, can, free, e)) t =
    granted-AllTold env user (advances id x) d (advanced_rows env id x user o d) d' id _ o
      (advance-Grant env user id x d o can) (ground arith) (ground arith) e t
IsTold-after env user (cancels id reason) d d' (inl e) t =
    subst (λ x. All (IsTold x.audit_entries) x.orders) (sym e) t.1
IsTold-after env user (cancels id reason) d d' (inr (o, can, e)) t =
    granted-AllTold env user (cancels id reason) d
      (record d { orders = update (is_cancellable id user.owner_id) (set_cancelled env) d.orders })
      d' id _ o (cancel-Grant env user id reason d o can) refl refl e t

pub Effect-AllTold :
    (env : Env) (user : AuthUser) (r : Request) (d d' : Db)
    → Effect env user r d d'
    → AllTold d
    → AllTold d'
Effect-AllTold env user r d d' h p =
    (Effect-Distinct env user r d d' h p.0, IsTold-after env user r d d' h p)

-- After any sequence of requests, granted or refused, the audit entries of every order, in their
-- order, start from `created`, each from the status to which the one before led, and the last leads
-- to the order's status, if that was so before.
pub run-AllTold : (calls : List Call) (w : World) → AllTold w.db → AllTold (run calls w).db
run-AllTold calls w t = run_induction AllTold Effect-AllTold calls w t
