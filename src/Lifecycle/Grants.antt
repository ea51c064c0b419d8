-- ===== src/Lifecycle/Grants.antt =====
-- What a request that was granted has found, and what it writes to the audit trail.
use couriers_server_node.Entities.{
  AuthUser, OrderStatus, Order, Transition, created, assigned, cancelled,
}
use couriers_server_node.Lifecycle.AdvanceEffect.{CanAdvance}
use couriers_server_node.Lifecycle.Calls.{load}
use couriers_server_node.Lifecycle.CancelEffect.{CanCancel}
use couriers_server_node.Lifecycle.Diagram.{set_status-SameOrder, set_status-status}
use couriers_server_node.Lifecycle.Effects.{CanClaim}
use couriers_server_node.Lifecycle.Keys.{Distinct, same_row}
use couriers_server_node.Lifecycle.Requests.{Request, claims, advances, cancels}
use couriers_server_node.Lifecycle.Rows.{condition, write}
use couriers_server_node.Lifecycle.Rules.{is_order, is_claimable}
use couriers_server_node.Prelude.{
  Bool-cases, Option-cases, find, count, All-mono, find_holds, find-none-count, count_none,
  count_mono, ℕ, String, ◌≡◌, refl, subst, ◌≢◌, inl, inr, true, false, Option, none, some, List,
  arith,
}
use couriers_server_node.World.{Db, Env}

-- A request that was granted: the order that it met, and what its entry says.
pub record Grant (env : Env) (user : AuthUser) (r : Request) (d : Db) (id : ℕ) (c : Transition)
    (o : Order) : Type 0 where
  pub loaded : load d id user.owner_id ≡ some o
  pub meets : condition user r o ≡ true
  pub keyed : (x : Order) → condition user r x ≡ true → is_order id user.owner_id x ≡ true
  pub keeps :
      (x : Order) → ((write env user r x).id ≡ x.id) × ((write env user r x).owner_id ≡ x.owner_id)
  pub starts : c.from ≡ o.status
  pub leads : (write env user r o).status ≡ c.to

-- The order that a granted claim meets.
claimed_one :
    (id owner : ℕ) (os : List Order)
    → Distinct os
    → count (is_claimable id owner) os ≢ 0
    → (o : Order) × (find (is_order id owner) os ≡ some o) × (is_claimable id owner o ≡ true)
claimed_one id owner os u n = elim (Option-cases (find (is_order id owner) os)) [
  | inl e ↦
      let z = find-none-count (is_order id owner) os e in
      let l = count_mono (is_claimable id owner) (is_order id owner) os (λ x q. ground arith) in
      absurd (n (omega (arith, z, l)))
  | inr (o, e) ↦ elim (Bool-cases (is_claimable id owner o)) [
    | inl c ↦ (o, e, c)
    | inr c ↦ absurd (
        n (
          count_none (is_claimable id owner) os (
            All-mono _ _ (λ x same. unclaimable id owner o x c same) os
              (same_row id owner os o u e))))
  ]
]
  where
    unclaimable :
        (id owner : ℕ) (o x : Order)
        → is_claimable id owner o ≡ false
        → (is_order id owner x ≡ true → x ≡ o)
        → is_claimable id owner x ≡ false
    unclaimable id owner o x c same = elim (Bool-cases (is_claimable id owner x)) [
      | inl q ↦ absurd (
          let e = same (ground arith) in
          let k = subst (λ y. is_claimable id owner y ≡ true) e q in cc)
      | inr q ↦ q
    ]

pub claim-Grant :
    (env : Env) (user : AuthUser) (id : ℕ) (d : Db)
    → Distinct d.orders
    → CanClaim d id user
    → (o : Order) × Grant env user
        (claims id)
        d
        id
        (record { from = created; to = assigned; reason = none })
        o
claim-Grant env user id d u can =
    let (o, e, c) = claimed_one id user.owner_id d.orders u can.available in
    (
      o,
      record {
        loaded = e;
        meets = c;
        keyed = λ x q. ground arith;
        keeps = λ x. (refl, refl);
        starts = ground arith;
        leads = refl;
      },
    )

pub advance-Grant :
    (env : Env) (user : AuthUser) (id : ℕ) (t : OrderStatus) (d : Db) (o : Order)
    → CanAdvance d id t user o
    → Grant env user (advances id t) d id (record { from = o.status; to = t; reason = none }) o
advance-Grant env user id t d o can = record {
  loaded = can.loaded;
  meets = find_holds (is_order id user.owner_id) d.orders o can.loaded;
  keyed = λ x q. q;
  keeps = λ x. let s = set_status-SameOrder env t x in (s.same_id, s.same_owner);
  starts = refl;
  leads = set_status-status env t o;
}

pub cancel-Grant :
    (env : Env) (user : AuthUser) (id : ℕ) (reason : Option String) (d : Db) (o : Order)
    → CanCancel d id user o
    → Grant env user
        (cancels id reason)
        d
        id
        (record { from = o.status; to = cancelled; reason = reason })
        o
cancel-Grant env user id reason d o can = record {
  loaded = can.loaded;
  meets =
      let k = find_holds (is_order id user.owner_id) d.orders o can.loaded in
      ground (arith, can.edge);
  keyed = λ x q. ground arith;
  keeps = λ x. (refl, refl);
  starts = refl;
  leads = refl;
}
