-- ===== src/Couriers/Keys.antt =====
-- src/couriers/couriers-admin.service.ts: the table of couriers under `update`.
use couriers_server_node.Couriers.Admin.{
  find_one_courier, UpdateCourier, assigned_courier, unchanged, stored, same_login, is_in_way,
  save_courier, update_courier,
}
use couriers_server_node.Entities.{Courier}
use couriers_server_node.Prelude.{
  ◌==◌, Bool-cases, Option-cases, count-update_same, find, count, update, any, All, All-of,
  All-mono, count-update-le, any_none, count-update-only, ℕ, ◌≤◌, String, ◌≡◌, refl, sym, ◌∙◌, ◌⊎◌,
  inl, inr, Bool, true, false, ◌&&◌, Option, none, some, List, arith, str_eq, str_eq_iff,
}
use couriers_server_node.Shifts.Service.{is_courier}
use couriers_server_node.World.{World, Env}

abbrev pub has_phone : ℕ → String → Courier → Bool
has_phone owner phone c = c.owner_id == owner && str_eq c.phone phone

abbrev pub has_login : ℕ → String → Courier → Bool
has_login owner login c = c.owner_id == owner && same_login c.login (some login)

-- The unique indexes on the table of couriers, and its key.
pub record IsIndexed (cs : List Courier) : Type 0 where
  pub one_phone : (owner : ℕ) (phone : String) → count (has_phone owner phone) cs ≤ 1
  pub one_login : (owner : ℕ) (login : String) → count (has_login owner login) cs ≤ 1
  pub one_key : (id : ℕ) → count (λ c. c.id == id) cs ≤ 1

-- What `update` does to the world: nothing, or one row is written.
update_courier-cases :
    (env : Env) (tenant id : ℕ) (dto : UpdateCourier) (w : World)
    → ((update_courier env tenant id dto w).1 ≡ w)
      ⊎ ((c : Courier) × (find (is_courier id tenant) w.db.couriers ≡ some c)
          × (any (is_in_way (assigned_courier dto c)) w.db.couriers ≡ false)
          × ((update_courier env tenant id dto w).1.db.couriers
              ≡ update (λ x. x.id == c.id) (stored env (assigned_courier dto c)) w.db.couriers))
unfolding update_courier save_courier find_one_courier
update_courier-cases env tenant id dto w =
    elim (Option-cases (find (is_courier id tenant) w.db.couriers)) [
      | inl e ↦ inl (rw e refl)
      | inr (c, e) ↦ elim (Bool-cases (any (is_in_way (assigned_courier dto c)) w.db.couriers)) [
        | inl f ↦ inl (ground arith)
        | inr f ↦ inr (c, e, f, ground arith)
      ]
    ]

joined : (a b c : String) → str_eq a c ≡ true → str_eq b c ≡ true → str_eq a b ≡ true
joined a b c p q =
    let e : a ≡ c = (str_eq_iff a c).0 p in
    let f : b ≡ c = (str_eq_iff b c).0 q in (str_eq_iff a b).1 (e ∙ sym f)

same_phone :
    (owner : ℕ) (phone : String) (new x : Courier)
    → has_phone owner phone new ≡ true
    → is_in_way new x ≡ false
    → (x.id == new.id) ≡ false
    → has_phone owner phone x ≡ false
same_phone owner phone new x n w k = elim (Bool-cases (has_phone owner phone x)) [
  | inl q ↦
      let j : str_eq x.phone new.phone ≡ true =
        joined x.phone new.phone phone (ground arith) (ground arith) in
      absurd (ground arith)
  | inr q ↦ q
]

same_login_apart :
    (owner : ℕ) (login : String) (new x : Courier)
    → has_login owner login new ≡ true
    → is_in_way new x ≡ false
    → (x.id == new.id) ≡ false
    → has_login owner login x ≡ false
same_login_apart owner login new x n w k = elim (Bool-cases (has_login owner login x)) [
  | inl q ↦
      let j : same_login x.login new.login ≡ true =
        shared x.login new.login login (ground arith) (ground arith) in
      absurd (ground arith)
  | inr q ↦ q
]
  where
    shared :
        (a b : Option String) (c : String)
        → same_login a (some c) ≡ true
        → same_login b (some c) ≡ true
        → same_login a b ≡ true
    shared none b c p q = p
    shared (some a) none c p q = q
    shared (some a) (some b) c p q = joined a b c p q

-- A row written under an index that no other row shares with it.
count-written :
    (env : Env) (q : Courier → Bool) (new : Courier) (cs : List Courier)
    → ((x : Courier)
        → is_in_way new x ≡ false
        → (x.id == new.id) ≡ false
        → q new ≡ true
        → q x ≡ false)
    → ((t : ℕ) → q (record new { updated_at = t }) ≡ q new)
    → any (is_in_way new) cs ≡ false
    → count (λ x. x.id == new.id) cs ≤ 1
    → count q cs ≤ 1
    → count q (update (λ x. x.id == new.id) (stored env new) cs) ≤ 1
count-written env q new cs apart stamp free one h =
    let p : Courier → Bool = λ x. x.id == new.id in
    elim (Bool-cases (q new)) [
      | inl n ↦
          let others : All (λ x. (x.id == new.id) ≡ false → q x ≡ false) cs =
            All-mono _ _ (λ x w k. apart x w k n) cs (any_none (is_in_way new) cs free) in
          omega (arith, one, count-update-only q p (stored env new) cs others)
      | inr n ↦
          let kept = All-of _ (kept_out env q new stamp n) cs in
          omega (arith, h, count-update-le q p (stored env new) cs kept)
    ]
  where
    kept_out :
        (env : Env) (q : Courier → Bool) (new : Courier)
        → ((t : ℕ) → q (record new { updated_at = t }) ≡ q new)
        → q new ≡ false
        → (x : Courier) → (x.id == new.id) ≡ true
        → q (stored env new x) ≡ true
        → q x ≡ true
    kept_out env q new stamp n x k = elim (Bool-cases (unchanged new x)) [
      | inl u ↦ rw u (λ e. e)
      | inr u ↦ rw (u, stamp env.db_now, n) (λ e. absurd (cc))
    ]

-- `update` keeps, whatever its answer, the key of couriers and the two unique indexes on them: in one tenant no two
-- couriers share a phone or a login.
pub update_courier-IsIndexed :
    (env : Env) (tenant id : ℕ) (dto : UpdateCourier) (w : World)
    → IsIndexed w.db.couriers
    → IsIndexed (update_courier env tenant id dto w).1.db.couriers
update_courier-IsIndexed env tenant id dto w h = elim (update_courier-cases env tenant id dto w) [
  | inl e ↦ rw e h
  | inr (c, f, free, e) ↦ rw e (indexed env (assigned_courier dto c) w.db.couriers free h)
]
  where
    indexed :
        (env : Env) (new : Courier) (cs : List Courier)
        → any (is_in_way new) cs ≡ false
        → IsIndexed cs
        → IsIndexed (update (λ x. x.id == new.id) (stored env new) cs)
    indexed env new cs free h = record {
      one_phone = λ owner phone.
          count-written env (has_phone owner phone) new cs
            (λ x w k n. same_phone owner phone new x n w k) (λ t. refl) free (h.one_key new.id)
            (h.one_phone owner phone);
      one_login = λ owner login.
          count-written env (has_login owner login) new cs
            (λ x w k n. same_login_apart owner login new x n w k) (λ t. refl) free
            (h.one_key new.id) (h.one_login owner login);
      one_key = λ i.
          rw
            (count-update_same (λ c. c.id == i) (λ x. x.id == new.id) (stored env new) cs
              (λ x k. ground arith))
            (h.one_key i);
    }

-- No other table is written.
pub update_courier-db :
    (env : Env) (tenant id : ℕ) (dto : UpdateCourier) (w : World)
    → let d' = (update_courier env tenant id dto w).1.db in
      d' ≡ record (w.db) { couriers = d'.couriers }
unfolding update_courier save_courier find_one_courier
update_courier-db env tenant id dto w = ground arith
