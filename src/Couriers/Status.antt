-- ===== src/Couriers/Status.antt =====
-- src/couriers/couriers-admin.service.ts: the status of a courier after `update`.
use couriers_server_node.Couriers.Admin.{
  CourierDetail, UpdateCourier, assigned_courier, unchanged, stored, same_courier_status, is_in_way,
  find_one_courier, save_courier, update_courier,
}
use couriers_server_node.Entities.{CourierStatus, Courier, available, unavailable}
use couriers_server_node.Http.{ok}
use couriers_server_node.Prelude.{
  ◌==◌, or_else, Bool-cases, Option-cases, find, find_holds, update, any, All, All-of, All-find,
  All-update_to, ℕ, ◌≡◌, refl, sym, ap, ◌∙◌, inl, inr, true, some, List, arith,
}
use couriers_server_node.Shifts.Service.{is_courier}
use couriers_server_node.World.{World, Env}

pub same_status_eq : (a b : CourierStatus) → same_courier_status a b ≡ true → a ≡ b
same_status_eq available available e = refl
same_status_eq available unavailable e = absurd (ground arith)
same_status_eq unavailable available e = absurd (ground arith)
same_status_eq unavailable unavailable e = refl

stored-status : (env : Env) (new old : Courier) → (stored env new old).status ≡ new.status
stored-status env new old = elim (Bool-cases (unchanged new old)) [
  | inl e ↦ rw e (sym (same_status_eq new.status old.status (ground arith)))
  | inr n ↦ rw n refl
]

written-status :
    (env : Env) (new : Courier) (cs : List Courier)
    → All
        (λ x. (x.id == new.id) ≡ true → x.status ≡ new.status)
        (update (λ x. x.id == new.id) (stored env new) cs)
written-status env new cs =
    All-update_to (λ x. Unit) _ (λ x. x.id == new.id) (stored env new) cs
      (All-of _ (λ x t. (λ p k. stored-status env new x, λ n k. absurd (cc))) cs)
      (All-of _ (λ x. tt) cs)

-- An update that is answered without an error: the row that it reads first, what it writes, and the
-- row that it reads again.
update_courier_ok :
    (env : Env) (tenant id : ℕ) (dto : UpdateCourier) (w : World) (answer : CourierDetail)
    → (update_courier env tenant id dto w).0 ≡ ok answer
    → let written = (update_courier env tenant id dto w).1.db.couriers in
      (old new : Courier) × (find (is_courier id tenant) w.db.couriers ≡ some old)
      × (written
          ≡ update (λ x. x.id == old.id) (stored env (assigned_courier dto old)) w.db.couriers)
      × (find (is_courier id tenant) written ≡ some new)
unfolding update_courier save_courier find_one_courier
update_courier_ok env tenant id dto w answer r =
    elim (Option-cases (find (is_courier id tenant) w.db.couriers)) [
      | inl e ↦ absurd (ground arith)
      | inr (c, e) ↦ elim (Bool-cases (any (is_in_way (assigned_courier dto c)) w.db.couriers)) [
        | inr f ↦
            let after : List Courier =
              update (λ x. x.id == c.id) (stored env (assigned_courier dto c)) w.db.couriers in
            elim (Option-cases (find (is_courier id tenant) after)) [
              | inl g ↦ absurd (ground arith)
              | inr (new, g) ↦ (c, new, e, ground arith, ground arith)
            ]
        | inl f ↦ absurd (ground arith)
      ]
    ]

-- An update that is answered without an error and carries a status has written it.
pub update_courier-status :
    (env : Env) (tenant id : ℕ) (dto : UpdateCourier) (w : World) (status : CourierStatus)
    (answer : CourierDetail)
    → dto.status ≡ some status
    → (update_courier env tenant id dto w).0 ≡ ok answer
    → (c : Courier) × (find
          (is_courier id tenant)
          (update_courier env tenant id dto w).1.db.couriers
        ≡ some c)
      × (c.status ≡ status)
update_courier-status env tenant id dto w status answer e r =
    let (old, new, f, p, g) = update_courier_ok env tenant id dto w answer r in
    let written : List Courier = (update_courier env tenant id dto w).1.db.couriers in
    let all : All (λ x. (x.id == old.id) ≡ true → x.status ≡ (assigned_courier dto old).status)
        written =
      rw p (written-status env (assigned_courier dto old) w.db.couriers) in
    let asked : is_courier id tenant old ≡ true = find_holds (is_courier id tenant) _ old f in
    let again : is_courier id tenant new ≡ true = find_holds (is_courier id tenant) _ new g in
    let same : (new.id == old.id) ≡ true = ground arith in
    let assigned : (assigned_courier dto old).status ≡ status = ap (λ s. or_else s old.status) e in
    (new, g, All-find _ (is_courier id tenant) written new all g same ∙ assigned)
