-- ===== src/Shifts/Agreement.antt =====
-- src/couriers/shift-management.service.ts: the open shifts of a courier and the courier's status.
use couriers_server_node.Entities.{
  AuthUser, CourierStatus, Courier, CourierShift, available, unavailable,
}
use couriers_server_node.Lifecycle.Rules.{is_open_shift}
use couriers_server_node.Prelude.{
  ◌==◌, ==_iff, is_none, Bool-cases, count, update, any, All, All-update, All-of, All-mono,
  All-concat, any-count, count-update-le, count_concat, All-update_to, any_concat, any-update_same,
  none_any, ℕ, ◌≤◌, ◌≡◌, refl, sym, subst, inl, inr, Bool, true, false, List, ◌∷◌, ◌++◌, arith, [],
}
use couriers_server_node.Shifts.Effects.{opened_db, closed_db}
use couriers_server_node.Shifts.Invariant.{
  ShiftRequest, handle_shift, handle-ShiftEffect, opens, closes,
}
use couriers_server_node.Shifts.Service.{
  is_opened, is_open_of, new_shift, close_row, is_courier, set_courier_status,
}
use couriers_server_node.World.{Db, World, Env}

abbrev pub is_available : CourierStatus → Bool
is_available available = true
is_available unavailable = false

abbrev pub Agrees : List CourierShift → Courier → Type 0
Agrees shifts c = is_available c.status ≡ any (is_open_of c.id) shifts

pub record Consistent (d : Db) : Type 0 where
  pub one_open : (courier : ℕ) → count (is_open_of courier) d.shifts ≤ 1
  pub ended : All (λ s. is_opened s.status ≡ is_none s.ended_at) d.shifts
  pub agree : All (Agrees d.shifts) d.couriers

-- The rows that carry the user's id are of the user's tenant.
pub record IsMember (user : AuthUser) (d : Db) : Type 0 where
  pub as_courier : All (λ c. c.id ≡ user.user_id → c.owner_id ≡ user.owner_id) d.couriers
  pub on_shifts : All (λ s. s.courier_id ≡ user.user_id → s.owner_id ≡ user.owner_id) d.shifts

pub opened-one :
    (env : Env) (user : AuthUser) (d : Db) (k : ℕ)
    → any (is_open_of user.user_id) d.shifts ≡ false
    → count (is_open_of k) d.shifts ≤ 1
    → count (is_open_of k) (d.shifts ++ new_shift env user ∷ []) ≤ 1
opened-one env user d k free h = elim (Bool-cases (user.user_id == k)) [
  | inl e ↦
      rw (count_concat (is_open_of k) d.shifts (new_shift env user), e)
        (ground
          (arith, any-count (is_open_of user.user_id) d.shifts free, (==_iff user.user_id k).0 e))
  | inr n ↦ rw (count_concat (is_open_of k) d.shifts (new_shift env user), n) h
]

opened-Agrees :
    (env : Env) (user : AuthUser) (shifts : List CourierShift) (c : Courier)
    → (c.id ≡ user.user_id → c.owner_id ≡ user.owner_id)
    → Agrees shifts c
    → (is_courier user.user_id user.owner_id c ≡ true
        → Agrees (shifts ++ new_shift env user ∷ []) (set_courier_status env available c))
      × (is_courier user.user_id user.owner_id c ≡ false
          → Agrees (shifts ++ new_shift env user ∷ []) c)
opened-Agrees env user shifts c member h = (
  λ p. rw (any_concat (is_open_of c.id) shifts (new_shift env user)) (ground arith),
  λ n. rw (any_concat (is_open_of c.id) shifts (new_shift env user)) (ground (arith, member)),
)

-- A shift of the user's that is open is closed by the update.
closed_self :
    (env : Env) (user : AuthUser) (shifts : List CourierShift)
    → All (λ s. s.courier_id ≡ user.user_id → s.owner_id ≡ user.owner_id) shifts
    → any (is_open_of user.user_id) (update (is_open_shift user) (close_row env) shifts) ≡ false
closed_self env user shifts h =
    none_any (is_open_of user.user_id) _
      (All-update_to _ _ (is_open_shift user) (close_row env) shifts (All-of _ row shifts) h)
  where
    row :
        (s : CourierShift)
        → (s.courier_id ≡ user.user_id → s.owner_id ≡ user.owner_id)
        → (is_open_shift user s ≡ true → is_open_of user.user_id (close_row env s) ≡ false)
          × (is_open_shift user s ≡ false → is_open_of user.user_id s ≡ false)
    row s member = (λ p. ground arith, λ n. ground (arith, member))

closed_other :
    (env : Env) (user : AuthUser) (shifts : List CourierShift) (k : ℕ)
    → (user.user_id == k) ≡ false
    → any (is_open_of k) (update (is_open_shift user) (close_row env) shifts)
      ≡ any (is_open_of k) shifts
closed_other env user shifts k n = any-update_same _ _ (close_row env) shifts (λ s p. ground arith)

closed-Agrees :
    (env : Env) (user : AuthUser) (shifts : List CourierShift) (c : Courier)
    → All (λ s. s.courier_id ≡ user.user_id → s.owner_id ≡ user.owner_id) shifts
    → (c.id ≡ user.user_id → c.owner_id ≡ user.owner_id)
    → Agrees shifts c
    → let shifts' = update (is_open_shift user) (close_row env) shifts in
      (is_courier user.user_id user.owner_id c ≡ true
        → Agrees shifts' (set_courier_status env unavailable c))
      × (is_courier user.user_id user.owner_id c ≡ false → Agrees shifts' c)
closed-Agrees env user shifts c tenant member h = (
  λ p.
      let e : c.id ≡ user.user_id = ground arith in rw (e, closed_self env user shifts tenant) refl,
  λ n. rw (closed_other env user shifts c.id (ground (arith, member))) h,
)

opened-Consistent :
    (env : Env) (user : AuthUser) (d : Db)
    → IsMember user d
    → any (is_open_of user.user_id) d.shifts ≡ false
    → Consistent d
    → Consistent (opened_db env user d)
opened-Consistent env user d m free v = record {
  one_open = λ k. opened-one env user d k free (v.one_open k);
  ended = All-concat _ d.shifts v.ended refl;
  agree =
      All-update_to _ _ (is_courier user.user_id user.owner_id) (set_courier_status env available)
        d.couriers
        (All-mono _ _ (λ c member h. opened-Agrees env user d.shifts c member h) d.couriers
          m.as_courier)
        v.agree;
}

closed-Consistent :
    (env : Env) (user : AuthUser) (d : Db)
    → IsMember user d
    → Consistent d
    → Consistent (closed_db env user d)
closed-Consistent env user d m v = record {
  one_open = λ k. omega (
    arith,
    v.one_open k,
    count-update-le (is_open_of k) (is_open_shift user) (close_row env) d.shifts
        (All-of _ (λ s p q. absurd (ground arith)) d.shifts),
  );
  ended =
      All-update _ (is_open_shift user) (close_row env) d.shifts (All-of _ (λ s p h. refl) d.shifts)
        v.ended;
  agree =
      All-update_to _ _ (is_courier user.user_id user.owner_id) (set_courier_status env unavailable)
        d.couriers
        (All-mono _ _ (λ c member h. closed-Agrees env user d.shifts c m.on_shifts member h)
          d.couriers m.as_courier)
        v.agree;
}

-- Opening or closing a shift, granted or refused, keeps these: no courier has two open shifts; a
-- shift has an end exactly when it is closed; a courier is available exactly when there is an open
-- shift. The rows under the user's id are taken to be of the user's tenant.
pub handle_shift-Consistent :
    (env : Env) (user : AuthUser) (r : ShiftRequest) (w : World)
    → IsMember user w.db
    → Consistent w.db
    → Consistent (handle_shift env user r w).db
handle_shift-Consistent env user opens w m v = elim (handle-ShiftEffect env user opens w) [
  | inl e ↦ subst Consistent (sym e) v
  | inr (free, e) ↦ subst Consistent (sym e) (opened-Consistent env user w.db m free v)
]
handle_shift-Consistent env user closes w m v = elim (handle-ShiftEffect env user closes w) [
  | inl e ↦ subst Consistent (sym e) v
  | inr (n, e) ↦ subst Consistent (sym e) (closed-Consistent env user w.db m v)
]
