-- ===== src/Shifts/Invariant.antt =====
-- src/couriers/shift-management.service.ts: the requests on shifts and their effects.
use couriers_server_node.Entities.{AuthUser}
use couriers_server_node.Http.{Result}
use couriers_server_node.Lifecycle.Rules.{is_open_shift}
use couriers_server_node.Prelude.{
  or_else, Bool-cases, Option-cases, count, update, any, descending, sort-first, filter-empty-count,
  count-update_some, ◌≡◌, ap, ◌≢◌, ◌⊎◌, inl, inr, false, none, arith, ℕ_discrete,
}
use couriers_server_node.Shifts.Effects.{
  opened_db, closed_db, open_shift_refused, open_shift_granted, close_shift_refused,
  close_shift_granted,
}
use couriers_server_node.Shifts.Service.{
  ShiftResponse, is_open_of, close_row, open_shift, is_closed_shift, latest_closed, close_shift,
}
use couriers_server_node.World.{Db, World, Env}

pub data ShiftRequest : Type 0 where
  opens closes : ShiftRequest

unfoldable pub handle_shift : Env → AuthUser → ShiftRequest → World → World
handle_shift env user opens w = (open_shift env user w).1
handle_shift env user closes w = (close_shift env user w).1

-- The shift that was closed is found again: the second test for one never fails.
closed_found :
    (env : Env) (user : AuthUser) (d : Db)
    → count (is_open_shift user) d.shifts ≢ 0
    → latest_closed user
        (record d { shifts = update (is_open_shift user) (close_row env) d.shifts })
      ≢ none
closed_found env user d n e =
    count-update_some (is_closed_shift user) (is_open_shift user) (close_row env) d.shifts
      (λ s h. ground arith) n
      (filter-empty-count (is_closed_shift user) _
        (sort-first (descending (λ s. or_else s.ended_at 0)) _ e))

abbrev pub ShiftEffect : Env → AuthUser → ShiftRequest → Db → Db → Type 0
ShiftEffect env user opens d d' =
    (d' ≡ d) ⊎ ((any (is_open_of user.user_id) d.shifts ≡ false) × (d' ≡ opened_db env user d))
ShiftEffect env user closes d d' =
    (d' ≡ d) ⊎ ((count (is_open_shift user) d.shifts ≢ 0) × (d' ≡ closed_db env user d))

pub handle-ShiftEffect :
    (env : Env) (user : AuthUser) (r : ShiftRequest) (w : World)
    → ShiftEffect env user r w.db (handle_shift env user r w).db
unfolding handle_shift
handle-ShiftEffect env user opens w =
    elim (Bool-cases (any (is_open_of user.user_id) w.db.shifts)) [
      | inl e ↦
          inl (ap (λ (x : Result ShiftResponse × World). x.1.db) (open_shift_refused env user w e))
      | inr e ↦ inr (e, (open_shift_granted env user w e).1)
    ]
handle-ShiftEffect env user closes w =
    elim (ℕ_discrete (count (is_open_shift user) w.db.shifts) 0) [
      | yes e ↦ inl (close_shift_refused env user w e).1
      | no n ↦
          elim (Option-cases (
            latest_closed user (record (w.db) {
              shifts = update (is_open_shift user) (close_row env) w.db.shifts;
            }))) [
              | inl e ↦ absurd (closed_found env user w.db n e)
              | inr (s, e) ↦ inr (n, (close_shift_granted env user w s n e).1)
            ]
    ]
