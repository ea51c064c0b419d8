-- ===== src/Shifts/Service.antt =====
-- src/couriers/shift-management.service.ts: `openShift` and `closeShift`, each one transaction.
use couriers_server_node.Entities.{
  AuthUser, CourierStatus, Courier, OpenStatus, CourierShift, opened, closed, available,
  unavailable,
}
use couriers_server_node.Gateway.{emit_shift_opened, emit_shift_closed}
use couriers_server_node.Http.{Message, HttpError, ok}
use couriers_server_node.Lifecycle.Rules.{is_open_shift}
use couriers_server_node.Prelude.{
  leb, ◌==◌, if◌then◌else◌, is_some, or_else, head_or_none, filter, count, update, any, sort,
  descending, ℕ, ◌+◌, ◌-◌, ◌*◌, ◌/◌, Bool, true, false, not, ◌&&◌, Option, none, some, ◌∷◌, ◌++◌,
  [],
}
use couriers_server_node.Prelude.Int.{ℤ}
use couriers_server_node.World.{
  Db, Env, Exec, pure, gets, or_raise, raise_if, modify, insert_unique, transaction, catch_unique,
  ◌>>=◌, ◌>>◌,
}

-- `Math.round((endedAt - startedAt) / 60000)`, which rounds a half up.
unfoldable pub round_minutes : ℕ → ℕ → ℤ
round_minutes started ended =
    if leb started ended
    then ℤ.pos ((2 * (ended - started) + 60000) / 120000)
    else let late = (2 * (started - ended) + 59999) / 120000 in
      if late == 0 then ℤ.pos 0 else ℤ.negsuc (late - 1)

unfoldable pub compute_duration : ℕ → Option ℕ → Option ℤ
compute_duration started none = none
compute_duration started (some ended) = some (round_minutes started ended)

pub record ShiftResponse : Type 0 where
  pub id : ℕ
  pub courier_id : ℕ
  pub status : OpenStatus
  pub started_at : ℕ
  pub ended_at : Option ℕ
  pub duration_minutes : Option ℤ
  pub order_count : Option ℕ

unfoldable pub shift_to_dto : CourierShift → Option ℕ → ShiftResponse
shift_to_dto shift order_count = record {
  id = shift.id;
  courier_id = shift.courier_id;
  status = shift.status;
  started_at = shift.started_at;
  ended_at = shift.ended_at;
  duration_minutes = compute_duration shift.started_at shift.ended_at;
  order_count = order_count;
}

abbrev pub is_opened : OpenStatus → Bool
is_opened opened = true
is_opened closed = false

-- The index `idx_courier_shifts_one_open` of migration 018.
abbrev pub is_open_of : ℕ → CourierShift → Bool
is_open_of courier s = s.courier_id == courier && is_opened s.status

abbrev pub new_shift : Env → AuthUser → CourierShift
new_shift env user = record {
  id = env.uuid 0;
  owner_id = user.owner_id;
  courier_id = user.user_id;
  status = opened;
  started_at = env.db_now;
  ended_at = none;
  created_at = env.db_now;
  updated_at = env.db_now;
}

abbrev pub close_row : Env → CourierShift → CourierShift
close_row env s = record s { status = closed; ended_at = some env.db_now; updated_at = env.db_now }

abbrev pub is_courier : ℕ → ℕ → Courier → Bool
is_courier id owner c = c.id == id && c.owner_id == owner

abbrev pub set_courier_status : Env → CourierStatus → Courier → Courier
set_courier_status env status c = record c { status = status; updated_at = env.db_now }

abbrev pub update_courier_status : Env → AuthUser → CourierStatus → Exec (Unit {0})
update_courier_status env user status = modify λ d. record d {
  couriers =
      update (is_courier user.user_id user.owner_id) (set_courier_status env status) d.couriers;
}

unfoldable pub insert_shift : Env → AuthUser → Exec (Unit {0})
insert_shift env user =
    insert_unique (λ d. any (is_open_of user.user_id) d.shifts)
      (λ d. record d { shifts = d.shifts ++ new_shift env user ∷ [] })

unfoldable pub open_rows : Env → AuthUser → Exec ShiftResponse
open_rows env user = do
  catch_unique (HttpError.conflict Message.shift_already_open) (insert_shift env user)
  update_courier_status env user available
  emit_shift_opened env user.owner_id user.user_id (new_shift env user).id env.db_now
  pure (shift_to_dto (new_shift env user) none)

unfoldable pub open_shift : Env → AuthUser → Exec ShiftResponse
open_shift env user = transaction (open_rows env user)

-- `UPDATE courier_shifts … WHERE courier_id, owner_id, status = 'open'`; the result is `affected`.
abbrev pub close_open_shifts : Env → AuthUser → Exec ℕ
close_open_shifts env user w =
    (ok (count (is_open_shift user) w.db.shifts), record w { db = closed_db (w.db) })
  where
    closed_db : Db → Db
    closed_db d = record d { shifts = update (is_open_shift user) (close_row env) d.shifts }

-- `status = 'closed' AND ended_at IS NOT NULL`
abbrev pub is_closed_shift : AuthUser → CourierShift → Bool
is_closed_shift user s =
    s.courier_id == user.user_id
    && (s.owner_id == user.owner_id && (not (is_opened s.status) && is_some s.ended_at))

-- `ORDER BY ended_at DESC`, the first row.
abbrev pub latest_closed : AuthUser → Db → Option CourierShift
latest_closed user d =
    head_or_none
      (sort (descending (λ s. or_else s.ended_at 0)) (filter (is_closed_shift user) d.shifts))

unfoldable pub close_rows : Env → AuthUser → Exec ShiftResponse
close_rows env user = do
  affected ← close_open_shifts env user
  raise_if (affected == 0) (HttpError.conflict Message.no_open_shift_to_close)
  shift ← or_raise (← gets (latest_closed user)) (HttpError.conflict Message.no_open_shift_to_close)
  update_courier_status env user unavailable
  emit_shift_closed env user.owner_id user.user_id shift.id shift.started_at shift.ended_at
      (compute_duration shift.started_at shift.ended_at)
  pure (shift_to_dto shift none)

unfoldable pub close_shift : Env → AuthUser → Exec ShiftResponse
close_shift env user = transaction (close_rows env user)
