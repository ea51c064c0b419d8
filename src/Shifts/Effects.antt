-- ===== src/Shifts/Effects.antt =====
-- src/couriers/shift-management.service.ts: what `openShift` and `closeShift` do to the database.
use couriers_server_node.Entities.{AuthUser, CourierShift, available, unavailable}
use couriers_server_node.Http.{Message, HttpError, ok, err}
use couriers_server_node.Lifecycle.Rules.{is_open_shift}
use couriers_server_node.Prelude.{
  count, update, any, ◌≡◌, ◌≢◌, true, false, none, some, ◌∷◌, ◌++◌, arith, [],
}
use couriers_server_node.Shifts.Service.{
  shift_to_dto, is_open_of, new_shift, close_row, is_courier, set_courier_status, insert_shift,
  open_rows, open_shift, latest_closed, close_rows, close_shift,
}
use couriers_server_node.World.{Db, World, Env, transaction, catch_unique}

abbrev pub opened_db : Env → AuthUser → Db → Db
opened_db env user d = record d {
  shifts = d.shifts ++ new_shift env user ∷ [];
  couriers =
      update (is_courier user.user_id user.owner_id) (set_courier_status env available) d.couriers;
}

abbrev pub closed_db : Env → AuthUser → Db → Db
closed_db env user d = record d {
  shifts = update (is_open_shift user) (close_row env) d.shifts;
  couriers =
      update (is_courier user.user_id user.owner_id) (set_courier_status env unavailable)
        d.couriers;
}

-- A courier with an open shift gets a conflict, and nothing changes, no message included.
pub open_shift_refused :
    (env : Env) (user : AuthUser) (w : World)
    → any (is_open_of user.user_id) w.db.shifts ≡ true
    → open_shift env user w ≡ (err (HttpError.conflict Message.shift_already_open), w)
unfolding open_shift open_rows insert_shift catch_unique transaction
open_shift_refused env user w h = ground arith

pub open_shift_granted :
    (env : Env) (user : AuthUser) (w : World)
    → any (is_open_of user.user_id) w.db.shifts ≡ false
    → ((open_shift env user w).0 ≡ ok (shift_to_dto (new_shift env user) none))
      × ((open_shift env user w).1.db ≡ opened_db env user w.db)
unfolding open_shift open_rows insert_shift catch_unique transaction
open_shift_granted env user w h = ground arith

pub close_shift_refused :
    (env : Env) (user : AuthUser) (w : World)
    → count (is_open_shift user) w.db.shifts ≡ 0
    → ((close_shift env user w).0 ≡ err (HttpError.conflict Message.no_open_shift_to_close))
      × ((close_shift env user w).1.db ≡ w.db)
unfolding close_shift close_rows transaction
close_shift_refused env user w h = ground arith

pub close_shift_granted :
    (env : Env) (user : AuthUser) (w : World) (s : CourierShift)
    → count (is_open_shift user) w.db.shifts ≢ 0
    → latest_closed user
        (record (w.db) { shifts = update (is_open_shift user) (close_row env) w.db.shifts })
      ≡ some s
    → ((close_shift env user w).0 ≡ ok (shift_to_dto s none))
      × ((close_shift env user w).1.db ≡ closed_db env user w.db)
unfolding close_shift close_rows transaction
close_shift_granted env user w s h e = ground arith
