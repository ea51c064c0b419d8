-- ===== src/Server/Effects.antt =====
-- The requests of src/couriers, src/payouts and src/users, each on the tables of its own.
use couriers_server_node.Couriers.Admin.{UpdateCourier, update_courier}
use couriers_server_node.Couriers.Keys.{
  has_phone, has_login, IsIndexed, update_courier-IsIndexed, update_courier-db,
}
use couriers_server_node.Entities.{
  AuthUser, StaffUser, CourierStatus, Courier, CourierShift, CourierPosition,
  CourierLocationHistory, PayoutPeriod, Payout, available, unavailable,
}
use couriers_server_node.Lifecycle.Rules.{is_open_shift}
use couriers_server_node.Payouts.Ledger.{
  PayoutRequest, handle_payout, IsSound, create_period-db, close_period-db, record_payout-db,
  handle_payout-IsSound, creates, closes_period, records,
}
use couriers_server_node.Prelude.{
  ◌==◌, update, any, All-update, All-of, All-concat, count-update-le, count-update, ℕ, String, ◌≡◌,
  refl, sym, subst, inl, inr, Bool, false, List, ◌∷◌, ◌++◌, arith, [],
}
use couriers_server_node.Server.Healthy.{
  ShiftsHealthy, OnePosition, IsHealthy, OrdersHealthy-same, IsSound-same,
}
use couriers_server_node.Shifts.Agreement.{opened-one}
use couriers_server_node.Shifts.Invariant.{
  ShiftRequest, handle_shift, handle-ShiftEffect, opens, closes,
}
use couriers_server_node.Shifts.Service.{is_open_of, new_shift, close_row, set_courier_status}
use couriers_server_node.Tracking.Route.{submit_location-db, upsert-count}
use couriers_server_node.Tracking.Service.{SubmitLocation, Distance, submit_location}
use couriers_server_node.Users.Keys.{
  UserRequest, handle_user, OneEmail, handle_user-OneEmail, creates_user, updates_user,
  removes_user,
}
use couriers_server_node.Users.Service.{create_user, update_user, remove_user}
use couriers_server_node.World.{Db, World, Env}

module _ (d : Db) (h : IsHealthy d) where
  pub staff-IsHealthy :
      (us : List StaffUser) → OneEmail us → IsHealthy (record d { staff_users = us })
  staff-IsHealthy us k = record {
    on_orders = OrdersHealthy-same d _ (ground arith) h.on_orders;
    sound = IsSound-same d _ (ground arith) h.sound;
    on_staff = k;
    on_shifts = h.on_shifts;
    on_couriers = h.on_couriers;
    located = h.located;
  }

  pub couriers-IsHealthy :
      (cs : List Courier) → IsIndexed cs → IsHealthy (record d { couriers = cs })
  couriers-IsHealthy cs k = record {
    on_orders = OrdersHealthy-same d _ (ground arith) h.on_orders;
    sound = IsSound-same d _ (ground arith) h.sound;
    on_staff = h.on_staff;
    on_shifts = h.on_shifts;
    on_couriers = k;
    located = h.located;
  }

  pub shifts-IsHealthy :
      (ss : List CourierShift) → ShiftsHealthy ss → IsHealthy (record d { shifts = ss })
  shifts-IsHealthy ss k = record {
    on_orders = OrdersHealthy-same d _ (ground arith) h.on_orders;
    sound = IsSound-same d _ (ground arith) h.sound;
    on_staff = h.on_staff;
    on_shifts = k;
    on_couriers = h.on_couriers;
    located = h.located;
  }

  pub positions-IsHealthy :
      (ps : List CourierPosition) (ls : List CourierLocationHistory)
      → OnePosition ps
      → IsHealthy (record d { positions = ps; location_history = ls })
  positions-IsHealthy ps ls k = record {
    on_orders = OrdersHealthy-same d _ (ground arith) h.on_orders;
    sound = IsSound-same d _ (ground arith) h.sound;
    on_staff = h.on_staff;
    on_shifts = h.on_shifts;
    on_couriers = h.on_couriers;
    located = k;
  }

  pub payouts-IsHealthy :
      (qs : List PayoutPeriod) (ps : List Payout)
      → IsSound (record d { payout_periods = qs; payouts = ps })
      → IsHealthy (record d { payout_periods = qs; payouts = ps })
  payouts-IsHealthy qs ps k = record {
    on_orders = OrdersHealthy-same d _ (ground arith) h.on_orders;
    sound = k;
    on_staff = h.on_staff;
    on_shifts = h.on_shifts;
    on_couriers = h.on_couriers;
    located = h.located;
  }

handle_payout-db :
    (env : Env) (r : PayoutRequest) (w : World)
    → let d' = (handle_payout env r w).db in
      d' ≡ record (w.db) { payout_periods = d'.payout_periods; payouts = d'.payouts }
unfolding handle_payout
handle_payout-db env (creates user dto) w = elim (create_period-db env user dto w) [
  | inl e ↦ rw e refl
  | inr (l, e) ↦ rw e refl
]
handle_payout-db env (closes_period owner id) w = elim (close_period-db env owner id w) [
  | inl e ↦ rw e refl
  | inr e ↦ rw e refl
]
handle_payout-db env (records owner id dto) w = elim (record_payout-db env owner id dto w) [
  | inl (e, f) ↦ rw e refl
  | inr (p, c, e) ↦ rw (handle_payout, e) refl
]

pub handle_payout-IsHealthy :
    (env : Env) (r : PayoutRequest) (w : World)
    → IsHealthy w.db
    → IsHealthy (handle_payout env r w).db
handle_payout-IsHealthy env r w h =
    let e = handle_payout-db env r w in
    let s = handle_payout-IsSound env r w h.sound in
    subst IsHealthy (sym e) (payouts-IsHealthy w.db h _ _ (subst IsSound e s))

handle_user-db :
    (env : Env) (hash : String → String) (user : AuthUser) (r : UserRequest) (w : World)
    → let d' = (handle_user env hash user r w).db in
      d' ≡ record (w.db) { staff_users = d'.staff_users }
unfolding handle_user create_user update_user remove_user
handle_user-db env hash user (creates_user dto) w = ground arith
handle_user-db env hash user (updates_user id dto) w = ground arith
handle_user-db env hash user (removes_user id) w = ground arith

pub handle_user-IsHealthy :
    (env : Env) (hash : String → String) (user : AuthUser) (r : UserRequest) (w : World)
    → IsHealthy w.db
    → IsHealthy (handle_user env hash user r w).db
handle_user-IsHealthy env hash user r w h =
    subst IsHealthy (sym (handle_user-db env hash user r w))
      (staff-IsHealthy w.db h _ (handle_user-OneEmail env hash user r w h.on_staff))

pub submit_location-IsHealthy :
    (env : Env) (distance : Distance) (dto : SubmitLocation) (user : AuthUser) (w : World)
    → IsHealthy w.db
    → IsHealthy (submit_location env distance dto user w).1.db
submit_location-IsHealthy env distance dto user w h =
    subst IsHealthy (sym (submit_location-db env distance dto user w))
      (positions-IsHealthy w.db h _ _ (upsert-count env user dto w.db.positions h.located))

pub update_courier-IsHealthy :
    (env : Env) (tenant id : ℕ) (dto : UpdateCourier) (w : World)
    → IsHealthy w.db
    → IsHealthy (update_courier env tenant id dto w).1.db
update_courier-IsHealthy env tenant id dto w h =
    subst IsHealthy (sym (update_courier-db env tenant id dto w))
      (couriers-IsHealthy w.db h _ (update_courier-IsIndexed env tenant id dto w h.on_couriers))

-- A courier's status is no part of an index.
status-IsIndexed :
    (env : Env) (s : CourierStatus) (p : Courier → Bool) (cs : List Courier)
    → IsIndexed cs
    → IsIndexed (update p (set_courier_status env s) cs)
status-IsIndexed env s p cs h = record {
  one_phone = λ owner phone.
      rw (count-update (has_phone owner phone) p (set_courier_status env s) cs (λ x. refl))
        (h.one_phone owner phone);
  one_login = λ owner login.
      rw (count-update (has_login owner login) p (set_courier_status env s) cs (λ x. refl))
        (h.one_login owner login);
  one_key = λ id.
      rw (count-update (λ c. c.id == id) p (set_courier_status env s) cs (λ x. refl))
        (h.one_key id);
}

opened-ShiftsHealthy :
    (env : Env) (user : AuthUser) (d : Db)
    → any (is_open_of user.user_id) d.shifts ≡ false
    → ShiftsHealthy d.shifts
    → ShiftsHealthy (d.shifts ++ new_shift env user ∷ [])
opened-ShiftsHealthy env user d free h = record {
  one_open = λ k. opened-one env user d k free (h.one_open k);
  ended = All-concat _ d.shifts h.ended refl;
}

closed-ShiftsHealthy :
    (env : Env) (user : AuthUser) (ss : List CourierShift)
    → ShiftsHealthy ss
    → ShiftsHealthy (update (is_open_shift user) (close_row env) ss)
closed-ShiftsHealthy env user ss h = record {
  one_open = λ k. omega (
    arith,
    h.one_open k,
    count-update-le (is_open_of k) (is_open_shift user) (close_row env) ss
        (All-of _ (λ s p q. absurd (ground arith)) ss),
  );
  ended =
      All-update _ (is_open_shift user) (close_row env) ss (All-of _ (λ s p k. refl) ss) h.ended;
}

pub handle_shift-IsHealthy :
    (env : Env) (user : AuthUser) (r : ShiftRequest) (w : World)
    → IsHealthy w.db
    → IsHealthy (handle_shift env user r w).db
handle_shift-IsHealthy env user opens w h = elim (handle-ShiftEffect env user opens w) [
  | inl e ↦ subst IsHealthy (sym e) h
  | inr (free, e) ↦
      let s = shifts-IsHealthy w.db h _ (opened-ShiftsHealthy env user w.db free h.on_shifts) in
      subst IsHealthy (sym e)
        (couriers-IsHealthy _ s _ (status-IsIndexed env available _ w.db.couriers h.on_couriers))
]
handle_shift-IsHealthy env user closes w h = elim (handle-ShiftEffect env user closes w) [
  | inl e ↦ subst IsHealthy (sym e) h
  | inr (n, e) ↦
      let s = shifts-IsHealthy w.db h _ (closed-ShiftsHealthy env user w.db.shifts h.on_shifts) in
      subst IsHealthy (sym e)
        (couriers-IsHealthy _ s _ (status-IsIndexed env unavailable _ w.db.couriers h.on_couriers))
]
