-- ===== src/Server/Scope.antt =====
-- The routes of src/orders, src/couriers, src/payouts and src/users under the token of a courier.
use couriers_server_node.Access.Endpoints.{required_roles}
use couriers_server_node.Access.Guards.{JwtPayload, validate, includes}
use couriers_server_node.Entities.{UserRole, AuthUser, picked_up, in_delivery, completed}
use couriers_server_node.Lifecycle.Handlers.{claim, advance_status}
use couriers_server_node.Lifecycle.Requests.{Request, handle, handle-Effect, claims, advances}
use couriers_server_node.Prelude.{◌≡◌, refl, sym, subst, inl, inr, true, Option, none, some, arith}
use couriers_server_node.Server.Frames.{Effect-Elsewhere}
use couriers_server_node.Server.Requests.{
  Api, endpoint_of, Site, void, perform, serve, creates_order, claims_order, picks_up,
  starts_delivery, completes_order, cancels_order, on_shift, submits_location, updates_courier,
  creates_period, ends_period, pays, on_staff,
}
use couriers_server_node.Server.Runs.{
  void-world, Guarded, serve-Guarded, unknown, barred, throttled, refused, passed,
}
use couriers_server_node.Shifts.Effects.{opened_db, closed_db}
use couriers_server_node.Shifts.Invariant.{
  ShiftRequest, handle_shift, handle-ShiftEffect, opens, closes,
}
use couriers_server_node.Shifts.Service.{open_shift, close_shift}
use couriers_server_node.Tracking.Route.{located_db, submit_location-db}
use couriers_server_node.Tracking.Service.{SubmitLocation, Distance, submit_location}
use couriers_server_node.Users.Keys.{creates_user, updates_user, removes_user}
use couriers_server_node.World.{Db, World, Env, Exec}

-- The tables of staff, payouts and clients are those of before.
pub record OutOfReach (d d' : Db) : Type 0 where
  pub staff_users : d'.staff_users ≡ d.staff_users
  pub periods : d'.payout_periods ≡ d.payout_periods
  pub payouts : d'.payouts ≡ d.payouts
  pub clients : d'.clients ≡ d.clients

same-OutOfReach : (d d' : Db) → d' ≡ d → OutOfReach d d'
same-OutOfReach d d' e =
    let same : OutOfReach d d = ground arith in subst (OutOfReach d) (sym e) same

void-OutOfReach :
    {A : Type 0} (m : Exec A) (w : World)
    → OutOfReach w.db (m w).1.db
    → OutOfReach w.db (void m w).1.db
void-OutOfReach m w h = subst (λ v. OutOfReach w.db v.db) (sym (void-world m w)) h

lifecycle-OutOfReach :
    (env : Env) (user : AuthUser) (r : Request) (w : World)
    → OutOfReach w.db (handle env user r w).1.db
lifecycle-OutOfReach env user r w =
    let s = Effect-Elsewhere env user r w.db _ (handle-Effect env user r w) in
    record {
      staff_users = s.staff_users;
      periods = s.periods;
      payouts = s.payouts;
      clients = s.clients;
    }

shift-OutOfReach :
    (env : Env) (user : AuthUser) (r : ShiftRequest) (w : World)
    → OutOfReach w.db (handle_shift env user r w).db
shift-OutOfReach env user opens w = elim (handle-ShiftEffect env user opens w) [
  | inl e ↦ same-OutOfReach w.db _ e
  | inr (free, e) ↦
      let k : OutOfReach w.db (opened_db env user w.db) = ground arith in
      subst (OutOfReach w.db) (sym e) k
]
shift-OutOfReach env user closes w = elim (handle-ShiftEffect env user closes w) [
  | inl e ↦ same-OutOfReach w.db _ e
  | inr (n, e) ↦
      let k : OutOfReach w.db (closed_db env user w.db) = ground arith in
      subst (OutOfReach w.db) (sym e) k
]

location-OutOfReach :
    (env : Env) (distance : Distance) (dto : SubmitLocation) (user : AuthUser) (w : World)
    → OutOfReach w.db (submit_location env distance dto user w).1.db
location-OutOfReach env distance dto user w =
    let k : OutOfReach w.db (located_db env distance dto user w.db) = ground arith in
    subst (OutOfReach w.db) (sym (submit_location-db env distance dto user w)) k

perform-OutOfReach :
    (s : Site) (user : AuthUser) (a : Api) (w : World)
    → includes UserRole.courier (required_roles (endpoint_of a)) ≡ true
    → OutOfReach w.db (perform s user a w).1.db
unfolding perform includes required_roles handle handle_shift
perform-OutOfReach s user (creates_order dto) w i = absurd (cc)
perform-OutOfReach s user (claims_order id) w i =
    void-OutOfReach (claim s.env id user) w (lifecycle-OutOfReach s.env user (claims id) w)
perform-OutOfReach s user (picks_up id) w i =
    void-OutOfReach (advance_status s.env id picked_up user) w
      (lifecycle-OutOfReach s.env user (advances id picked_up) w)
perform-OutOfReach s user (starts_delivery id) w i =
    void-OutOfReach (advance_status s.env id in_delivery user) w
      (lifecycle-OutOfReach s.env user (advances id in_delivery) w)
perform-OutOfReach s user (completes_order id) w i =
    void-OutOfReach (advance_status s.env id completed user) w
      (lifecycle-OutOfReach s.env user (advances id completed) w)
perform-OutOfReach s user (cancels_order id reason) w i = absurd (cc)
perform-OutOfReach s user (on_shift opens) w i =
    void-OutOfReach (open_shift s.env user) w (shift-OutOfReach s.env user opens w)
perform-OutOfReach s user (on_shift closes) w i =
    void-OutOfReach (close_shift s.env user) w (shift-OutOfReach s.env user closes w)
perform-OutOfReach s user (submits_location dto) w i =
    void-OutOfReach (submit_location s.env s.distance dto user) w
      (location-OutOfReach s.env s.distance dto user w)
perform-OutOfReach s user (updates_courier id dto) w i = absurd (cc)
perform-OutOfReach s user (creates_period dto) w i = absurd (cc)
perform-OutOfReach s user (ends_period id) w i = absurd (cc)
perform-OutOfReach s user (pays id dto) w i = absurd (cc)
perform-OutOfReach s user (on_staff (creates_user dto)) w i = absurd (cc)
perform-OutOfReach s user (on_staff (updates_user id dto)) w i = absurd (cc)
perform-OutOfReach s user (on_staff (removes_user id)) w i = absurd (cc)

abbrev OfCourier : Option JwtPayload → Type 0
OfCourier none = Unit
OfCourier (some p) = p.role ≡ UserRole.courier

-- With the token of a courier no request, whatever it asks for, changes the tables of staff, payout periods, payouts or
-- clients.
pub serve-OutOfReach :
    (s : Site) (p : JwtPayload) (a : Api) (w : World)
    → p.role ≡ UserRole.courier
    → OutOfReach w.db (serve s (some p) a w).1.db
serve-OutOfReach s p a w c = ended s a w (some p) (serve-Guarded s (some p) a w) c
  where
    ended :
        (s : Site) (a : Api) (w : World) (token : Option JwtPayload)
        → Guarded s a w token
        → OfCourier token
        → OutOfReach w.db (serve s token a w).1.db
    ended s a w _ (unknown e) c =
        subst (λ r. OutOfReach w.db (r.1.db)) (sym e) (same-OutOfReach w.db w.db refl)
    ended s a w _ (barred p i e) c =
        subst (λ r. OutOfReach w.db (r.1.db)) (sym e) (same-OutOfReach w.db w.db refl)
    ended s a w _ (throttled p i t e) c =
        subst (λ r. OutOfReach w.db (r.1.db)) (sym e) (same-OutOfReach w.db w.db refl)
    ended s a w _ (refused p i m e) c =
        subst (λ r. OutOfReach w.db (r.1.db)) (sym e) (same-OutOfReach w.db w.db refl)
    ended s a w _ (passed p i t m e) c =
        subst (λ r. OutOfReach w.db (r.1.db)) (sym e)
          (perform-OutOfReach s (validate p) a w
            (subst (λ r. includes r (required_roles (endpoint_of a)) ≡ true) c i))
