-- ===== src/Server/Requests.antt =====
-- The controllers of src/orders, src/couriers, src/payouts and src/users: every route that writes,
-- with its guards and the service that it calls.
use couriers_server_node.Access.Endpoints.{
  OrdersRoute, LifecycleRoute, CouriersRoute, TrackingRoute, ShiftsRoute, PayoutsRoute, UsersRoute,
  Endpoint, required_roles,
}
use couriers_server_node.Access.Guards.{JwtPayload, authenticate, can_activate}
use couriers_server_node.Couriers.Admin.{UpdateCourier, update_courier}
use couriers_server_node.Entities.{AuthUser, picked_up, in_delivery, completed}
use couriers_server_node.Http.{Message, HttpError}
use couriers_server_node.Lifecycle.Handlers.{claim, advance_status, cancel}
use couriers_server_node.Orders.Responses.{CreateOrderDto}
use couriers_server_node.Orders.Service.{create}
use couriers_server_node.Payouts.Service.{
  CreatePayoutPeriod, CreatePayout, create_period, close_period, record_payout,
}
use couriers_server_node.Prelude.{ℕ, String, Bool, true, false, ◌&&◌, Option, some, List, ◌∷◌, []}
use couriers_server_node.Shifts.Invariant.{ShiftRequest}
use couriers_server_node.Shifts.Service.{open_shift, close_shift}
use couriers_server_node.Tracking.Service.{SubmitLocation, Distance, submit_location}
use couriers_server_node.Users.Keys.{UserRequest}
use couriers_server_node.Users.Service.{create_user, update_user, remove_user}
use couriers_server_node.World.{World, Env, Exec, pure, raise_if, ◌>>=◌, ◌>>◌}

pub data Api : Type 0 where
  creates_order : CreateOrderDto → Api
  claims_order picks_up starts_delivery completes_order : (id : ℕ) → Api
  cancels_order : (id : ℕ) (reason : Option String) → Api
  on_shift : ShiftRequest → Api
  submits_location : SubmitLocation → Api
  updates_courier : (id : ℕ) → UpdateCourier → Api
  creates_period : CreatePayoutPeriod → Api
  ends_period : (id : ℕ) → Api
  pays : (id : ℕ) → CreatePayout → Api
  on_staff : UserRequest → Api

abbrev pub endpoint_of : Api → Endpoint
endpoint_of (creates_order dto) = Endpoint.on_orders OrdersRoute.orders_create
endpoint_of (claims_order id) = Endpoint.on_lifecycle LifecycleRoute.orders_claim
endpoint_of (picks_up id) = Endpoint.on_lifecycle LifecycleRoute.orders_pickup
endpoint_of (starts_delivery id) = Endpoint.on_lifecycle LifecycleRoute.orders_start_delivery
endpoint_of (completes_order id) = Endpoint.on_lifecycle LifecycleRoute.orders_complete
endpoint_of (cancels_order id reason) = Endpoint.on_lifecycle LifecycleRoute.orders_cancel
endpoint_of (on_shift ShiftRequest.opens) = Endpoint.on_shifts ShiftsRoute.shift_open
endpoint_of (on_shift ShiftRequest.closes) = Endpoint.on_shifts ShiftsRoute.shift_close
endpoint_of (submits_location dto) = Endpoint.on_tracking TrackingRoute.location_submit
endpoint_of (updates_courier id dto) = Endpoint.on_couriers CouriersRoute.couriers_update
endpoint_of (creates_period dto) = Endpoint.on_payouts PayoutsRoute.period_create
endpoint_of (ends_period id) = Endpoint.on_payouts PayoutsRoute.period_close
endpoint_of (pays id dto) = Endpoint.on_payouts PayoutsRoute.payout_record
endpoint_of (on_staff (UserRequest.creates_user dto)) = Endpoint.on_users UsersRoute.users_create
endpoint_of (on_staff (UserRequest.updates_user id dto)) = Endpoint.on_users UsersRoute.users_update
endpoint_of (on_staff (UserRequest.removes_user id)) = Endpoint.on_users UsersRoute.users_remove

-- What a request meets: the environment, whether a transaction takes queries after a failed
-- statement, the distance of two points, the hash of passwords, whether the counter of the throttler
-- is at its limit for the user, and which requests the pipes refuse for their parameters or bodies.
pub record Site : Type 0 where
  pub env : Env
  pub usable : Bool
  pub distance : Distance
  pub hash : String → String
  pub is_throttled : Bool
  pub is_malformed : Api → Bool

-- An answer of which only the error counts.
abbrev pub void : {A : Type 0} → Exec A → Exec (Unit {0})
void m = m >>= λ a. pure tt

unfoldable pub perform : Site → AuthUser → Api → Exec (Unit {0})
perform s user (creates_order dto) = void (create s.env s.usable dto user)
perform s user (claims_order id) = void (claim s.env id user)
perform s user (picks_up id) = void (advance_status s.env id picked_up user)
perform s user (starts_delivery id) = void (advance_status s.env id in_delivery user)
perform s user (completes_order id) = void (advance_status s.env id completed user)
perform s user (cancels_order id reason) = void (cancel s.env id reason user)
perform s user (on_shift ShiftRequest.opens) = void (open_shift s.env user)
perform s user (on_shift ShiftRequest.closes) = void (close_shift s.env user)
perform s user (submits_location dto) = void (submit_location s.env s.distance dto user)
perform s user (updates_courier id dto) = void (update_courier s.env user.owner_id id dto)
perform s user (creates_period dto) = void (create_period s.env user dto)
perform s user (ends_period id) = void (close_period s.env user.owner_id id)
perform s user (pays id dto) = void (record_payout s.env user.owner_id id dto)
perform s user (on_staff (UserRequest.creates_user dto)) =
    void (create_user s.env s.hash user.owner_id dto)
perform s user (on_staff (UserRequest.updates_user id dto)) =
    void (update_user s.env user.owner_id id dto)
perform s user (on_staff (UserRequest.removes_user id)) = remove_user user.owner_id id user.user_id

-- `@UseGuards(LocationThrottleGuard)` of one route.
abbrev pub has_throttle : Api → Bool
has_throttle (submits_location dto) = true
has_throttle _ = false

-- `@UseGuards(JwtAuthGuard, RolesGuard)`, the guard of the method, the pipes, then the handler.
unfoldable pub serve : Site → Option JwtPayload → Api → Exec (Unit {0})
serve s token a = do
  user ← authenticate token
  can_activate (required_roles (endpoint_of a)) (some user)
  raise_if (has_throttle a && s.is_throttled) HttpError.too_many_requests
  raise_if (s.is_malformed a) (HttpError.bad_request Message.validation_failed)
  perform s user a

abbrev pub ApiCall : Type 0
ApiCall = Site × Option JwtPayload × Api

unfoldable pub serve_all : List ApiCall → World → World
serve_all [] w = w
serve_all ((s, token, a) ∷ calls) w = serve_all calls (serve s token a w).1
