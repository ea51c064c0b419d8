-- ===== src/Access/Endpoints.antt =====
-- The controllers of src/orders, src/couriers, src/payouts and src/users: their routes behind the two
-- guards, each with the roles of its `@Roles`.
use couriers_server_node.Entities.{UserRole}
use couriers_server_node.Prelude.{List, ◌∷◌, []}

-- `UserRole.OWNER, UserRole.MANAGER, UserRole.ORDER_OPERATOR`
abbrev staff_roles : List UserRole
staff_roles = UserRole.owner ∷ UserRole.manager ∷ UserRole.order_operator ∷ []

abbrev courier_only : List UserRole
courier_only = UserRole.courier ∷ []

abbrev owner_only : List UserRole
owner_only = UserRole.owner ∷ []

-- orders.controller.ts of src/orders
pub data OrdersRoute : Type 0 where
  orders_create orders_find_all orders_find_one : OrdersRoute

abbrev pub orders_routes : OrdersRoute → List UserRole
orders_routes orders_create = staff_roles
orders_routes orders_find_all = staff_roles
orders_routes orders_find_one = staff_roles

-- order-lifecycle.controller.ts of src/orders
pub data LifecycleRoute : Type 0 where
  orders_available orders_claim orders_pickup orders_start_delivery orders_complete orders_cancel :
      LifecycleRoute

abbrev pub lifecycle_routes : LifecycleRoute → List UserRole
lifecycle_routes orders_available = courier_only
lifecycle_routes orders_claim = courier_only
lifecycle_routes orders_pickup = courier_only
lifecycle_routes orders_start_delivery = courier_only
lifecycle_routes orders_complete = courier_only
lifecycle_routes orders_cancel = staff_roles

-- couriers-admin.controller.ts of src/couriers
pub data CouriersRoute : Type 0 where
  couriers_find_all couriers_find_one couriers_update : CouriersRoute

abbrev pub couriers_routes : CouriersRoute → List UserRole
couriers_routes couriers_find_all = staff_roles
couriers_routes couriers_find_one = staff_roles
couriers_routes couriers_update = UserRole.owner ∷ UserRole.manager ∷ []

-- courier-tracking.controller.ts of src/couriers
pub data TrackingRoute : Type 0 where
  location_submit route_history_list order_route : TrackingRoute

abbrev pub tracking_routes : TrackingRoute → List UserRole
tracking_routes location_submit = courier_only
tracking_routes route_history_list = staff_roles
tracking_routes order_route = staff_roles

-- shift-management.controller.ts of src/couriers
pub data ShiftsRoute : Type 0 where
  shift_open shift_close shift_current shift_history active_shifts courier_shifts : ShiftsRoute

abbrev pub shifts_routes : ShiftsRoute → List UserRole
shifts_routes shift_open = courier_only
shifts_routes shift_close = courier_only
shifts_routes shift_current = courier_only
shifts_routes shift_history = courier_only
shifts_routes active_shifts = staff_roles
shifts_routes courier_shifts = staff_roles

-- courier-payouts.controller.ts of src/payouts
pub data OwnPayoutsRoute : Type 0 where
  own_earnings own_payouts : OwnPayoutsRoute

abbrev pub own_payouts_routes : OwnPayoutsRoute → List UserRole
own_payouts_routes own_earnings = courier_only
own_payouts_routes own_payouts = courier_only

-- payouts.controller.ts of src/payouts
pub data PayoutsRoute : Type 0 where
  period_create period_list period_close period_summary payout_record period_pending : PayoutsRoute

abbrev pub payouts_routes : PayoutsRoute → List UserRole
payouts_routes period_create = staff_roles
payouts_routes period_list = staff_roles
payouts_routes period_close = staff_roles
payouts_routes period_summary = staff_roles
payouts_routes payout_record = staff_roles
payouts_routes period_pending = staff_roles

-- users.controller.ts of src/users
pub data UsersRoute : Type 0 where
  users_find_all users_create users_update users_remove : UsersRoute

abbrev pub users_routes : UsersRoute → List UserRole
users_routes users_find_all = staff_roles
users_routes users_create = owner_only
users_routes users_update = owner_only
users_routes users_remove = owner_only

pub data Endpoint : Type 0 where
  on_orders : OrdersRoute → Endpoint
  on_lifecycle : LifecycleRoute → Endpoint
  on_couriers : CouriersRoute → Endpoint
  on_tracking : TrackingRoute → Endpoint
  on_shifts : ShiftsRoute → Endpoint
  on_own_payouts : OwnPayoutsRoute → Endpoint
  on_payouts : PayoutsRoute → Endpoint
  on_users : UsersRoute → Endpoint

unfoldable pub required_roles : Endpoint → List UserRole
required_roles (on_orders r) = orders_routes r
required_roles (on_lifecycle r) = lifecycle_routes r
required_roles (on_couriers r) = couriers_routes r
required_roles (on_tracking r) = tracking_routes r
required_roles (on_shifts r) = shifts_routes r
required_roles (on_own_payouts r) = own_payouts_routes r
required_roles (on_payouts r) = payouts_routes r
required_roles (on_users r) = users_routes r
