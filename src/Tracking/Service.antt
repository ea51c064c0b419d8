-- ===== src/Tracking/Service.antt =====
-- src/couriers/courier-tracking.service.ts: `submitLocation` and `getOrderRoute`.
use couriers_server_node.Entities.{
  AuthUser, CourierPosition, CourierLocationHistory, OrderStatus, Order, created, assigned,
  picked_up, in_delivery, completed, cancelled,
}
use couriers_server_node.Gateway.{emit_location_updated}
use couriers_server_node.Http.{Message, HttpError}
use couriers_server_node.Lifecycle.Calls.{filled}
use couriers_server_node.Lifecycle.Rules.{is_order}
use couriers_server_node.Prelude.{
  ◌==◌, holds, filter, find, update, any, sort, ascending, sum_by, ℕ, Bool, true, false, ◌&&◌,
  Option, none, some, List, ◌∷◌, ◌++◌, map, [],
}
use couriers_server_node.Prelude.Int.{ℤ}
use couriers_server_node.World.{
  Db, Job, Env, Exec, pure, gets, or_raise, modify, enqueue, ◌>>=◌, ◌>>◌,
}

pub record SubmitLocation : Type 0 where
  pub lat : ℤ
  pub lng : ℤ

-- `haversineMeters` on two points, in floating point.
abbrev pub Distance : Type 0
Distance = ℤ → ℤ → ℤ → ℤ → ℕ

-- The three statuses that the query lists.
abbrev pub is_under_way : OrderStatus → Bool
is_under_way created = false
is_under_way assigned = true
is_under_way picked_up = true
is_under_way in_delivery = true
is_under_way completed = false
is_under_way cancelled = false

abbrev pub is_carried_by : AuthUser → Order → Bool
is_carried_by user o =
    holds o.courier_id user.user_id && (o.owner_id == user.owner_id && is_under_way o.status)

abbrev pub carried : AuthUser → Db → Option Order
carried user d = find (is_carried_by user) d.orders

abbrev pub id_of : Option Order → Option ℕ
id_of none = none
id_of (some o) = some o.id

abbrev pub is_position_of : ℕ → CourierPosition → Bool
is_position_of courier p = p.courier_id == courier

abbrev pub distance_from : Distance → Option CourierPosition → SubmitLocation → ℕ
distance_from distance none dto = 0
distance_from distance (some p) dto = distance p.lat p.lng dto.lat dto.lng

abbrev pub new_position : Env → AuthUser → SubmitLocation → CourierPosition
new_position env user dto = record {
  id = env.uuid 0;
  owner_id = user.owner_id;
  courier_id = user.user_id;
  lat = env.round_coordinate dto.lat;
  lng = env.round_coordinate dto.lng;
  recorded_at = env.app_now;
  created_at = env.db_now;
  updated_at = env.db_now;
}

abbrev pub moved_position : Env → SubmitLocation → CourierPosition → CourierPosition
moved_position env dto p = record p {
  lat = env.round_coordinate dto.lat;
  lng = env.round_coordinate dto.lng;
  recorded_at = env.app_now;
  updated_at = env.db_now;
}

-- `INSERT … ON CONFLICT (courier_id) DO UPDATE`
unfoldable pub upsert_position :
    Env → AuthUser → SubmitLocation → List CourierPosition → List CourierPosition
upsert_position env user dto ps = elim (any (is_position_of user.user_id) ps) [
  | true ↦ update (is_position_of user.user_id) (moved_position env dto) ps
  | false ↦ ps ++ new_position env user dto ∷ []
]

abbrev pub history_entry :
    Env → AuthUser → SubmitLocation → Option Order → ℕ → CourierLocationHistory
history_entry env user dto order meters = record {
  id = env.uuid 1;
  owner_id = user.owner_id;
  courier_id = user.user_id;
  order_id = id_of order;
  lat = env.round_coordinate dto.lat;
  lng = env.round_coordinate dto.lng;
  distance_meters = env.round_meters meters;
  recorded_at = env.db_now;
}

pub record LocationResponse : Type 0 where
  pub courier_id : ℕ
  pub lat : ℤ
  pub lng : ℤ
  pub recorded_at : ℕ
  pub order_id : Option ℕ
  pub distance_meters : ℕ

-- `if (activeOrder?.callback_url)`
unfoldable pub enqueue_location : Env → AuthUser → SubmitLocation → Option Order → Exec (Unit {0})
enqueue_location env user dto none = pure tt
enqueue_location env user dto (some o) = elim (filled o.callback_url) [
  | none ↦ pure tt
  | some url ↦
      enqueue env
        (Job.location_callback user.user_id o.id url dto.lat dto.lng env.app_now user.owner_id)
]

unfoldable pub submit_location : Env → Distance → SubmitLocation → AuthUser → Exec LocationResponse
submit_location env distance dto user = do
  active ← gets (carried user)
  previous ← gets (λ d. find (is_position_of user.user_id) d.positions)
  modify λ d. record d { positions = upsert_position env user dto d.positions }
  modify λ d. record d {
    location_history =
        d.location_history
        ++ history_entry env user dto active (distance_from distance previous dto) ∷ [];
  }
  emit_location_updated env user.owner_id (record {
    courier_id = user.user_id;
    lat = dto.lat;
    lng = dto.lng;
    recorded_at = env.app_now;
    order_id = id_of active;
    distance_meters = distance_from distance previous dto;
  })
  enqueue_location env user dto active
  pure (record {
    courier_id = user.user_id;
    lat = dto.lat;
    lng = dto.lng;
    recorded_at = env.app_now;
    order_id = id_of active;
    distance_meters = distance_from distance previous dto;
  })

pub record RoutePoint : Type 0 where
  pub id : ℕ
  pub lat : ℤ
  pub lng : ℤ
  pub distance_meters : ℕ
  pub recorded_at : ℕ

abbrev pub to_point : CourierLocationHistory → RoutePoint
to_point p = record {
  id = p.id;
  lat = p.lat;
  lng = p.lng;
  distance_meters = p.distance_meters;
  recorded_at = p.recorded_at;
}

pub record RouteHistory : Type 0 where
  pub order_id : ℕ
  pub courier_id : Option ℕ
  pub total_distance_meters : ℕ
  pub points : List RoutePoint

-- `order.courier_id ?? (points[0]?.courier_id ?? '')`; `none` is the empty text.
abbrev pub courier_of_route : Option ℕ → List CourierLocationHistory → Option ℕ
courier_of_route (some c) ps = some c
courier_of_route none [] = none
courier_of_route none (p ∷ ps) = some p.courier_id

abbrev pub is_on_route : ℕ → CourierLocationHistory → Bool
is_on_route order p = holds p.order_id order

abbrev pub points_of : ℕ → Db → List CourierLocationHistory
points_of order d =
    sort (ascending (λ p. p.recorded_at)) (filter (is_on_route order) d.location_history)

unfoldable pub get_order_route : ℕ → ℕ → Exec RouteHistory
get_order_route order tenant = do
  o ←
      or_raise (← gets (λ d. find (is_order order tenant) d.orders))
        (HttpError.not_found Message.order_not_found)
  points ← gets (points_of order)
  pure (record {
    order_id = order;
    courier_id = courier_of_route o.courier_id points;
    total_distance_meters = sum_by (λ p. p.distance_meters) points;
    points = map to_point points;
  })
