-- ===== src/Tracking/Tests.antt =====
-- src/couriers/courier-tracking.service.ts: locations submitted on the sample.
use couriers_server_node.Entities.{CourierPosition}
use couriers_server_node.Http.{ok}
use couriers_server_node.Lifecycle.Rules.{is_order}
use couriers_server_node.Prelude.{
  if◌then◌else◌, holds, find, count, any, ℕ, ◌+◌, ◌≤◌, ◌≡◌, refl, some, ◌∷◌, arith, [],
}
use couriers_server_node.Prelude.Int.{ℤ}
use couriers_server_node.Samples.{env, boris, order_on_way, world}
use couriers_server_node.Tracking.Route.{meters, submit_location-position, get_order_route-submit}
use couriers_server_node.Tracking.Service.{
  SubmitLocation, Distance, carried, id_of, is_position_of, upsert_position, history_entry,
  enqueue_location, submit_location, RouteHistory, get_order_route,
}
use couriers_server_node.World.{World}

abbrev here_now : SubmitLocation
here_now = record { lat = ℤ.pos 5; lng = ℤ.pos 6 }

abbrev flat : Distance
flat a b c d = 70

abbrev once_seen : World
once_seen = (submit_location env flat here_now boris world).1

first_is_zero :
    once_seen.db.location_history ≡ history_entry env boris here_now (some order_on_way) 0 ∷ []
unfolding submit_location enqueue_location find any upsert_position
first_is_zero = refl

one_position : (c : ℕ) → count (is_position_of c) world.db.positions ≤ 1
unfolding count
one_position c = omega arith

submit_location-position_example :
    ((c : ℕ) → count (is_position_of c) once_seen.db.positions ≤ 1)
    × ((p : CourierPosition) × (find (is_position_of 21) once_seen.db.positions ≡ some p)
        × (p.lat ≡ ℤ.pos 5)
        × (p.lng ≡ ℤ.pos 6)
        × (p.recorded_at ≡ 1000001))
submit_location-position_example =
    submit_location-position env flat here_now boris world one_position

order_found : find (is_order 102 1) once_seen.db.orders ≡ some order_on_way
unfolding submit_location enqueue_location find any upsert_position
order_found = refl

get_order_route-submit_example :
    (r r' : RouteHistory) × ((get_order_route 102 1 once_seen).0 ≡ ok r)
    × ((get_order_route 102 1 (submit_location env flat here_now boris once_seen).1).0 ≡ ok r')
    × (r'.total_distance_meters
        ≡ r.total_distance_meters
          + (if holds (id_of (carried boris once_seen.db)) 102
              then env.round_meters (meters flat here_now boris once_seen.db)
              else 0))
get_order_route-submit_example =
    get_order_route-submit env flat here_now boris once_seen 102 1 order_on_way order_found
