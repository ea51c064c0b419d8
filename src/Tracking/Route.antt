-- ===== src/Tracking/Route.antt =====
-- src/couriers/courier-tracking.service.ts: what a submitted location does to the position of the
-- courier and to the route of the order.
use couriers_server_node.Entities.{AuthUser, CourierPosition, CourierLocationHistory, Order}
use couriers_server_node.Http.{ok}
use couriers_server_node.Lifecycle.Calls.{filled}
use couriers_server_node.Lifecycle.Rules.{is_order}
use couriers_server_node.Prelude.{
  if◌then◌else◌, ==_refl, holds, Bool-cases, Option-cases, filter, find, count, update, any,
  ascending, sum_by, sum_by-sort, find_holds, find-update, any-count, count-update, count_concat,
  none-any-find, find_concat, ℕ, ◌+◌, ◌≤◌, ◌≡◌, refl, ◌∙◌, inl, inr, true, false, some, List, ◌∷◌,
  ◌++◌, map, arith, [],
}
use couriers_server_node.Tracking.Service.{
  SubmitLocation, Distance, carried, id_of, is_position_of, distance_from, new_position,
  moved_position, upsert_position, history_entry, enqueue_location, submit_location, to_point,
  RouteHistory, courier_of_route, is_on_route, points_of, get_order_route,
}
use couriers_server_node.World.{Db, World, Env}

abbrev pub meters : Distance → SubmitLocation → AuthUser → Db → ℕ
meters distance dto user d =
    distance_from distance (find (is_position_of user.user_id) d.positions) dto

abbrev pub located_db : Env → Distance → SubmitLocation → AuthUser → Db → Db
located_db env distance dto user d = record d {
  positions = upsert_position env user dto d.positions;
  location_history =
      d.location_history
      ++ history_entry env user dto (carried user d) (meters distance dto user d) ∷ [];
}

pub submit_location-db :
    (env : Env) (distance : Distance) (dto : SubmitLocation) (user : AuthUser) (w : World)
    → (submit_location env distance dto user w).1.db ≡ located_db env distance dto user w.db
unfolding submit_location enqueue_location
submit_location-db env distance dto user w = elim (Option-cases (carried user w.db)) [
  | inl e ↦ ground arith
  | inr (o, e) ↦ elim (Option-cases (filled o.callback_url)) [
    | inl f ↦ ground arith
    | inr (url, f) ↦ ground arith
  ]
]

upsert_position_taken :
    (env : Env) (user : AuthUser) (dto : SubmitLocation) (ps : List CourierPosition)
    → any (is_position_of user.user_id) ps ≡ true
    → upsert_position env user dto ps
      ≡ update (is_position_of user.user_id) (moved_position env dto) ps
unfolding upsert_position
upsert_position_taken env user dto ps e = ground arith

upsert_position_free :
    (env : Env) (user : AuthUser) (dto : SubmitLocation) (ps : List CourierPosition)
    → any (is_position_of user.user_id) ps ≡ false
    → upsert_position env user dto ps ≡ ps ++ new_position env user dto ∷ []
unfolding upsert_position
upsert_position_free env user dto ps e = ground arith

-- Whether there is a row, and what it says, after the upsert.
upsert-found :
    (env : Env) (user : AuthUser) (dto : SubmitLocation) (ps : List CourierPosition)
    → (p : CourierPosition) × (find (is_position_of user.user_id) (upsert_position env user dto ps)
        ≡ some p)
      × (p.lat ≡ env.round_coordinate dto.lat)
      × (p.lng ≡ env.round_coordinate dto.lng)
      × (p.recorded_at ≡ env.app_now)
upsert-found env user dto ps = elim (Bool-cases (any (is_position_of user.user_id) ps)) [
  | inl e ↦ elim (Option-cases (find (is_position_of user.user_id) ps)) [
    | inl n ↦ absurd (let z = none-any-find (is_position_of user.user_id) ps n in cc)
    | inr (p, f) ↦
        let h = find_holds (is_position_of user.user_id) ps p f in
        let u =
          find-update (is_position_of user.user_id) (is_position_of user.user_id)
            (moved_position env dto) ps (λ x. refl) in
        (
          moved_position env dto p,
          rw (upsert_position_taken env user dto ps e) (u ∙ rw (f, h) refl),
          refl,
          refl,
          refl,
        )
  ]
  | inr e ↦ (
    new_position env user dto,
    rw (upsert_position_free env user dto ps e) (
        find_concat (is_position_of user.user_id) ps (new_position env user dto) e
          (==_refl user.user_id)),
    refl,
    refl,
    refl,
  )
]

pub upsert-count :
    (env : Env) (user : AuthUser) (dto : SubmitLocation) (ps : List CourierPosition)
    → ((c : ℕ) → count (is_position_of c) ps ≤ 1)
    → (c : ℕ) → count (is_position_of c) (upsert_position env user dto ps) ≤ 1
upsert-count env user dto ps h c = elim (Bool-cases (any (is_position_of user.user_id) ps)) [
  | inl e ↦
      rw
        (
          upsert_position_taken env user dto ps e,
          count-update (is_position_of c) (is_position_of user.user_id) (moved_position env dto) ps
              (λ x. refl),
        )
        (h c)
  | inr e ↦
      let z = any-count (is_position_of user.user_id) ps e in
      let k = count_concat (is_position_of c) ps (new_position env user dto) in
      rw (upsert_position_free env user dto ps e) (ground (arith, z, k, h c))
]

-- After a location is submitted, whether or not its callback can be queued, the courier has one
-- position, the one submitted, to the places of its columns, at the time of the request; no courier has two, if none had before.
pub submit_location-position :
    (env : Env) (distance : Distance) (dto : SubmitLocation) (user : AuthUser) (w : World)
    → ((c : ℕ) → count (is_position_of c) w.db.positions ≤ 1)
    → let d = (submit_location env distance dto user w).1.db in
      ((c : ℕ) → count (is_position_of c) d.positions ≤ 1)
      × ((p : CourierPosition) × (find (is_position_of user.user_id) d.positions ≡ some p)
          × (p.lat ≡ env.round_coordinate dto.lat)
          × (p.lng ≡ env.round_coordinate dto.lng)
          × (p.recorded_at ≡ env.app_now))
submit_location-position env distance dto user w h =
    rw (submit_location-db env distance dto user w)
      (upsert-count env user dto w.db.positions h, upsert-found env user dto w.db.positions)

-- The length of an order's route, as its history has it.
abbrev route_length : ℕ → List CourierLocationHistory → ℕ
route_length order hs = sum_by (λ p. p.distance_meters) (filter (is_on_route order) hs)

route_length-concat :
    (order : ℕ) (hs : List CourierLocationHistory) (h : CourierLocationHistory)
    → route_length order (hs ++ h ∷ [])
      ≡ route_length order hs + (if is_on_route order h then h.distance_meters else 0)
unfolding filter
route_length-concat order [] h = ground arith
route_length-concat order (x ∷ hs) h = ground (arith, route_length-concat order hs h)

route_of :
    (order tenant : ℕ) (o : Order) (w : World)
    → find (is_order order tenant) w.db.orders ≡ some o
    → (r : RouteHistory) × ((get_order_route order tenant w).0 ≡ ok r)
      × (r.total_distance_meters ≡ route_length order w.db.location_history)
unfolding get_order_route
route_of order tenant o w e =
    let ps = points_of order w.db in
    (
      record {
        order_id = order;
        courier_id = courier_of_route o.courier_id ps;
        total_distance_meters = sum_by (λ p. p.distance_meters) ps;
        points = map to_point ps;
      },
      ground arith,
      sum_by-sort (ascending (λ p. p.recorded_at)) (λ p. p.distance_meters)
          (filter (is_on_route order) w.db.location_history),
    )

-- The route of an order of the tenant is, after a location is submitted, longer by the distance from
-- the courier's last position, to the places of its column, if that is the order under way that the query found for the courier,
-- and as long as before if it is not.
pub get_order_route-submit :
    (env : Env) (distance : Distance) (dto : SubmitLocation) (user : AuthUser) (w : World)
    (order tenant : ℕ) (o : Order)
    → find (is_order order tenant) w.db.orders ≡ some o
    → (r r' : RouteHistory) × ((get_order_route order tenant w).0 ≡ ok r)
      × ((get_order_route order tenant (submit_location env distance dto user w).1).0 ≡ ok r')
      × (r'.total_distance_meters
          ≡ r.total_distance_meters
            + (if holds (id_of (carried user w.db)) order
                then env.round_meters (meters distance dto user w.db)
                else 0))
get_order_route-submit env distance dto user w order tenant o e =
    let w' = (submit_location env distance dto user w).1 in
    let f = submit_location-db env distance dto user w in
    let a = route_of order tenant o w e in
    let b = route_of order tenant o w' (rw f e) in
    let h = history_entry env user dto (carried user w.db) (meters distance dto user w.db) in
    let s : route_length order w'.db.location_history
        ≡ route_length order (w.db.location_history ++ h ∷ []) =
      rw f refl in
    let l = route_length-concat order w.db.location_history h in
    (a.0, b.0, a.1, b.1, b.2 ∙ s ∙ l ∙ rw (a.2) refl)
