-- ===== src/Tracking/History.antt =====
-- src/couriers/courier-tracking.service.ts: `getRouteHistoryList`.
use couriers_server_node.Entities.{CourierLocationHistory}
use couriers_server_node.Pagination.Query.{total_pages, Page}
use couriers_server_node.Payouts.Earnings.{day_ms}
use couriers_server_node.Prelude.{
  ◌==◌, if◌then◌else◌, holds, take, drop, filter, find, count, any, sort, descending, sum_by, ℕ,
  suc, ◌-◌, ◌*◌, ◌/◌, min, String, Bool, true, false, ◌&&◌, Option, none, some, List, ◌∷◌, [],
}
use couriers_server_node.Shifts.Queries.{within}
use couriers_server_node.World.{Db}

pub record HistoryFilters : Type 0 where
  pub courier_id : Option ℕ
  pub order_id : Option ℕ
  pub from : Option ℕ
  pub to : Option ℕ

abbrev pub wanted : Option ℕ → ℕ → Bool
wanted none id = true
wanted (some x) id = x == id

abbrev pub order_wanted : Option ℕ → Option ℕ → Bool
order_wanted asked none = false
order_wanted asked (some id) = wanted asked id

-- The conditions of both queries, with `h.order_id IS NOT NULL`.
abbrev pub is_listed : ℕ → HistoryFilters → CourierLocationHistory → Bool
is_listed owner f h =
    h.owner_id == owner
    && (wanted f.courier_id h.courier_id
        && (order_wanted f.order_id h.order_id && within f.from f.to h.recorded_at))

-- The key of `GROUP BY h.order_id, h.courier_id`.
abbrev pub same_delivery : CourierLocationHistory → CourierLocationHistory → Bool
same_delivery a b =
    a.courier_id == b.courier_id && elim b.order_id [ none ↦ false | some o ↦ holds a.order_id o ]

-- `COUNT(DISTINCT (h.order_id, h.courier_id))`
unfoldable pub distinct_deliveries : List CourierLocationHistory → ℕ
distinct_deliveries [] = 0
distinct_deliveries (h ∷ hs) =
    let rest = distinct_deliveries hs in if any (same_delivery h) hs then rest else suc rest

pub record RouteHistoryItem : Type 0 where
  pub order_id : ℕ
  pub courier_id : ℕ
  pub first_name : String
  pub last_name : String
  pub order_number : String
  pub total_distance_meters : ℕ
  pub recorded_date : ℕ
  pub point_count : ℕ

-- `MIN(h.recorded_at)`, from the time of a row of the group.
unfoldable pub earliest : ℕ → List CourierLocationHistory → ℕ
earliest t [] = t
earliest t (h ∷ hs) = min h.recorded_at (earliest t hs)

-- One row of the answer; the joins drop a group whose courier or order is not there.
abbrev pub delivery_row :
    Db → List CourierLocationHistory → CourierLocationHistory → Option RouteHistoryItem
delivery_row d rows h = elim h.order_id [
  | none ↦ none
  | some order ↦ elim (find (λ c. c.id == h.courier_id) d.couriers) [
    | none ↦ none
    | some c ↦ elim (find (λ o. o.id == order) d.orders) [
      | none ↦ none
      | some o ↦ some (record {
        order_id = order;
        courier_id = h.courier_id;
        first_name = c.first_name;
        last_name = c.last_name;
        order_number = o.order_number;
        total_distance_meters = sum_by (λ p. p.distance_meters) (filter (same_delivery h) rows);
        recorded_date = earliest h.recorded_at (filter (same_delivery h) rows) / day_ms;
        point_count = count (same_delivery h) rows;
      })
    ]
  ]
]

-- A group for the last row of each key.
unfoldable pub delivery_rows :
    Db → List CourierLocationHistory → List CourierLocationHistory → List RouteHistoryItem
delivery_rows d rows [] = []
delivery_rows d rows (h ∷ hs) =
    let rest = delivery_rows d rows hs in
    if any (same_delivery h) hs
    then rest
    else elim (delivery_row d rows h) [ none ↦ rest | some r ↦ r ∷ rest ]

-- For a page and a limit of at least 1, which this endpoint does not clamp.
unfoldable pub get_route_history_list :
    ℕ → (page limit : ℕ) → HistoryFilters → Db → Page RouteHistoryItem
get_route_history_list owner page limit f d =
    let rows = filter (is_listed owner f) d.location_history in
    let total = distinct_deliveries rows in
    let groups = sort (descending (λ g. g.recorded_date)) (delivery_rows d rows rows) in
    record {
      rows = take limit (drop ((page - 1) * limit) groups);
      meta = record {
        total = total;
        page = page;
        limit = limit;
        total_pages = total_pages total limit;
      };
    }
