-- ===== src/Shifts/Queries.antt =====
-- src/couriers/shift-management.service.ts: the queries on shifts.
use couriers_server_node.Entities.{AuthUser, CourierShift, opened, closed}
use couriers_server_node.Http.{Message, HttpError}
use couriers_server_node.Lifecycle.Rules.{is_open_shift, is_active_order}
use couriers_server_node.Pagination.Query.{Numeric, Meta, paged}
use couriers_server_node.Prelude.{
  leb, ◌==◌, filter, find, count, sort, ascending, descending, ℕ, String, Bool, true, ◌&&◌, Option,
  none, some, List, ◌∷◌, map, [],
}
use couriers_server_node.Prelude.Int.{ℤ}
use couriers_server_node.Shifts.Service.{
  round_minutes, ShiftResponse, shift_to_dto, is_opened, is_courier,
}
use couriers_server_node.World.{Db, Env, Exec, gets, or_raise, ◌>>=◌, ◌>>◌}

unfoldable pub get_current_shift : AuthUser → Db → Option ShiftResponse
get_current_shift user d = elim (find (is_open_shift user) d.shifts) [
  | none ↦ none
  | some s ↦ some (shift_to_dto s none)
]

pub record ShiftHistoryQuery : Type 0 where
  pub page : Option Numeric
  pub limit : Option Numeric
  pub from : Option ℕ
  pub to : Option ℕ

-- `if (query.from) qb.andWhere(column >= from)`, and the same for `to`.
abbrev pub within : Option ℕ → Option ℕ → ℕ → Bool
within none none t = true
within none (some b) t = leb t b
within (some a) none t = leb a t
within (some a) (some b) t = leb a t && leb t b

abbrev pub is_shift_between : ℕ → ℕ → ShiftHistoryQuery → CourierShift → Bool
is_shift_between courier owner q s =
    s.courier_id == courier && (s.owner_id == owner && within q.from q.to s.started_at)

-- The completed orders of a closed shift.
abbrev pub order_count_of : ℕ → Db → CourierShift → Option ℕ
order_count_of courier d s = elim s.status [
  | opened ↦ none
  | closed ↦ elim s.ended_at [
    | none ↦ none
    | some e ↦ some (
        count
          (λ ce. ce.courier_id == courier && (leb s.started_at ce.earned_at && leb ce.earned_at e))
          d.courier_earnings)
  ]
]

pub record PaginatedShifts : Type 0 where
  pub shifts : List ShiftResponse
  pub meta : Meta

unfoldable pub query_shift_history : ℕ → ℕ → ShiftHistoryQuery → Db → Option PaginatedShifts
query_shift_history courier owner q d =
    let found =
      sort (descending (λ s. s.started_at)) (filter (is_shift_between courier owner q) d.shifts) in
    elim (paged q.page q.limit found) [
      | none ↦ none
      | some page ↦ some (record {
        shifts = map (λ s. shift_to_dto s (order_count_of courier d s)) page.rows;
        meta = page.meta;
      })
    ]

unfoldable pub get_own_shift_history : AuthUser → ShiftHistoryQuery → Exec (Option PaginatedShifts)
get_own_shift_history user q = gets (query_shift_history user.user_id user.owner_id q)

unfoldable pub get_courier_shifts : ℕ → ℕ → ShiftHistoryQuery → Exec (Option PaginatedShifts)
get_courier_shifts courier owner q = do
  or_raise (← gets (λ d. find (is_courier courier owner) d.couriers))
      (HttpError.not_found Message.courier_not_found)
  gets (query_shift_history courier owner q)

pub record ActiveShiftItem : Type 0 where
  pub id : ℕ
  pub courier_id : ℕ
  pub first_name : String
  pub last_name : String
  pub started_at : ℕ
  pub elapsed_minutes : ℤ
  pub active_order_count : ℕ

-- The inner join with the courier drops a shift whose courier is not there.
unfoldable pub active_items : Env → ℕ → Db → List CourierShift → List ActiveShiftItem
active_items env owner d [] = []
active_items env owner d (s ∷ ss) = elim (find (λ c. c.id == s.courier_id) d.couriers) [
  | none ↦ active_items env owner d ss
  | some c ↦
      record {
        id = s.id;
        courier_id = s.courier_id;
        first_name = c.first_name;
        last_name = c.last_name;
        started_at = s.started_at;
        elapsed_minutes = round_minutes s.started_at env.app_now;
        active_order_count = count (is_active_order s.courier_id owner) d.orders;
      }
      ∷ active_items env owner d ss
]

unfoldable pub get_active_shifts : Env → ℕ → Db → List ActiveShiftItem
get_active_shifts env owner d = active_items env owner d (
    sort (ascending (λ s. s.started_at))
      (filter (λ s. s.owner_id == owner && is_opened s.status) d.shifts))
