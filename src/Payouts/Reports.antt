-- ===== src/Payouts/Reports.antt =====
-- src/payouts/payouts.service.ts: the summary of a period, the couriers still to be paid, and the
-- lists of periods, earnings and payouts.
use couriers_server_node.Entities.{OpenStatus, PayoutPeriod, Payout, CourierEarning, opened, closed}
use couriers_server_node.Http.{Message, HttpError}
use couriers_server_node.Pagination.Query.{Numeric, Page, paged}
use couriers_server_node.Payouts.Earnings.{day_ms, Group, aggregate_courier_earnings}
use couriers_server_node.Payouts.Service.{find_period_or_fail, is_payout_of}
use couriers_server_node.Prelude.{
  ◌==◌, filter, any, sort, descending, ℕ, ◌+◌, ◌*◌, Bool, true, not, ◌&&◌, Option, none, some, List,
  map,
}
use couriers_server_node.Shifts.Queries.{within}
use couriers_server_node.Shifts.Service.{is_opened}
use couriers_server_node.World.{Db, Exec, gets, raise_if, ◌>>=◌, ◌>>◌}

-- `paidCourierIds.has(courierId)`
abbrev pub is_paid_in : ℕ → Db → ℕ → Bool
is_paid_in period d courier = any (is_payout_of period courier) d.payouts

pub record SummaryItem : Type 0 where
  pub group : Group
  pub is_paid : Bool

unfoldable pub get_period_summary : ℕ → ℕ → Exec (PayoutPeriod × List SummaryItem)
get_period_summary owner id = do
  period ← find_period_or_fail owner id
  gets λ d. (
    period,
    map (λ (g : Group). record { group = g; is_paid = is_paid_in id d g.courier_id })
        (aggregate_courier_earnings owner period d),
  )

unfoldable pub get_pending_couriers : ℕ → ℕ → Exec (List Group)
get_pending_couriers owner id = do
  period ← find_period_or_fail owner id
  raise_if (is_opened period.status) (HttpError.conflict Message.period_not_closed)
  gets λ d.
      filter (λ g. not (is_paid_in id d g.courier_id)) (aggregate_courier_earnings owner period d)

abbrev pub has_status : Option OpenStatus → PayoutPeriod → Bool
has_status none p = true
has_status (some opened) p = is_opened p.status
has_status (some closed) p = not (is_opened p.status)

unfoldable pub list_periods :
    ℕ → Option Numeric → Option Numeric → Option OpenStatus → Db → Option (Page PayoutPeriod)
list_periods owner page limit status d = paged page limit (
    sort (descending (λ p. p.created_at))
      (filter (λ p. p.owner_id == owner && has_status status p) d.payout_periods))

abbrev pub last_ms : Option ℕ → Option ℕ
last_ms none = none
last_ms (some day) = some (day * day_ms + 86399999)

-- `to` names a day, and its last millisecond is the bound.
unfoldable pub get_courier_earnings :
    ℕ
    → ℕ
    → Option Numeric
    → Option Numeric
    → Option ℕ
    → Option ℕ
    → Db
    → Option (Page CourierEarning)
get_courier_earnings courier owner page limit from to_day d = paged page limit (
    sort (descending (λ e. e.earned_at)) (
      filter
        (λ e.
          e.courier_id == courier
          && (e.owner_id == owner && within from (last_ms to_day) e.earned_at))
        d.courier_earnings))

unfoldable pub get_courier_payouts :
    ℕ → ℕ → Option Numeric → Option Numeric → Db → Option (Page Payout)
get_courier_payouts courier owner page limit d = paged page limit (
    sort (descending (λ p. p.paid_at))
      (filter (λ p. p.courier_id == courier && p.owner_id == owner) d.payouts))
