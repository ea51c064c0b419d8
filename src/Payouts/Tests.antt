-- ===== src/Payouts/Tests.antt =====
-- src/payouts/payouts.service.ts: the payout requests, run on the sample.
use couriers_server_node.Entities.{PayoutPeriod, CourierEarning}
use couriers_server_node.Http.{Message, HttpError, ok, err}
use couriers_server_node.Payouts.Earnings.{Group, aggregate_courier_earnings}
use couriers_server_node.Payouts.Ledger.{
  handle_payout, period_of, IsSound, CanRecord, recorded_db, record_payout-db,
  handle_payout-IsSound, records,
}
use couriers_server_node.Payouts.Pending.{pending-summary, pending-record}
use couriers_server_node.Payouts.Reports.{SummaryItem, get_period_summary, get_pending_couriers}
use couriers_server_node.Payouts.Service.{
  CreatePayout, find_period_or_fail, new_payout, insert_payout, record_payout,
}
use couriers_server_node.Payouts.Totals.{
  of_courier, amount_of, counted, totalled, earnings_in, aggregate_accounts,
}
use couriers_server_node.Prelude.{
  ◌==◌, filter, find, count, any, sum_by, ℕ, ◌≤◌, ◌≡◌, refl, ◌⊎◌, not, none, some, List, ◌∷◌, map,
  arith, [],
}
use couriers_server_node.Samples.{env, closed_month, db, world}
use couriers_server_node.World.{World, catch_unique}

abbrev pay_anna : CreatePayout
pay_anna = record { courier_id = 20; amount = 900; reference_note = none }

payment_recorded : (record_payout env 1 7 pay_anna world).0 ≡ ok (new_payout env 1 7 pay_anna)
unfolding record_payout find_period_or_fail insert_payout catch_unique find any
payment_recorded = refl

second_payment_refused :
    (record_payout env 1 7 pay_anna (record_payout env 1 7 pay_anna world).1).0
    ≡ err (HttpError.conflict Message.courier_already_paid)
unfolding record_payout find_period_or_fail insert_payout catch_unique find any
second_payment_refused = refl

sample-IsSound : IsSound db
unfolding count
sample-IsSound = record {
  once = λ period courier. omega arith;
  backed = tt;
  dated = (omega arith, tt);
}

handle_payout-IsSound_example : IsSound (handle_payout env (records 1 7 pay_anna) world).db
handle_payout-IsSound_example =
    handle_payout-IsSound env (records 1 7 pay_anna) world sample-IsSound

abbrev earned : ℕ → ℕ → ℕ → CourierEarning
earned id rider amount = record {
  id = id;
  owner_id = 1;
  courier_id = rider;
  order_id = id;
  amount = amount;
  earned_at = 5000;
  created_at = 5000;
}

abbrev paid_world : World
paid_world = record world {
  db = record db { courier_earnings = earned 1 20 250 ∷ earned 2 21 300 ∷ earned 3 20 100 ∷ [] };
}

period_found : period_of paid_world.db 7 1 ≡ some closed_month
unfolding find
period_found = refl

pending-summary_example :
    (items : List SummaryItem) × ((get_period_summary 1 7 paid_world).0 ≡ ok (closed_month, items))
    × ((get_pending_couriers 1 7 paid_world).0
        ≡ ok (
            map (λ (i : SummaryItem). i.group) (filter (λ (i : SummaryItem). not i.is_paid) items)))
pending-summary_example = pending-summary 1 7 paid_world closed_month period_found refl

payment_succeeds : (record_payout env 1 7 pay_anna paid_world).0 ≡ ok (new_payout env 1 7 pay_anna)
unfolding record_payout find_period_or_fail insert_payout catch_unique find any
payment_succeeds = refl

pending-record_example :
    (gs : List Group) × ((get_pending_couriers 1 7 paid_world).0 ≡ ok gs)
    × ((get_pending_couriers 1 7 (record_payout env 1 7 pay_anna paid_world).1).0
        ≡ ok (filter (λ g. not (g.courier_id == 20)) gs))
pending-record_example =
    pending-record env 1 7 pay_anna paid_world (new_payout env 1 7 pay_anna) payment_succeeds

aggregate_accounts_example :
    let groups = aggregate_courier_earnings 1 closed_month paid_world.db in
    (count (λ g. g.courier_id == 20) groups ≤ 1)
    × (sum_by (counted 20) groups
        ≡ count (of_courier 20) (earnings_in 1 closed_month paid_world.db))
    × (sum_by (totalled 20) groups
        ≡ sum_by (amount_of 20) (earnings_in 1 closed_month paid_world.db))
aggregate_accounts_example = aggregate_accounts 1 closed_month paid_world.db 20

record_payout-db_example :
    (((record_payout env 1 7 pay_anna world).1 ≡ world)
      × ((e : HttpError) × ((record_payout env 1 7 pay_anna world).0 ≡ err e)))
    ⊎ ((p : PayoutPeriod) × CanRecord world.db 1 7 pay_anna p
        × (record_payout env 1 7 pay_anna world ≡ (
          ok (new_payout env 1 7 pay_anna),
          record world { db = recorded_db env 1 7 pay_anna world.db },
        )))
record_payout-db_example = record_payout-db env 1 7 pay_anna world
