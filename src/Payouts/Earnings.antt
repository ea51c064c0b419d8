-- ===== src/Payouts/Earnings.antt =====
-- src/payouts/payouts.service.ts: `aggregateCourierEarnings`, the earnings of a period for each
-- courier.
use couriers_server_node.Entities.{PayoutPeriod, CourierEarning}
use couriers_server_node.Prelude.{
  leb, ◌==◌, if◌then◌else◌, is_some, filter, find, sort, descending, ℕ, ◌+◌, ◌*◌, Bool, ◌&&◌, List,
  ◌∷◌, [],
}
use couriers_server_node.World.{Db}

abbrev pub day_ms : ℕ
day_ms = 86400000

-- From 00:00 of the first day to 23:59:59.999 of the last.
abbrev pub in_period : PayoutPeriod → ℕ → Bool
in_period p t = leb (p.start_date * day_ms) t && leb t (p.end_date * day_ms + 86399999)

-- The inner join with `couriers` keeps an earning whose courier is there.
abbrev pub counts_in : Db → ℕ → PayoutPeriod → CourierEarning → Bool
counts_in d owner p e =
    e.owner_id == owner
    && (in_period p e.earned_at && is_some (find (λ c. c.id == e.courier_id) d.couriers))

-- A group of `GROUP BY courier_id`: COUNT and SUM.
pub record Group : Type 0 where
  pub courier_id : ℕ
  pub delivery_count : ℕ
  pub total_amount : ℕ

unfoldable pub add_to_groups : CourierEarning → List Group → List Group
add_to_groups e [] =
    record { courier_id = e.courier_id; delivery_count = 1; total_amount = e.amount } ∷ []
add_to_groups e (g ∷ gs) =
    let rest = add_to_groups e gs in
    if g.courier_id == e.courier_id
    then record g {
      delivery_count = g.delivery_count + 1;
      total_amount = g.total_amount + e.amount;
    }
      ∷ gs
    else g ∷ rest

unfoldable pub group_by_courier : List CourierEarning → List Group
group_by_courier [] = []
group_by_courier (e ∷ es) = add_to_groups e (group_by_courier es)

-- The groups of a period, the largest sum first.
unfoldable pub aggregate_courier_earnings : ℕ → PayoutPeriod → Db → List Group
aggregate_courier_earnings owner p d =
    sort (descending (λ g. g.total_amount))
      (group_by_courier (filter (counts_in d owner p) d.courier_earnings))
