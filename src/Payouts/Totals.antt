-- ===== src/Payouts/Totals.antt =====
-- src/payouts/payouts.service.ts: the sums of a period against its earnings.
use couriers_server_node.Entities.{PayoutPeriod, CourierEarning, Courier}
use couriers_server_node.Payouts.Earnings.{
  counts_in, Group, add_to_groups, group_by_courier, aggregate_courier_earnings,
}
use couriers_server_node.Prelude.{
  leb, ◌==◌, ◌&&◌, is_some, if◌then◌else◌, filter, find, any, count, descending, sum_by,
  sum_by-sort, count-sort, ℕ, ◌+◌, ◌*◌, ◌/◌, ◌≤◌, max, ◌≡◌, refl, ap, ◌∙◌, Bool, List, ◌∷◌, arith,
  [],
}
use couriers_server_node.World.{Db}

-- The groups' keys, with the amount and the number of earnings that each group should have.
abbrev pub of_courier : ℕ → CourierEarning → Bool
of_courier c e = e.courier_id == c

abbrev pub amount_of : ℕ → CourierEarning → ℕ
amount_of c e = if of_courier c e then e.amount else 0

-- The group of a courier in a list of groups: its count and its sum, 0 where there is none.
abbrev pub counted : ℕ → Group → ℕ
counted c g = if g.courier_id == c then g.delivery_count else 0

abbrev pub totalled : ℕ → Group → ℕ
totalled c g = if g.courier_id == c then g.total_amount else 0

add-totalled :
    (c : ℕ) (e : CourierEarning) (gs : List Group)
    → sum_by (totalled c) (add_to_groups e gs) ≡ amount_of c e + sum_by (totalled c) gs
unfolding add_to_groups
add-totalled c e [] = ground arith
add-totalled c e (g ∷ gs) = ground (arith, add-totalled c e gs)

add-counted :
    (c : ℕ) (e : CourierEarning) (gs : List Group)
    → sum_by (counted c) (add_to_groups e gs)
      ≡ (if of_courier c e then 1 else 0) + sum_by (counted c) gs
unfolding add_to_groups
add-counted c e [] = ground arith
add-counted c e (g ∷ gs) = ground (arith, add-counted c e gs)

add-keys :
    (c : ℕ) (e : CourierEarning) (gs : List Group)
    → count (λ g. g.courier_id == c) (add_to_groups e gs) ≡ (
        if of_courier c e
        then max 1 (count (λ g. g.courier_id == c) gs)
        else count (λ g. g.courier_id == c) gs)
unfolding add_to_groups count
add-keys c e [] = ground arith
add-keys c e (g ∷ gs) = ground (arith, add-keys c e gs)

group-totalled :
    (c : ℕ) (es : List CourierEarning)
    → sum_by (totalled c) (group_by_courier es) ≡ sum_by (amount_of c) es
unfolding group_by_courier
group-totalled c [] = refl
group-totalled c (e ∷ es) =
    omega (arith, add-totalled c e (group_by_courier es), group-totalled c es)

group-counted :
    (c : ℕ) (es : List CourierEarning)
    → sum_by (counted c) (group_by_courier es) ≡ count (of_courier c) es
unfolding group_by_courier count
group-counted c [] = refl
group-counted c (e ∷ es) = ground (arith, add-counted c e (group_by_courier es), group-counted c es)

group-keys :
    (c : ℕ) (es : List CourierEarning) → count (λ g. g.courier_id == c) (group_by_courier es) ≤ 1
unfolding group_by_courier
group-keys c [] = unfold count in omega arith
group-keys c (e ∷ es) = ground (arith, add-keys c e (group_by_courier es), group-keys c es)

-- An earning is of a period if its day is from the first to the last, both included, and it is the
-- tenant's and of a courier who has a row.
abbrev pub falls_in : Db → ℕ → PayoutPeriod → CourierEarning → Bool
falls_in d owner p e =
    let day = e.earned_at / 86400000 in
    (leb p.start_date day && leb day p.end_date)
    && (e.owner_id == owner && any (λ c. c.id == e.courier_id) d.couriers)

abbrev pub earnings_in : ℕ → PayoutPeriod → Db → List CourierEarning
earnings_in owner p d = filter (falls_in d owner p) d.courier_earnings

first_day : (start t : ℕ) → leb (start * 86400000) t ≡ leb start (t / 86400000)
first_day start t = ground arith

last_day : (finish t : ℕ) → leb t (finish * 86400000 + 86399999) ≡ leb (t / 86400000) finish
last_day finish t = ground arith

joined_any :
    (courier : ℕ) (cs : List Courier)
    → is_some (find (λ c. c.id == courier) cs) ≡ any (λ c. c.id == courier) cs
unfolding find any
joined_any courier [] = refl
joined_any courier (c ∷ cs) = ground (arith, joined_any courier cs)

counts_in_lem :
    (d : Db) (owner : ℕ) (p : PayoutPeriod) (e : CourierEarning)
    → counts_in d owner p e ≡ falls_in d owner p e
counts_in_lem d owner p e =
    rw
      (
        first_day p.start_date e.earned_at,
        last_day p.end_date e.earned_at,
        joined_any e.courier_id d.couriers,
      )
      (ground arith)

-- The query selects the earnings of the period.
selected_lem :
    (d : Db) (owner : ℕ) (p : PayoutPeriod) (es : List CourierEarning)
    → filter (counts_in d owner p) es ≡ filter (falls_in d owner p) es
unfolding filter
selected_lem d owner p [] = refl
selected_lem d owner p (e ∷ es) = rw (counts_in_lem d owner p e, selected_lem d owner p es) refl

-- In the aggregate of a period each courier has at most one row; its count is the number of the
-- courier's earnings on the days of the period, the first and the last included, and its sum is the
-- sum of their amounts, both 0 where the courier has no row.
pub aggregate_accounts :
    (owner : ℕ) (p : PayoutPeriod) (d : Db) (c : ℕ)
    → let groups = aggregate_courier_earnings owner p d in
      (count (λ g. g.courier_id == c) groups ≤ 1)
      × (sum_by (counted c) groups ≡ count (of_courier c) (earnings_in owner p d))
      × (sum_by (totalled c) groups ≡ sum_by (amount_of c) (earnings_in owner p d))
unfolding aggregate_courier_earnings
aggregate_accounts owner p d c =
    let es = filter (counts_in d owner p) d.courier_earnings in
    let s = selected_lem d owner p d.courier_earnings in
    let order = descending (λ (g : Group). g.total_amount) in
    (
      rw (count-sort order (λ g. g.courier_id == c) (group_by_courier es)) (group-keys c es),
      sum_by-sort order (counted c) (group_by_courier es)
          ∙ group-counted c es
          ∙ ap (count (of_courier c)) s,
      sum_by-sort order (totalled c) (group_by_courier es)
          ∙ group-totalled c es
          ∙ ap (sum_by (amount_of c)) s,
    )
