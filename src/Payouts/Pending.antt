-- ===== src/Payouts/Pending.antt =====
-- src/payouts/payouts.service.ts: the couriers still to be paid, against the summary and the records.
use couriers_server_node.Entities.{PayoutPeriod, Payout, closed}
use couriers_server_node.Http.{ok}
use couriers_server_node.Payouts.Earnings.{Group, aggregate_courier_earnings}
use couriers_server_node.Payouts.Ledger.{period_of, CanRecord, recorded_db, record_payout-db}
use couriers_server_node.Payouts.Reports.{
  is_paid_in, SummaryItem, get_period_summary, get_pending_couriers,
}
use couriers_server_node.Payouts.Service.{
  CreatePayout, find_period_or_fail, is_payout_of, new_payout, stored_payout, record_payout,
}
use couriers_server_node.Prelude.{
  ◌==◌, filter, any_concat, ℕ, ◌≡◌, refl, sym, ap, subst, ◌∙◌, inl, inr, not, some, List, ◌∷◌, map,
  arith, [],
}
use couriers_server_node.World.{Db, World, Env}

-- The list of the couriers still to be paid is the period's summary without the rows marked paid.
unpaid_of :
    (period : ℕ) (d : Db) (gs : List Group)
    → filter (λ g. not (is_paid_in period d g.courier_id)) gs
      ≡ map
          (λ (i : SummaryItem). i.group)
          (filter
            (λ (i : SummaryItem). not i.is_paid)
            (map
              (λ (g : Group). record { group = g; is_paid = is_paid_in period d g.courier_id })
              gs))
unfolding filter
unpaid_of period d [] = refl
unpaid_of period d (g ∷ gs) = ground (arith, unpaid_of period d gs)

without_paid :
    (env : Env) (owner id : ℕ) (dto : CreatePayout) (d : Db) (gs : List Group)
    → filter (λ g. not (is_paid_in id (recorded_db env owner id dto d) g.courier_id)) gs
      ≡ filter
          (λ g. not (g.courier_id == dto.courier_id))
          (filter (λ g. not (is_paid_in id d g.courier_id)) gs)
unfolding filter
without_paid env owner id dto d [] = refl
without_paid env owner id dto d (g ∷ gs) =
    let c =
      any_concat (is_payout_of id g.courier_id) d.payouts
        (stored_payout env (new_payout env owner id dto)) in
    let r = without_paid env owner id dto d gs in ground (arith, c, r)

get_pending_couriers_of :
    (owner id : ℕ) (w : World) (p : PayoutPeriod)
    → period_of w.db id owner ≡ some p
    → p.status ≡ closed
    → (get_pending_couriers owner id w).0
      ≡ ok (
          filter
            (λ g. not (is_paid_in id w.db g.courier_id))
            (aggregate_courier_earnings owner p w.db))
unfolding get_pending_couriers find_period_or_fail
get_pending_couriers_of owner id w p e c = ground arith

get_period_summary_of :
    (owner id : ℕ) (w : World) (p : PayoutPeriod)
    → period_of w.db id owner ≡ some p
    → (get_period_summary owner id w).0
      ≡ ok (
        p,
        map
            (λ (g : Group). record { group = g; is_paid = is_paid_in id w.db g.courier_id })
            (aggregate_courier_earnings owner p w.db),
      )
unfolding get_period_summary find_period_or_fail
get_period_summary_of owner id w p e = ground arith

-- Of a closed period, `getPendingCouriers` answers the rows of `getPeriodSummary` that are not
-- marked as paid, without the mark and in the same order.
pub pending-summary :
    (owner id : ℕ) (w : World) (p : PayoutPeriod)
    → period_of w.db id owner ≡ some p
    → p.status ≡ closed
    → (items : List SummaryItem) × ((get_period_summary owner id w).0 ≡ ok (p, items))
      × ((get_pending_couriers owner id w).0
          ≡ ok (
              map
                (λ (i : SummaryItem). i.group)
                (filter (λ (i : SummaryItem). not i.is_paid) items)))
pending-summary owner id w p e c =
    let gs = aggregate_courier_earnings owner p w.db in
    (
      map (λ (g : Group). record { group = g; is_paid = is_paid_in id w.db g.courier_id }) gs,
      get_period_summary_of owner id w p e,
      get_pending_couriers_of owner id w p e c ∙ ap (λ gs. ok gs) (unpaid_of id w.db gs),
    )

pending_after :
    (env : Env) (owner id : ℕ) (dto : CreatePayout) (w : World) (p : PayoutPeriod)
    → CanRecord w.db owner id dto p
    → (get_pending_couriers owner id (record w { db = recorded_db env owner id dto w.db })).0
      ≡ ok (
          filter
            (λ g. not (is_paid_in id (recorded_db env owner id dto w.db) g.courier_id))
            (aggregate_courier_earnings owner p w.db))
unfolding aggregate_courier_earnings
pending_after env owner id dto w p c =
    get_pending_couriers_of owner id (record w { db = recorded_db env owner id dto w.db }) p c.found
      c.is_closed

-- When `recordPayout` succeeds, the list of the couriers still to be paid in that period is the
-- list before without the courier paid, in the same order.
pub pending-record :
    (env : Env) (owner id : ℕ) (dto : CreatePayout) (w : World) (payout : Payout)
    → (record_payout env owner id dto w).0 ≡ ok payout
    → (gs : List Group) × ((get_pending_couriers owner id w).0 ≡ ok gs)
      × ((get_pending_couriers owner id (record_payout env owner id dto w).1).0
          ≡ ok (filter (λ g. not (g.courier_id == dto.courier_id)) gs))
pending-record env owner id dto w payout s = elim (record_payout-db env owner id dto w) [
  | inl (e, f) ↦ absurd (cc)
  | inr (p, c, e) ↦
      let gs = aggregate_courier_earnings owner p w.db in
      (
        filter (λ g. not (is_paid_in id w.db g.courier_id)) gs,
        get_pending_couriers_of owner id w p c.found c.is_closed,
        subst
            (λ v.
              (get_pending_couriers owner id v.1).0
              ≡ ok (
                  filter (λ g. not (g.courier_id == dto.courier_id))
                    (filter (λ g. not (is_paid_in id w.db g.courier_id)) gs)))
            (sym e)
            (pending_after env owner id dto w p c
              ∙ ap (λ gs. ok gs) (without_paid env owner id dto w.db gs)),
      )
]
