-- ===== src/Payouts/Service.antt =====
-- src/payouts/payouts.service.ts: `createPeriod`, `closePeriod` and `recordPayout`.
use couriers_server_node.Entities.{AuthUser, PayoutPeriod, Payout, opened, closed}
use couriers_server_node.Http.{Message, HttpError}
use couriers_server_node.Prelude.{
  ltb, ◌==◌, find, update, any, ℕ, String, Bool, not, ◌&&◌, Option, ◌∷◌, ◌++◌, [],
}
use couriers_server_node.Shifts.Service.{is_opened, is_courier}
use couriers_server_node.World.{
  Env, Exec, pure, gets, or_raise, raise_if, modify, insert_unique, catch_unique, ◌>>=◌, ◌>>◌,
}

pub record CreatePayoutPeriod : Type 0 where
  pub start_date : ℕ
  pub end_date : ℕ

pub record CreatePayout : Type 0 where
  pub courier_id : ℕ
  pub amount : ℕ
  pub reference_note : Option String

abbrev pub is_period : ℕ → ℕ → PayoutPeriod → Bool
is_period id owner p = p.id == id && p.owner_id == owner

unfoldable pub find_period_or_fail : ℕ → ℕ → Exec PayoutPeriod
find_period_or_fail owner id = do
  or_raise (← gets (λ d. find (is_period id owner) d.payout_periods))
      (HttpError.not_found Message.period_not_found)

abbrev pub new_period : Env → AuthUser → CreatePayoutPeriod → PayoutPeriod
new_period env user dto = record {
  id = env.uuid 0;
  owner_id = user.owner_id;
  created_by = user.user_id;
  start_date = dto.start_date;
  end_date = dto.end_date;
  status = opened;
  created_at = env.db_now;
  updated_at = env.db_now;
}

-- The response of a period is the row itself (`mapPeriodToDto`).
unfoldable pub create_period : Env → AuthUser → CreatePayoutPeriod → Exec PayoutPeriod
create_period env user dto = do
  raise_if (ltb dto.end_date dto.start_date) (HttpError.bad_request Message.end_before_start)
  modify λ d. record d { payout_periods = d.payout_periods ++ new_period env user dto ∷ [] }
  pure (new_period env user dto)

abbrev pub close_period_row : Env → PayoutPeriod → PayoutPeriod
close_period_row env p = record p { status = closed; updated_at = env.db_now }

unfoldable pub close_period : Env → ℕ → ℕ → Exec PayoutPeriod
close_period env owner id = do
  period ← find_period_or_fail owner id
  raise_if (not (is_opened period.status)) (HttpError.conflict Message.period_already_closed)
  modify λ d. record d {
    payout_periods = update (is_period id owner) (close_period_row env) d.payout_periods;
  }
  pure (record period { status = closed })

-- The constraint `uq_payout_period_courier` of migration 020.
abbrev pub is_payout_of : ℕ → ℕ → Payout → Bool
is_payout_of period courier p = p.payout_period_id == period && p.courier_id == courier

abbrev pub new_payout : Env → ℕ → ℕ → CreatePayout → Payout
new_payout env owner period dto = record {
  id = env.uuid 0;
  owner_id = owner;
  payout_period_id = period;
  courier_id = dto.courier_id;
  amount = dto.amount;
  reference_note = dto.reference_note;
  paid_at = env.db_now;
  created_at = env.db_now;
}

-- The row of a payout, whose amount the column rounds; `save` answers it as it was given.
abbrev pub stored_payout : Env → Payout → Payout
stored_payout env p = record p { amount = env.round_price p.amount }

unfoldable pub insert_payout : Env → Payout → Exec (Unit {0})
insert_payout env p =
    insert_unique (λ d. any (is_payout_of p.payout_period_id p.courier_id) d.payouts)
      (λ d. record d { payouts = d.payouts ++ stored_payout env p ∷ [] })

unfoldable pub record_payout : Env → ℕ → ℕ → CreatePayout → Exec Payout
record_payout env owner period_id dto = do
  period ← find_period_or_fail owner period_id
  raise_if (is_opened period.status) (HttpError.unprocessable Message.period_not_closed)
  or_raise (← gets (λ d. find (is_courier dto.courier_id owner) d.couriers))
      (HttpError.not_found Message.courier_not_found)
  catch_unique (HttpError.conflict Message.courier_already_paid)
      (insert_payout env (new_payout env owner period_id dto))
  pure (new_payout env owner period_id dto)
