-- ===== src/Entities/Payouts.antt =====
-- src/payouts/entities: payout periods and payouts. A calendar date (YYYY-MM-DD) is a day number.
use couriers_server_node.Prelude.{ℕ, String, Option}
use couriers_server_node.Entities.Couriers.{OpenStatus}

pub record PayoutPeriod : Type 0 where
  pub id : ℕ
  pub owner_id : ℕ
  pub created_by : ℕ
  pub start_date : ℕ
  pub end_date : ℕ
  pub status : OpenStatus
  pub created_at : ℕ
  pub updated_at : ℕ

pub record Payout : Type 0 where
  pub id : ℕ
  pub owner_id : ℕ
  pub payout_period_id : ℕ
  pub courier_id : ℕ
  pub amount : ℕ
  pub reference_note : Option String
  pub paid_at : ℕ
  pub created_at : ℕ
