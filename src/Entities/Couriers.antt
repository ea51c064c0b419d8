-- ===== src/Entities/Couriers.antt =====
-- src/couriers/entities: couriers, their shifts, positions and location history.
use couriers_server_node.Prelude.{ℕ, String, Option}
use couriers_server_node.Prelude.Int.{ℤ}

pub data CourierStatus : Type 0 where
  available unavailable : CourierStatus

pub record Courier : Type 0 where
  pub id : ℕ
  pub owner_id : ℕ
  pub first_name : String
  pub last_name : String
  pub phone : String
  pub status : CourierStatus
  pub fcm_token : Option String
  pub telegram_chat_id : Option String
  pub login : Option String
  pub password_hash : Option String
  pub created_at : ℕ
  pub updated_at : ℕ

-- The two values of a shift's and of a payout period's `status` column, 'open' and 'closed'.
pub data OpenStatus : Type 0 where
  opened closed : OpenStatus

pub record CourierShift : Type 0 where
  pub id : ℕ
  pub owner_id : ℕ
  pub courier_id : ℕ
  pub status : OpenStatus
  pub started_at : ℕ
  pub ended_at : Option ℕ
  pub created_at : ℕ
  pub updated_at : ℕ

pub record CourierPosition : Type 0 where
  pub id : ℕ
  pub owner_id : ℕ
  pub courier_id : ℕ
  pub lat : ℤ
  pub lng : ℤ
  pub recorded_at : ℕ
  pub created_at : ℕ
  pub updated_at : ℕ

pub record CourierLocationHistory : Type 0 where
  pub id : ℕ
  pub owner_id : ℕ
  pub courier_id : ℕ
  pub order_id : Option ℕ
  pub lat : ℤ
  pub lng : ℤ
  pub distance_meters : ℕ
  pub recorded_at : ℕ
