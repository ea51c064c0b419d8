-- ===== src/Entities/Auth.antt =====
-- src/auth/entities: one-time login codes and refresh tokens.
use couriers_server_node.Prelude.{ℕ, String, Option}

pub data DeliveryChannel : Type 0 where
  sms telegram : DeliveryChannel

pub record AuthCode : Type 0 where
  pub id : ℕ
  pub owner_id : ℕ
  pub courier_id : Option ℕ
  pub phone : String
  pub code : String
  pub channel : DeliveryChannel
  pub used_at : Option ℕ
  pub expires_at : ℕ
  pub created_at : ℕ
  pub updated_at : ℕ

pub record CourierRefreshToken : Type 0 where
  pub id : ℕ
  pub owner_id : ℕ
  pub courier_id : ℕ
  pub token_hash : String
  pub revoked_at : Option ℕ
  pub expires_at : ℕ
  pub created_at : ℕ
