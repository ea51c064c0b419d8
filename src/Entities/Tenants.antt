-- ===== src/Entities/Tenants.antt =====
-- src/owners, src/clients, src/users: the tenant, its customers and its staff.
use couriers_server_node.Prelude.{ℕ, String, Option}

pub record Owner : Type 0 where
  pub id : ℕ
  pub name : String
  pub email : String
  pub timezone : Option String
  pub default_delivery_fee : ℕ
  pub created_at : ℕ
  pub updated_at : ℕ

pub record Client : Type 0 where
  pub id : ℕ
  pub owner_id : ℕ
  pub phone : String
  pub name : Option String
  pub created_at : ℕ
  pub updated_at : ℕ

pub data UserRole : Type 0 where
  administrator owner manager order_operator courier : UserRole

-- The authenticated user that a request carries (`AuthUser`).
pub record AuthUser : Type 0 where
  pub user_id : ℕ
  pub owner_id : ℕ
  pub role : UserRole

pub record StaffUser : Type 0 where
  pub id : ℕ
  pub owner_id : ℕ
  pub name : String
  pub email : String
  pub role : UserRole
  pub password_hash : String
  pub created_at : ℕ
  pub updated_at : ℕ
