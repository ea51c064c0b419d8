-- ===== src/Entities/Orders.antt =====
-- src/orders/entities: orders, their items, the audit trail, deliveries and earnings.
use couriers_server_node.Prelude.{ℕ, String, Bool, Option, ◌==◌}
use couriers_server_node.Prelude.Int.{ℤ}
use couriers_server_node.Entities.Tenants.{UserRole}

pub data OrderStatus : Type 0 where
  created assigned picked_up in_delivery completed cancelled : OrderStatus

abbrev pub status_code : OrderStatus → ℕ
status_code created = 0
status_code assigned = 1
status_code picked_up = 2
status_code in_delivery = 3
status_code completed = 4
status_code cancelled = 5

-- `===` on two status strings.
abbrev pub same_status : OrderStatus → OrderStatus → Bool
same_status a b = status_code a == status_code b

pub record Order : Type 0 where
  pub id : ℕ
  pub owner_id : ℕ
  pub client_id : ℕ
  pub order_number : String
  pub status : OrderStatus
  pub pickup_address : String
  pub pickup_lat : ℤ
  pub pickup_lng : ℤ
  pub dropoff_address : String
  pub dropoff_lat : ℤ
  pub dropoff_lng : ℤ
  pub delivery_fee : ℕ
  pub callback_url : Option String
  pub courier_id : Option ℕ
  pub assigned_at : Option ℕ
  pub picked_up_at : Option ℕ
  pub in_delivery_at : Option ℕ
  pub completed_at : Option ℕ
  pub cancelled_at : Option ℕ
  pub created_by_id : ℕ
  pub created_by_role : UserRole
  pub created_at : ℕ
  pub updated_at : ℕ

pub record OrderItem : Type 0 where
  pub id : ℕ
  pub order_id : ℕ
  pub owner_id : ℕ
  pub name : String
  pub quantity : ℕ
  pub price : ℕ
  pub created_at : ℕ
  pub updated_at : ℕ

pub data AuditAction : Type 0 where
  order_created status_changed : AuditAction

-- The `metadata` of a status change.
pub record Transition : Type 0 where
  pub from : OrderStatus
  pub to : OrderStatus
  pub reason : Option String

pub record OrderAuditEntry : Type 0 where
  pub id : ℕ
  pub order_id : ℕ
  pub owner_id : ℕ
  pub action : AuditAction
  pub actor_id : ℕ
  pub actor_role : UserRole
  pub metadata : Option Transition
  pub created_at : ℕ

pub record DeliveryRecord : Type 0 where
  pub id : ℕ
  pub owner_id : ℕ
  pub order_id : ℕ
  pub courier_id : ℕ
  pub delivery_fee : ℕ
  pub completed_at : ℕ
  pub created_at : ℕ

pub record CourierEarning : Type 0 where
  pub id : ℕ
  pub owner_id : ℕ
  pub courier_id : ℕ
  pub order_id : ℕ
  pub amount : ℕ
  pub earned_at : ℕ
  pub created_at : ℕ
