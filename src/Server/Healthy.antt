-- ===== src/Server/Healthy.antt =====
-- The tables that src/orders, src/couriers, src/payouts and src/users share: what holds of all of
-- them between requests.
use couriers_server_node.Couriers.Keys.{IsIndexed}
use couriers_server_node.Entities.{CourierShift, CourierPosition}
use couriers_server_node.Lifecycle.OneActive.{OneActive}
use couriers_server_node.Lifecycle.Settlement.{Settled}
use couriers_server_node.Lifecycle.Trail.{AllTold}
use couriers_server_node.Lifecycle.WellFormed.{AllWellFormed}
use couriers_server_node.Orders.Unique.{IsUnique}
use couriers_server_node.Payouts.Ledger.{IsSound}
use couriers_server_node.Prelude.{is_none, count, All, ℕ, ◌≤◌, ◌≡◌, List}
use couriers_server_node.Shifts.Service.{is_opened, is_open_of}
use couriers_server_node.Tracking.Service.{is_position_of}
use couriers_server_node.Users.Keys.{OneEmail}
use couriers_server_node.World.{Db}

pub record OrdersHealthy (d : Db) : Type 0 where
  pub settled : Settled d
  pub formed : AllWellFormed d
  pub told : AllTold d
  pub one_active : OneActive d
  pub unique : IsUnique d

pub record ShiftsHealthy (ss : List CourierShift) : Type 0 where
  pub one_open : (courier : ℕ) → count (is_open_of courier) ss ≤ 1
  pub ended : All (λ s. is_opened s.status ≡ is_none s.ended_at) ss

abbrev pub OnePosition : List CourierPosition → Type 0
OnePosition ps = (courier : ℕ) → count (is_position_of courier) ps ≤ 1

pub record IsHealthy (d : Db) : Type 0 where
  pub on_orders : OrdersHealthy d
  pub sound : IsSound d
  pub on_staff : OneEmail d.staff_users
  pub on_shifts : ShiftsHealthy d.shifts
  pub on_couriers : IsIndexed d.couriers
  pub located : OnePosition d.positions

-- The tables of orders are those of before.
pub record SameOrders (d d' : Db) : Type 0 where
  pub orders : d'.orders ≡ d.orders
  pub entries : d'.audit_entries ≡ d.audit_entries
  pub deliveries : d'.delivery_records ≡ d.delivery_records
  pub earnings : d'.courier_earnings ≡ d.courier_earnings
  pub clients : d'.clients ≡ d.clients

pub OrdersHealthy-same : (d d' : Db) → SameOrders d d' → OrdersHealthy d → OrdersHealthy d'
OrdersHealthy-same d d' s h = record {
  settled = rw (s.orders, s.earnings, s.deliveries) (h.settled);
  formed = rw (s.orders) (h.formed);
  told = rw (s.orders, s.entries) (h.told);
  one_active = rw (s.orders) (h.one_active);
  unique = record {
    numbers = rw (s.orders) (h.unique.numbers);
    phones = rw (s.clients) (h.unique.phones);
  };
}

-- So are the periods and the payouts.
pub record SamePayouts (d d' : Db) : Type 0 where
  pub periods : d'.payout_periods ≡ d.payout_periods
  pub payouts : d'.payouts ≡ d.payouts

pub IsSound-same : (d d' : Db) → SamePayouts d d' → IsSound d → IsSound d'
IsSound-same d d' s h = record {
  once = rw (s.payouts) (h.once);
  backed = rw (s.payouts, s.periods) (h.backed);
  dated = rw (s.periods) (h.dated);
}
