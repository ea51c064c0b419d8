-- ===== src/Couriers.antt =====
-- src/couriers/couriers-admin.service.ts: the couriers of a tenant, as its staff see and change them.
pub mod Admin
pub mod Keys
pub mod Status
mod Tests
