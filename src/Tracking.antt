-- ===== src/Tracking.antt =====
-- src/couriers/courier-tracking.service.ts: where couriers are and which way they went.
pub mod Service
pub mod Route
pub mod History
mod Tests
