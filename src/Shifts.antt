-- ===== src/Shifts.antt =====
-- src/couriers/shift-management.service.ts: opening, closing and listing work shifts.
pub mod Service
pub mod Queries
pub mod Effects
pub mod Invariant
pub mod Agreement
mod Tests
