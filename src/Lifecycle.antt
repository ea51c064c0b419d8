-- ===== src/Lifecycle.antt =====
-- src/orders/order-lifecycle.service.ts: claiming, advancing and cancelling an order. Each handler
-- is a check, which only reads, and a commit, which begins with the update of the order: between
-- the two, requests of others may run.
pub mod Rules
pub mod Calls
pub mod Handlers
pub mod Effects
pub mod AdvanceEffect
pub mod CancelEffect
pub mod Requests
pub mod Keys
pub mod Rows
pub mod Diagram
pub mod WellFormed
pub mod OneActive
pub mod Settlement
pub mod SettledRuns
pub mod Interleaving
pub mod Exclusive
pub mod Payments
pub mod Races
pub mod DoubleClaim
pub mod Tenants
pub mod Grants
pub mod Trail
pub mod Answers
pub mod Delivery
pub mod Finish
pub mod Rank
mod Tests
mod ProgressTests
