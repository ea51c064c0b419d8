-- ===== src/Orders.antt =====
-- src/orders/orders.service.ts: creating an order and reading it.
pub mod Responses
pub mod Service
pub mod Queries
pub mod Effects
pub mod Unique
pub mod RoundTrip
mod Tests
