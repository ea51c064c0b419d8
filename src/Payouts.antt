-- ===== src/Payouts.antt =====
-- src/payouts/payouts.service.ts: payout periods, the earnings that fall into them, and payouts.
pub mod Service
pub mod Earnings
pub mod Reports
pub mod Totals
pub mod Ledger
pub mod Pending
mod Tests
