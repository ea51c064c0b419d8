-- ===== src/Auth.antt =====
-- src/auth: the login of a courier, by a one-time code or by a password.
pub mod Tracker
pub mod Service
pub mod Throttle
pub mod Codes
mod Tests
