-- ===== src/Users.antt =====
-- src/users: the staff of a tenant.
pub mod Service
pub mod Keys
mod Tests
