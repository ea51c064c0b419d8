-- ===== src/Access.antt =====
-- src/auth: who may call what.
pub mod Endpoints
pub mod Guards
