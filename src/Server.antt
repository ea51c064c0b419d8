-- ===== src/Server.antt =====
-- The authenticated requests of the API that write, from the guards to the services.
pub mod Requests
pub mod Healthy
pub mod Frames
pub mod Creation
pub mod Effects
pub mod Runs
pub mod Scope
mod Tests
