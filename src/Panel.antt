-- ===== src/Panel.antt =====
-- admin/src: the admin interface, and the error filter of the server that it meets
-- (src/common/filters).
pub mod Json
pub mod Filters
pub mod Client
pub mod Pages
pub mod Messages
pub mod Bulk
pub mod CourierForm
pub mod Tables
pub mod StaleForm
mod Tests
mod StaleTests
