-- ===== src/Entities.antt =====
-- The tables of the database as records: one record per entity class of src/*/entities, a field
-- per column. Identifiers (uuid) are numbers, compared for equality only; a time is a number of
-- milliseconds; a decimal(10,2) amount is a number of hundredths.
mod Tenants
mod Orders
mod Couriers
mod Payouts
mod Auth
pub use Tenants.*
pub use Orders.*
pub use Couriers.*
pub use Payouts.*
pub use Auth.*
