-- ===== src/Jobs.antt =====
-- The workers of the job queues.
pub mod Processors
pub mod Notices
pub mod Codes
mod Tests
