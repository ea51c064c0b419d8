-- ===== src/Pagination.antt =====
-- The page arithmetic that the list endpoints share.
pub mod Query
pub mod Cover
mod Tests
