-- ===== src/Store.antt =====
-- internal/store: the job rows and the in-memory job store. The children hold the row type, the
-- operations, and one module of theorems for each concern.
pub mod Job
pub mod Steps
pub mod Jobs
pub mod Backups
mod Tests
