-- ===== src/Prune.antt =====
-- internal/prune: the scheduled cleanup of hosts, its policy and its scheduler.
pub mod Policy
pub mod Scheduler
mod Tests
