-- ===== src/Backupctl.antt =====
-- internal/backupctl: backups enqueued for a scheduler.
pub mod Enqueue
pub mod Last
mod Tests
