-- ===== src/Runner.antt =====
-- internal/jobs: the worker pool that drains the job store.
pub mod Rotation
pub mod Pool
mod Tests
