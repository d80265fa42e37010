-- ===== src/Api.antt =====
-- internal/api: the handlers of the HTTP API that act on job rows.
pub mod Jobs
mod Tests
