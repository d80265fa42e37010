-- ===== src/Ingress.antt =====
-- internal/ingress: the routes of a host, from the store.
pub mod Routes
mod Tests
