-- ===== src/RegistryPrune.antt =====
-- internal/registryprune: which image digests a registry prune may delete, and when a run starts.
pub mod Policy
pub mod Scheduler
mod Tests
