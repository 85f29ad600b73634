-- ===== src/Bootstrap.antt =====
-- internal/bootstrap: how the configuration becomes deduplicators, storage plugins and processors,
-- and how they are closed again.
pub mod Deduplicators
pub mod Backends
pub mod StoragePlugins
pub mod Sample
mod Tests
