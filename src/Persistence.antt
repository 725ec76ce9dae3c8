-- ===== src/Persistence.antt =====
-- cognitive_evolve_runtime/persistence: what a run leaves on disk.
pub mod EventStore
pub mod Snapshot
