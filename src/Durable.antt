-- ===== src/Durable.antt =====
-- cognitive_evolve_runtime/durable: steps that survive a crash.
pub mod StepState
pub mod Paths
pub mod Store
pub mod Runner
pub mod Planner
pub mod Breaker
pub mod EventLog
pub mod Reaper
