-- ===== src/Nexus/Stop.antt =====
-- nexus/stop_reasons.py, nexus/loop/adaptive_stop.py and nexus/stop_decision.py: when a run stops.
pub mod Reasons
pub mod Adaptive
pub mod Decision
pub mod Sound
pub mod Justified
pub mod Stagnation
mod Tests
