-- ===== src/Verification.antt =====
-- cognitive_evolve_runtime/verification: how strong a verification result may be called.
pub mod Ladder
pub mod Grading
pub mod Honesty
pub mod Minimax
pub mod Obligations
