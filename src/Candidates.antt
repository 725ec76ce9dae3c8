-- ===== src/Candidates.antt =====
-- cognitive_evolve_runtime/candidates: the life of a candidate.
pub mod Fate
pub mod Merge
