-- ===== src/Nexus.antt =====
-- The modules of nexus/ that decide how long the evolution runs.
pub mod Stop
pub mod Loop
pub mod Budgets
