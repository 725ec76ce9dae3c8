-- ===== src/Llm.antt =====
-- cognitive_evolve_runtime/llm: the limits on the calls of the language model.
pub mod Governor
pub mod Budget
