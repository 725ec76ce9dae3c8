-- ===== src/Tools.antt =====
-- cognitive_evolve_runtime/tools: the patch of a candidate, applied in a sandbox.
pub mod PatchPath
pub mod SandboxTree
pub mod PatchSandbox
pub mod SandboxCopy
pub mod PatchApply
