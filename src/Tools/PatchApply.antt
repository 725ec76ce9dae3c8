-- ===== src/Tools/PatchApply.antt =====
-- tools/patch_sandbox.py: `_apply_locked` for a candidate with a patch set, or with neither a patch
-- set nor the text of a unified patch. `tree_hash` stands for the digests of the files, sorted by
-- their paths; the sandbox's own path is an argument.
pub mod Whole
mod Tests
use Prim.Native.String.{◌++◌ as ◌⧺◌}
use cognitive_evolve.Prelude.{
  String, Bool, true, false, Option, none, some, List, [], ◌∷◌, ◌++◌, Dict, ◌==◌, if◌then◌else◌,
}
use cognitive_evolve.Candidates.Merge.{PatchOperation}
use cognitive_evolve.Tools.PatchPath.{is_empty, patch_scope_error}
use cognitive_evolve.Tools.SandboxTree.{Node, file, Tree, source_path_uses_symlink}
use cognitive_evolve.Tools.PatchSandbox.{Progress, apply_operations}
use cognitive_evolve.Tools.SandboxCopy.{prepare_sandbox}

-- candidates/project_candidate.py; the modelled code leaves `raw_output_ref` empty.
pub record PatchApplicationResult : Type 0 where
  pub status : String
  pub diagnostics : List String
  pub applied_files : List String
  pub failed_files : List String
  pub pre_hash : String
  pub post_hash : String
  pub sandbox_path : String

-- What the code takes from Python, the operating system and its caller.
pub record Sandbox : Type 0 where
  pub os_message : (call path : String) → String
  pub matches : String → String → Bool
  pub lower : String → String
  pub tree_hash : Dict String → String
  pub source : Tree
  pub sandbox_root : String
  pub sandbox_path : String
  pub allowed_patch_scope : List String

-- The files that the hash reads.
unfoldable pub hashed_files : Tree → Dict String
hashed_files [] = []
hashed_files ((path, file text) ∷ t) = (path, text) ∷ hashed_files t
hashed_files ((path, node) ∷ t) = hashed_files t

module _ (s : Sandbox) where
  -- `_sandbox_tree_hash`
  unfoldable pub sandbox_tree_hash : Tree → String
  sandbox_tree_hash t = s.tree_hash (hashed_files t)

  -- `_preflight_candidate`, of a patch set: the diagnostics, and the paths that have one.
  unfoldable pub preflight_candidate : List PatchOperation → List String × List String
  preflight_candidate [] = ([], [])
  preflight_candidate (op ∷ ops) =
      let rest = preflight_candidate ops in
      let scope_error = patch_scope_error s.matches op.path s.allowed_patch_scope in
      if scope_error == ""
      then if source_path_uses_symlink s.source op.path
        then (("unsafe source symlink in patch path: " ⧺ op.path) ∷ rest.0, op.path ∷ rest.1)
        else rest
      else (scope_error ∷ rest.0, op.path ∷ rest.1)

  unfoldable pub preflight_failed : List String × List String → PatchApplicationResult
  preflight_failed found = record {
    status = "failed";
    diagnostics = found.0;
    applied_files = [];
    failed_files = found.1;
    pre_hash = "";
    post_hash = "";
    sandbox_path = "";
  }

  unfoldable pub patch_status : Progress → (pre_hash post_hash : String) → String
  patch_status p pre_hash post_hash =
      if is_empty p.failed
      then if is_empty p.applied
        then "no_op"
        else if pre_hash == post_hash
        then "no_op"
        else "applied"
      else "failed"

  no_effect : Progress → (pre_hash post_hash : String) → List String
  no_effect p pre_hash post_hash =
      if is_empty p.failed
      then if is_empty p.applied
        then "patch_no_effect:no_files_applied" ∷ []
        else if pre_hash == post_hash
        then "patch_no_effect:pre_hash_equals_post_hash" ∷ []
        else []
      else []

  unfoldable pub settle_patch : Tree → Progress → PatchApplicationResult
  unfolding sandbox_tree_hash patch_status no_effect
  settle_patch before p =
      let pre_hash = sandbox_tree_hash before in
      let post_hash = sandbox_tree_hash p.tree in
      record {
        status = patch_status p pre_hash post_hash;
        diagnostics = p.diagnostics ++ no_effect p pre_hash post_hash;
        applied_files = p.applied;
        failed_files = p.failed;
        pre_hash = pre_hash;
        post_hash = post_hash;
        sandbox_path = s.sandbox_path;
      }

  -- The loop over the patch set, in the copy of the source.
  unfoldable pub patched : List PatchOperation → Progress
  patched ops = apply_operations s.os_message s.matches s.source s.allowed_patch_scope ops (record {
    applied = [];
    failed = [];
    diagnostics = [];
    tree = prepare_sandbox s.matches s.lower s.source s.sandbox_root;
  })

  -- `_apply_locked`: the result, and the tree of the sandbox if one was prepared.
  unfoldable pub apply_locked : List PatchOperation → PatchApplicationResult × Option Tree
  unfolding preflight_failed settle_patch
  apply_locked patch_set =
      let found = preflight_candidate patch_set in
      let p = patched patch_set in
      if is_empty found.0
      then (settle_patch (prepare_sandbox s.matches s.lower s.source s.sandbox_root) p, some p.tree)
      else (preflight_failed found, none)
