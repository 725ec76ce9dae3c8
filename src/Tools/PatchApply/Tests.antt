-- ===== src/Tools/PatchApply/Tests.antt =====
-- Patches of a small source tree.
use Prim.Native.String
use cognitive_evolve.Prelude.{
  String, ◌≡◌, refl, false, none, some, List, [], ◌∷◌, map, Dict, get, put, ◌==◌,
}
use cognitive_evolve.Json.{end}
use cognitive_evolve.Candidates.Merge.{PatchOperation}
use cognitive_evolve.Tools.PatchPath.{
  parts, as_posix, is_absolute, join_parts, ancestors_between, unsafe_path, any_match, is_empty,
  patch_scope_error, occurs_in, replace_text, universal_newlines,
}
use cognitive_evolve.Tools.SandboxTree.{
  is_link, file, symlink, remove, file_at, parent_within, links_on_way, make_parents,
  safe_patch_target, source_path_uses_symlink,
}
use cognitive_evolve.Tools.PatchSandbox.{perform, on_target, apply_operation, apply_operations}
use cognitive_evolve.Tools.PatchSandbox.Files.{replay}
use cognitive_evolve.Tools.SandboxCopy.{
  meets, last_part, suffix, sandbox_copy_ignored, ignored, left_out, prepare_sandbox,
}
use cognitive_evolve.Tools.PatchApply.{
  Sandbox, hashed_files, sandbox_tree_hash, preflight_candidate, preflight_failed, patch_status,
  settle_patch, patched, apply_locked,
}
use cognitive_evolve.Tools.PatchApply.Whole.{copied, apply_locked-replay}

-- The texts of the files, one after the other.
abbrev all_texts : Dict String → String
all_texts [] = ""
all_texts ((path, text) ∷ rest) = String.◌++◌ text (all_texts rest)

abbrev small_sandbox : Sandbox
small_sandbox = record {
  os_message = λ call path. call;
  matches = λ path pattern. path == pattern;
  lower = λ name. name;
  tree_hash = all_texts;
  source = ("a.py", file "1") ∷ (".env", file "KEY") ∷ ("link", symlink false) ∷ [];
  sandbox_root = "";
  sandbox_path = "/tmp/sandboxes/c1";
  allowed_patch_scope = [];
}

abbrev operation_on : (path operation content : String) → PatchOperation
operation_on path operation content = record {
  path = path;
  operation = operation;
  content = content;
  old_text = "";
  new_text = "";
  metadata = end;
}

program : Unit {0}
unfolding get put parts as_posix is_absolute join_parts ancestors_between unsafe_path any_match
    is_empty patch_scope_error occurs_in replace_text universal_newlines remove file_at
    parent_within links_on_way make_parents safe_patch_target source_path_uses_symlink perform
    on_target apply_operation apply_operations replay meets last_part suffix is_link
    sandbox_copy_ignored ignored left_out prepare_sandbox hashed_files sandbox_tree_hash
    preflight_candidate preflight_failed patch_status settle_patch patched apply_locked copied
program = tt

abbrev two_operations : List PatchOperation
two_operations = operation_on "a.py" "append" "2" ∷ operation_on "b.py" "write" "3" ∷ []

abbrev status_of : List PatchOperation → String
status_of patch_set = (apply_locked small_sandbox patch_set).0.status

-- A patch that applies, one that changes nothing, an empty one, one that fails on the way, and one
-- that is refused before a sandbox is prepared.
statuses :
    (status_of two_operations ≡ "applied")
    × (status_of (operation_on "a.py" "write" "1" ∷ []) ≡ "no_op")
    × (status_of [] ≡ "no_op")
    × (status_of (operation_on "b.py" "write" "3" ∷ operation_on "a.py" "move" "" ∷ []) ≡ "failed")
    × ((apply_locked small_sandbox (operation_on "link/a" "write" "3" ∷ [])).1 ≡ none)
unfolding program
statuses = (refl, refl, refl, refl, refl)

is_applied : ((apply_locked small_sandbox two_operations).0.status == "failed") ≡ false
unfolding program
is_applied = refl

apply_locked-replay_example :
    let p = patched small_sandbox two_operations in
    ((apply_locked small_sandbox two_operations).1 ≡ some p.tree)
    × (file_at p.tree "a.py" ≡ replay two_operations (file_at (copied small_sandbox)) "a.py")
    × ((apply_locked small_sandbox two_operations).0.applied_files
        ≡ map (λ op. op.path) two_operations)
apply_locked-replay_example = apply_locked-replay small_sandbox two_operations "a.py" is_applied
