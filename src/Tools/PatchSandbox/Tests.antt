-- ===== src/Tools/PatchSandbox/Tests.antt =====
-- Patches of small trees.
use cognitive_evolve.Prelude.{
  String, ◌≡◌, ◌⊎◌, refl, Bool, false, List, [], ◌∷◌, map, get, put, ◌++◌, ◌==◌,
}
use cognitive_evolve.Json.{end}
use cognitive_evolve.Candidates.Merge.{PatchOperation}
use cognitive_evolve.Tools.PatchPath.{
  parts, as_posix, is_absolute, join_parts, ancestors_between, unsafe_path, any_match, is_empty,
  patch_scope_error, occurs_in, replace_text, universal_newlines,
}
use cognitive_evolve.Tools.SandboxTree.{
  file, folder, symlink, Tree, remove, file_at, parent_within, links_on_way, make_parents,
  safe_patch_target, source_path_uses_symlink,
}
use cognitive_evolve.Tools.PatchSandbox.{
  Progress, perform, on_target, apply_operation, apply_operations,
}
use cognitive_evolve.Tools.PatchSandbox.Files.{replay}
use cognitive_evolve.Tools.PatchSandbox.Replayed.{
  performed, IsTouched, apply_operations-replay, apply_operations-IsTouched,
}

abbrev os_error : String → String → String
os_error call path = "Errno"

-- A pattern without wildcards.
abbrev same_text : String → String → Bool
same_text path pattern = path == pattern

abbrev operation_on : (path operation content old_text new_text : String) → PatchOperation
operation_on path operation content old_text new_text = record {
  path = path;
  operation = operation;
  content = content;
  old_text = old_text;
  new_text = new_text;
  metadata = end;
}

abbrev small_tree : Tree
small_tree = ("a.py", file "x = 1\r\ny = 2\r\n") ∷ ("lib", folder) ∷ ("out", symlink false) ∷ []

abbrev start : Progress
start = record {
  applied = [];
  failed = [];
  diagnostics = [];
  tree = ("a.py", file "x = 1\r\ny = 2\r\n") ∷ ("lib", folder) ∷ [];
}

-- Three operations, of which the second is outside the scope.
abbrev three_operations : List PatchOperation
three_operations =
    operation_on "./a.py" "replace" "" "1" "3"
    ∷ operation_on "../b.py" "write" "bad" "" ""
    ∷ operation_on "lib/new/c.py" "append" "c" "" ""
    ∷ []

abbrev run_three : Progress
run_three = apply_operations os_error same_text small_tree [] three_operations start

program : Unit {0}
unfolding get put parts as_posix is_absolute join_parts ancestors_between unsafe_path any_match
    is_empty patch_scope_error occurs_in replace_text universal_newlines remove file_at
    parent_within links_on_way make_parents safe_patch_target source_path_uses_symlink perform
    on_target apply_operation apply_operations performed replay IsTouched
program = tt

-- A replacement writes every "\r\n" of the file as "\n"; missing directories are made.
three_operations_run :
    (run_three.tree ≡ (
      ("a.py", file "x = 3\ny = 2\n")
      ∷ ("lib", folder)
      ∷ ("lib/new", folder)
      ∷ ("lib/new/c.py", file "c")
      ∷ []))
    × (run_three.applied ≡ ("./a.py" ∷ "lib/new/c.py" ∷ []))
    × (run_three.failed ≡ ("../b.py" ∷ []))
    × (run_three.diagnostics ≡ ("unsafe patch path: ../b.py" ∷ []))
unfolding program
three_operations_run = (refl, refl, refl, refl)

-- Directories are not deleted, the sandbox itself is no target, and no link is followed.
refusals :
    ((apply_operation os_error same_text small_tree [] small_tree
        (operation_on "lib" "delete" "" "" "")).message
      ≡ "delete target is a directory: lib")
    × ((apply_operation os_error same_text small_tree [] small_tree
          (operation_on "." "write" "" "" "")).message
        ≡ "unsafe patch parent outside sandbox: .")
    × ((apply_operation os_error same_text [] [] small_tree
          (operation_on "out/a" "write" "" "" "")).message
        ≡ "unsafe patch parent outside sandbox: out/a")
    × ((apply_operation os_error same_text [] [] small_tree
          (operation_on "a.py/b" "write" "" "" "")).message
        ≡ "Errno")
    × ((apply_operation os_error same_text []
          ("lib" ∷ [])
          small_tree
          (operation_on "a.py" "write" "" "" "")).message
        ≡ "patch path outside allowed_patch_scope: a.py")
unfolding program
refusals = (refl, refl, refl, refl, refl)

apply_operations-replay_example :
    (file_at run_three.tree "a.py"
      ≡ replay
          (performed os_error same_text small_tree [] start.tree three_operations)
          (file_at start.tree)
          "a.py")
    × (run_three.applied
        ≡ []
          ++ map
              (λ op. op.path)
              (performed os_error same_text small_tree [] start.tree three_operations))
apply_operations-replay_example =
    apply_operations-replay os_error same_text small_tree [] three_operations start "a.py"

apply_operations-IsTouched_example :
    (file_at run_three.tree "b.py" ≡ file_at start.tree "b.py")
    ⊎ IsTouched os_error same_text small_tree [] three_operations "b.py"
apply_operations-IsTouched_example =
    apply_operations-IsTouched os_error same_text small_tree [] three_operations start "b.py"
