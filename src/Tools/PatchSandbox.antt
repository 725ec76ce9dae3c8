-- ===== src/Tools/PatchSandbox.antt =====
-- tools/patch_sandbox.py: the operations of a candidate's patch set, one after the other, in a
-- copy of the source tree. `fnmatchcase` is the function of Python's fnmatch; `os_message` and the
-- trees are those of SandboxTree.
pub mod Files
pub mod Refines
pub mod Replayed
mod Tests
use Prim.Native.String.{◌++◌ as ◌⧺◌}
use cognitive_evolve.Prelude.{
  String, Bool, true, false, Option, none, some, List, [], ◌∷◌, ◌++◌, get, put, ◌==◌, if◌then◌else◌,
}
use cognitive_evolve.Candidates.Merge.{PatchOperation}
use cognitive_evolve.Tools.PatchPath.{
  as_posix, patch_scope_error, occurs_in, replace_text, universal_newlines,
}
use cognitive_evolve.Tools.SandboxTree.{
  Node, file, folder, Tree, remove, Target, unsafe, raises, safe, Mode, existing, create_parent,
  safe_patch_target, source_path_uses_symlink,
}

-- What an operation answers, and the tree that it leaves.
pub record Performed : Type 0 where
  pub done : Bool
  pub message : String
  pub tree : Tree

-- The lists of `_apply_locked`, and the sandbox.
pub record Progress : Type 0 where
  pub applied : List String
  pub failed : List String
  pub diagnostics : List String
  pub tree : Tree

abbrev pub fails : Tree → String → Performed
fails t message = record { done = false; message = message; tree = t }

abbrev pub performs : Tree → String → Performed
performs t message = record { done = true; message = message; tree = t }

module _ (os_message : (call path : String) → String) where
  unfoldable pub on_target : (Tree → Performed) → Tree → Target → Performed
  on_target f t (unsafe guard_error) = fails t guard_error
  on_target f t (raises message) = fails t message
  on_target f t (safe made) = f made

  delete_at : PatchOperation → Tree → Option Node → Performed
  delete_at op t none = performs t "deleted"
  delete_at op t (some folder) = fails t ("delete target is a directory: " ⧺ op.path)
  delete_at op t (some entry) = performs (remove t (as_posix op.path)) "deleted"

  write_at : PatchOperation → Tree → Option Node → Performed
  write_at op t (some folder) = fails t (os_message "open" op.path)
  write_at op t entry = performs (put t (as_posix op.path) (file op.content)) "written"

  append_at : PatchOperation → Tree → Option Node → Performed
  append_at op t (some folder) = fails t (os_message "open" op.path)
  append_at op t (some (file text)) =
      performs (put t (as_posix op.path) (file (text ⧺ op.content))) "appended"
  append_at op t entry = performs (put t (as_posix op.path) (file op.content)) "appended"

  replace_read : PatchOperation → Tree → String → Performed
  replace_read op t text =
      if occurs_in op.old_text text
      then performs (put t (as_posix op.path) (file (replace_text op.old_text op.new_text text)))
          "replaced"
      else fails t ("old_text not found in " ⧺ op.path)

  replace_at : PatchOperation → Tree → Option Node → Performed
  unfolding replace_read
  replace_at op t none = fails t ("replace target missing: " ⧺ op.path)
  replace_at op t (some (file text)) = replace_read op t (universal_newlines text)
  replace_at op t (some entry) = fails t (os_message "open" op.path)

  delete_in : PatchOperation → Tree → Performed
  unfolding on_target delete_at
  delete_in op t =
      on_target (λ made. delete_at op made (get made (as_posix op.path))) t
        (safe_patch_target os_message existing t op.path)

  write_in : PatchOperation → Tree → Performed
  unfolding on_target write_at
  write_in op t =
      on_target (λ made. write_at op made (get made (as_posix op.path))) t
        (safe_patch_target os_message create_parent t op.path)

  append_in : PatchOperation → Tree → Performed
  unfolding on_target append_at
  append_in op t =
      on_target (λ made. append_at op made (get made (as_posix op.path))) t
        (safe_patch_target os_message create_parent t op.path)

  replace_in : PatchOperation → Tree → Performed
  unfolding on_target replace_at
  replace_in op t =
      on_target (λ made. replace_at op made (get made (as_posix op.path))) t
        (safe_patch_target os_message existing t op.path)

  -- The branch of an operation.
  unfoldable pub perform : PatchOperation → Tree → Performed
  unfolding delete_in write_in append_in replace_in
  perform op t =
      if op.operation == "delete"
      then delete_in op t
      else if op.operation == "write"
      then write_in op t
      else if op.operation == "append"
      then append_in op t
      else if op.operation == "replace"
      then replace_in op t
      else fails t ("unsupported patch operation: " ⧺ op.operation)

  module _ (fnmatchcase : String → String → Bool) (source : Tree)
      (allowed_patch_scope : List String) where
    apply_guarded : String → Tree → PatchOperation → Performed
    unfolding on_target
    apply_guarded scope_error t op =
        if scope_error == ""
        then if source_path_uses_symlink source op.path
          then fails t ("unsafe source symlink in patch path: " ⧺ op.path)
          else on_target (perform op) t (safe_patch_target os_message existing t op.path)
        else fails t scope_error

    -- `_apply_operation`
    unfoldable pub apply_operation : Tree → PatchOperation → Performed
    unfolding apply_guarded
    apply_operation t op =
        apply_guarded (patch_scope_error fnmatchcase op.path allowed_patch_scope) t op

    record_operation : Progress → PatchOperation → Performed → Progress
    record_operation p op answer = record {
      applied = if answer.done then p.applied ++ (op.path ∷ []) else p.applied;
      failed = if answer.done then p.failed else p.failed ++ (op.path ∷ []);
      diagnostics = if answer.done then p.diagnostics else p.diagnostics ++ (answer.message ∷ []);
      tree = answer.tree;
    }

    -- The loop over the patch set.
    unfoldable pub apply_operations : List PatchOperation → Progress → Progress
    unfolding record_operation
    apply_operations [] p = p
    apply_operations (op ∷ ops) p =
        apply_operations ops (record_operation p op (apply_operation p.tree op))
