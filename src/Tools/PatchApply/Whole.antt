-- ===== src/Tools/PatchApply/Whole.antt =====
-- A patch that is not refused is applied as a whole.
use cognitive_evolve.Prelude.{
  String, ◌≡◌, refl, ◌∙◌, ap, arith, Bool, true, false, Option, none, some, List, [], map, ◌==◌,
  if◌then◌else◌,
}
use cognitive_evolve.Candidates.Merge.{PatchOperation}
use cognitive_evolve.Tools.PatchPath.{is_empty}
use cognitive_evolve.Tools.SandboxTree.{Tree, file_at}
use cognitive_evolve.Tools.PatchSandbox.{Progress}
use cognitive_evolve.Tools.PatchSandbox.Files.{replay}
use cognitive_evolve.Tools.PatchSandbox.Replayed.{
  both_ways, apply_operations-replay, apply_operations-performed,
}
use cognitive_evolve.Tools.SandboxCopy.{prepare_sandbox}
use cognitive_evolve.Tools.PatchApply.{
  PatchApplicationResult, Sandbox, preflight_candidate, preflight_failed, patch_status,
  settle_patch, patched, apply_locked, sandbox_tree_hash,
}

-- The statuses, by what failed, what was applied and whether the hashes are the same.
not_failed_if :
    (none_failed none_applied same : Bool)
    → ((if none_failed
          then if none_applied then "no_op" else if same then "no_op" else "applied"
          else "failed")
        == "failed")
      ≡ false
    → none_failed ≡ true
not_failed_if true none_applied same h = refl
not_failed_if false none_applied same h = ground (arith, h)

accepted_if :
    (ok : Bool) (x y : PatchApplicationResult × Option Tree)
    → (y.0.status == "failed") ≡ true
    → ((if ok then x else y).0.status == "failed") ≡ false
    → (ok ≡ true) × ((x.0.status == "failed") ≡ false) × ((if ok then x else y) ≡ x)
accepted_if true x y e h = (refl, h, refl)
accepted_if false x y e h = absurd (both_ways (y.0.status == "failed") e h)

module _ (s : Sandbox) where
  unfoldable pub copied : Tree
  copied = prepare_sandbox s.matches s.lower s.source s.sandbox_root

  not_failed :
      (p : Progress) (pre_hash post_hash : String)
      → (patch_status s p pre_hash post_hash == "failed") ≡ false
      → is_empty p.failed ≡ true
  unfolding patch_status
  not_failed p pre_hash post_hash h =
      not_failed_if (is_empty p.failed) (is_empty p.applied) (pre_hash == post_hash) h

  accepted :
      (patch_set : List PatchOperation)
      → ((apply_locked s patch_set).0.status == "failed") ≡ false
      → (is_empty (patched s patch_set).failed ≡ true)
        × (apply_locked s patch_set
            ≡ (settle_patch s copied (patched s patch_set), some (patched s patch_set).tree))
  unfolding apply_locked preflight_failed settle_patch copied
  accepted patch_set h =
      let found = preflight_candidate s patch_set in
      let p = patched s patch_set in
      let kept =
        accepted_if (is_empty found.0) (settle_patch s copied p, some p.tree)
          (preflight_failed s found, none) refl h in
      (not_failed p (sandbox_tree_hash s copied) (sandbox_tree_hash s p.tree) kept.1, kept.2)

  -- If the status is not "failed", then the sandbox holds the files of the copied source after every
  -- operation of the patch set, in order, and the applied files are all the paths of the patch set.
  pub apply_locked-replay :
      (patch_set : List PatchOperation) (path : String)
      → ((apply_locked s patch_set).0.status == "failed") ≡ false
      → let p = patched s patch_set in
        ((apply_locked s patch_set).1 ≡ some p.tree)
        × (file_at p.tree path ≡ replay patch_set (file_at copied) path)
        × ((apply_locked s patch_set).0.applied_files ≡ map (λ op. op.path) patch_set)
  unfolding patched settle_patch copied
  apply_locked-replay patch_set path h =
      let start : Progress = record {
        applied = [];
        failed = [];
        diagnostics = [];
        tree = copied;
      } in
      let done = accepted patch_set h in
      let every =
        apply_operations-performed s.os_message s.matches s.source s.allowed_patch_scope patch_set
          start done.0 in
      let replayed =
        apply_operations-replay s.os_message s.matches s.source s.allowed_patch_scope patch_set
          start path in
      (
        ap (λ r. r.1) done.1,
        replayed.0 ∙ ap (λ ops. replay ops (file_at copied) path) every,
        ap (λ r. r.0.applied_files) done.1 ∙ replayed.1 ∙ ap (map (λ op. op.path)) every,
      )
