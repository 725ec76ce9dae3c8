-- ===== src/Tools/PatchSandbox/Replayed.antt =====
-- The loop over a patch set as a replay of the operations that were done, on the paths that the
-- scope allows.
use Prim.Native.String.{◌++◌ as ◌⧺◌}
use mathlib.Core.List.{append_assoc, append-nil}
use cognitive_evolve.Prelude.{
  String, ◌≡◌, ◌⊎◌, refl, sym, ◌∙◌, arith, eq_iff, Bool, true, false, ◌||◌, if_cases, inl, inr,
  List, [], ◌∷◌, ◌++◌, map, ◌==◌, if◌then◌else◌, Bool-cases,
}
use cognitive_evolve.Candidates.Merge.{PatchOperation}
use cognitive_evolve.Tools.PatchPath.{
  as_posix, unsafe_path, any_match, is_empty, patch_scope_error, patch_scope_error_lem,
}
use cognitive_evolve.Tools.SandboxTree.{
  Tree, file_at, existing, safe_patch_target, source_path_uses_symlink,
}
use cognitive_evolve.Tools.SandboxTree.Reached.{
  SameFiles, SameFiles-refl, safe_patch_target-Reaches,
}
use cognitive_evolve.Tools.PatchSandbox.{
  Performed, Progress, fails, on_target, perform, apply_guarded, apply_operation, record_operation,
  apply_operations,
}
use cognitive_evolve.Tools.PatchSandbox.Files.{Files, edit, replay, edit-agrees, replay-agrees}
use cognitive_evolve.Tools.PatchSandbox.Refines.{
  Refines, perform-Refines, fails-Refines, on_target-Refines,
}

either {ℓ} :
    {A : Type ℓ} (b : Bool) {x y u v : A}
    → x ≡ y
    → u ≡ v
    → (if b then x else u) ≡ (if b then y else v)
either true e f = e
either false e f = f

Refines-SameFiles :
    (op : PatchOperation) (t made : Tree) (p : Performed)
    → SameFiles made t
    → Refines op made p
    → Refines op t p
unfolding SameFiles Refines
Refines-SameFiles op t made p h r j =
    r j ∙ either p.done (edit-agrees op (file_at made) (file_at t) j h) (h j)

-- A tree whose files are those after an operation, which is added to a replay if it was done.
replay_done :
    (op : PatchOperation) (rest : List PatchOperation) (done : Bool) (f g : Files) (j : String)
    → ((i : String) → g i ≡ (if done then edit op f i else f i))
    → replay rest g j ≡ replay (if done then op ∷ rest else rest) f j
unfolding replay
replay_done op rest true f g j h = replay-agrees rest g (edit op f) j h
replay_done op rest false f g j h = replay-agrees rest g f j h

applied_done :
    (op : PatchOperation) (rest : List PatchOperation) (applied : List String) (done : Bool)
    → (if done then applied ++ (op.path ∷ []) else applied) ++ map (λ o. o.path) rest
      ≡ applied ++ map (λ o. o.path) (if done then op ∷ rest else rest)
applied_done op rest applied true = append_assoc applied (op.path ∷ []) (map (λ o. o.path) rest)
applied_done op rest applied false = refl

same {ℓ} : {A : Type ℓ} (b : Bool) {x y z : A} → x ≡ z → y ≡ z → (if b then x else y) ≡ z
same true e f = e
same false e f = f

not_done {ℓ} : {A : Type ℓ} (b : Bool) (x y : A) → b ≡ false → (if b then x else y) ≡ y
not_done b x y h = rw h refl

failed_after :
    (failed more : List String) (done : Bool)
    → is_empty failed ≡ false
    → is_empty (if done then failed else failed ++ more) ≡ false
unfolding is_empty
failed_after failed more true h = h
failed_after [] more false h = absurd (ground (arith, h))
failed_after (f ∷ failed) more false h = refl

failed_here :
    (failed : List String) (path : String) (done : Bool)
    → done ≡ false
    → is_empty (if done then failed else failed ++ (path ∷ [])) ≡ false
unfolding is_empty
failed_here [] path done h = rw h refl
failed_here (f ∷ failed) path done h = rw h refl

pub both_ways : (b : Bool) → b ≡ true → b ≡ false → ⊥
both_ways true h g = ground (arith, g)
both_ways false h g = ground (arith, h)

edit_other :
    (op : PatchOperation) (f : Files) (j : String)
    → (as_posix op.path == j) ≡ false
    → edit op f j ≡ f j
unfolding edit
edit_other op f j h = rw h refl

done_edit :
    (op : PatchOperation) (t : Tree) (p : Performed) (i : String)
    → Refines op t p
    → file_at p.tree i ≡ (if p.done then edit op (file_at t) i else file_at t i)
unfolding Refines
done_edit op t p i h = h i

module _ (os_message : (call path : String) → String) (fnmatchcase : String → String → Bool)
    (source : Tree) (allowed_patch_scope : List String) where
  run : Tree → PatchOperation → Performed
  run = apply_operation os_message fnmatchcase source allowed_patch_scope

  -- The operations that the loop does.
  unfoldable pub performed : Tree → List PatchOperation → List PatchOperation
  unfolding run
  performed t [] = []
  performed t (op ∷ ops) =
      let rest = performed (run t op).tree ops in if (run t op).done then op ∷ rest else rest

  apply_operation-Refines : (t : Tree) (op : PatchOperation) → Refines op t (run t op)
  unfolding run apply_operation apply_guarded
  apply_operation-Refines t op =
      let scope_error = patch_scope_error fnmatchcase op.path allowed_patch_scope in
      let linked = fails t ("unsafe source symlink in patch path: " ⧺ op.path) in
      let target = safe_patch_target os_message existing t op.path in
      let done = on_target os_message (perform os_message op) t target in
      let allowed = if source_path_uses_symlink source op.path then linked else done in
      if_cases (Refines op t) (scope_error == "") allowed (fails t scope_error)
        (λ e.
          if_cases (Refines op t) (source_path_uses_symlink source op.path) linked done
            (λ f.
              fails-Refines op t t ("unsafe source symlink in patch path: " ⧺ op.path)
                (SameFiles-refl t))
            (λ f.
              on_target-Refines os_message op t (perform os_message op) target
                (safe_patch_target-Reaches os_message existing t op.path)
                (λ made h.
                  Refines-SameFiles op t made (perform os_message op made) h
                    (perform-Refines os_message op made))))
        (λ e. fails-Refines op t t scope_error (SameFiles-refl t))

  -- The paths whose files the operations may change.
  IsAllowed : PatchOperation → Type 0
  IsAllowed op =
      (unsafe_path op.path ≡ false)
      × ((is_empty allowed_patch_scope
            || any_match fnmatchcase (as_posix op.path) allowed_patch_scope)
          ≡ true)
      × (source_path_uses_symlink source op.path ≡ false)

  -- An operation that is done has an allowed path.
  apply_operation-IsAllowed :
      (t : Tree) (op : PatchOperation) → (run t op).done ≡ true → IsAllowed op
  unfolding run apply_operation apply_guarded IsAllowed
  apply_operation-IsAllowed t op h =
      ground (arith, patch_scope_error_lem fnmatchcase op.path allowed_patch_scope)

  -- The files after the loop are those of a replay of what was done, and the applied files are the
  -- paths of that.
  pub apply_operations-replay :
      (ops : List PatchOperation) (p : Progress) (j : String)
      → let q = apply_operations os_message fnmatchcase source allowed_patch_scope ops p in
        (file_at q.tree j ≡ replay (performed p.tree ops) (file_at p.tree) j)
        × (q.applied ≡ p.applied ++ map (λ op. op.path) (performed p.tree ops))
  unfolding apply_operations performed record_operation run replay file_at
  apply_operations-replay [] p j = (refl, sym (append-nil p.applied))
  apply_operations-replay (op ∷ ops) p j =
      let a = run p.tree op in
      let rest = performed a.tree ops in
      let next = record_operation os_message fnmatchcase source allowed_patch_scope p op a in
      let ih = apply_operations-replay ops next j in
      (
        ih.0
            ∙ replay_done op rest a.done (file_at p.tree) (file_at a.tree) j
                (λ i. done_edit op p.tree a i (apply_operation-Refines p.tree op)),
        ih.1 ∙ applied_done op rest p.applied a.done,
      )

  -- A path that failed stays among the failed files.
  failed_stays :
      (ops : List PatchOperation) (p : Progress)
      → is_empty p.failed ≡ false
      → is_empty (apply_operations os_message fnmatchcase source allowed_patch_scope ops p).failed
        ≡ false
  unfolding apply_operations record_operation run
  failed_stays [] p h = h
  failed_stays (op ∷ ops) p h =
      let a = run p.tree op in
      failed_stays ops (record_operation os_message fnmatchcase source allowed_patch_scope p op a)
        (failed_after p.failed (op.path ∷ []) a.done h)

  -- A loop after which no path failed did every operation.
  pub apply_operations-performed :
      (ops : List PatchOperation) (p : Progress)
      → is_empty (apply_operations os_message fnmatchcase source allowed_patch_scope ops p).failed
        ≡ true
      → performed p.tree ops ≡ ops
  unfolding apply_operations performed record_operation run
  apply_operations-performed [] p h = refl
  apply_operations-performed (op ∷ ops) p h =
      let a = run p.tree op in
      let next = record_operation os_message fnmatchcase source allowed_patch_scope p op a in
      elim (Bool-cases a.done) [
        | inl d ↦ rw (d, apply_operations-performed ops next h) refl
        | inr d ↦ absurd (
            both_ways
              (is_empty
                (apply_operations os_message fnmatchcase source allowed_patch_scope ops
                  next).failed)
              h (failed_stays ops next (failed_here p.failed op.path a.done d)))
      ]

  -- The path of a file that some operation of a patch set may change.
  unfoldable pub IsTouched : List PatchOperation → String → Type 0
  unfolding IsAllowed
  IsTouched [] j = ⊥
  IsTouched (op ∷ ops) j = ((as_posix op.path ≡ j) × IsAllowed op) ⊎ IsTouched ops j

  apply_operation-IsTouched :
      (t : Tree) (op : PatchOperation) (ops : List PatchOperation) (j : String)
      → (file_at (run t op).tree j ≡ file_at t j) ⊎ IsTouched (op ∷ ops) j
  unfolding IsTouched
  apply_operation-IsTouched t op ops j =
      let answer = run t op in
      let files = done_edit op t answer j (apply_operation-Refines t op) in
      elim (Bool-cases (as_posix op.path == j)) [
        | inr k ↦ inl (files ∙ same answer.done (edit_other op (file_at t) j k) refl)
        | inl k ↦ elim (Bool-cases answer.done) [
          | inl d ↦ inr (inl ((eq_iff (as_posix op.path) j).0 k, apply_operation-IsAllowed t op d))
          | inr d ↦ inl (files ∙ not_done answer.done (edit op (file_at t) j) (file_at t j) d)
        ]
      ]

  -- After the loop a file is as it was, or some operation has its path: one that is safe, within
  -- the scope, and not below a link of the source.
  pub apply_operations-IsTouched :
      (ops : List PatchOperation) (p : Progress) (j : String)
      → let q = apply_operations os_message fnmatchcase source allowed_patch_scope ops p in
        (file_at q.tree j ≡ file_at p.tree j) ⊎ IsTouched ops j
  unfolding apply_operations IsTouched record_operation run file_at
  apply_operations-IsTouched [] p j = inl refl
  apply_operations-IsTouched (op ∷ ops) p j =
      let a = run p.tree op in
      let next = record_operation os_message fnmatchcase source allowed_patch_scope p op a in
      elim (apply_operations-IsTouched ops next j) [
        | inr later ↦ inr (inr later)
        | inl e ↦ elim (apply_operation-IsTouched p.tree op ops j) [
          | inl f ↦ inl (e ∙ f)
          | inr touched ↦ inr touched
        ]
      ]
