-- ===== src/Tools/SandboxCopy/Copied.antt =====
-- What is in a prepared sandbox.
use cognitive_evolve.Prelude.{
  String, ◌≡◌, refl, sym, ◌∙◌, ap, arith, eq_iff, Bool, true, false, Bool-cases, inl, inr, Option,
  none, some, [], ◌∷◌, get, contains, ◌==◌, ◌||◌, if◌then◌else◌,
}
use cognitive_evolve.Tools.PatchPath.{parts}
use cognitive_evolve.Tools.SandboxTree.{is_link, Node, Tree}
use cognitive_evolve.Tools.SandboxCopy.{
  ignore_dirs, sandbox_sensitive_names, meets, last_part, sandbox_copy_ignored, ignored, left_out,
  copy_entries, prepare_sandbox,
}

kept_entry :
    (b : Bool) (o : Option Node) (node : Node)
    → (if b then none else o) ≡ some node
    → (b ≡ false) × (o ≡ some node)
kept_entry true o node h = ground (arith, h)
kept_entry false o node h = (refl, h)

or_false : (a b : Bool) → (a || b) ≡ false → (a ≡ false) × (b ≡ false)
or_false false b h = (refl, h)
or_false true b h = ground (arith, h)

module _ (matches : String → String → Bool) (lower : String → String) (source : Tree)
    (sandbox_root : String) where
  get-copy_entries :
      (t : Tree) (k : String)
      → get (copy_entries matches lower source sandbox_root t) k
        ≡ (if left_out matches lower source sandbox_root k then none else get t k)
  unfolding get copy_entries
  get-copy_entries [] k = ground arith
  get-copy_entries ((j, node) ∷ t) k = elim (Bool-cases (j == k)) [
    | inl e ↦ ground (
      arith,
      e,
      ap (left_out matches lower source sandbox_root) ((eq_iff j k).0 e),
      get-copy_entries t k,
    )
    | inr e ↦ ground (arith, e, get-copy_entries t k)
  ]

  left_out-ignored :
      (k : String)
      → left_out matches lower source sandbox_root k ≡ false
      → ignored matches lower source sandbox_root k ≡ false
  unfolding left_out
  left_out-ignored k h = ground (arith, h)

  ignored_not :
      (k : String)
      → ignored matches lower source sandbox_root k ≡ false
      → (is_link (get source k) ≡ false)
        × (contains sandbox_sensitive_names (last_part (parts k)) ≡ false)
        × (meets (parts k) ignore_dirs ≡ false)
  unfolding ignored sandbox_copy_ignored
  ignored_not k h =
      let linked = is_link (get source k) in
      let hidden = meets (parts k) ignore_dirs in
      let sensitive = contains sandbox_sensitive_names (last_part (parts k)) in
      let copied = (or_false (sandbox_copy_ignored matches lower source k) _ h).0 in
      let named = (or_false (linked || hidden || sensitive || _) _ copied).0 in
      let kind = or_false (linked || hidden || sensitive) _ named in
      let name = or_false (linked || hidden) sensitive kind.0 in
      let place = or_false linked hidden name.0 in (place.0, name.1, place.1)

  -- What a prepared sandbox has at a path is what the source has there: no link, with no
  -- sensitive name, and in no ignored directory.
  pub get-prepare_sandbox :
      (k : String) (node : Node)
      → get (prepare_sandbox matches lower source sandbox_root) k ≡ some node
      → (get source k ≡ some node)
        × (is_link (some node) ≡ false)
        × (contains sandbox_sensitive_names (last_part (parts k)) ≡ false)
        × (meets (parts k) ignore_dirs ≡ false)
  unfolding prepare_sandbox
  get-prepare_sandbox k node h =
      let e = sym (get-copy_entries source k) ∙ h in
      let kept = kept_entry (left_out matches lower source sandbox_root k) (get source k) node e in
      let clean = ignored_not k (left_out-ignored k kept.0) in
      (kept.1, sym (ap is_link kept.1) ∙ clean.0, clean.1, clean.2)
