-- ===== src/Candidates/Merge/Tests.antt =====
-- Merges of small patch sets.
use cognitive_evolve.Prelude.{String, ◌≡◌, refl, true, [], ◌∷◌, get, put}
use cognitive_evolve.Json.{end}
use cognitive_evolve.Candidates.Merge.{
  PatchOperation, both, same_operation, compatible, merge_known, merge_one, merge_all,
  merge_patch_sets,
}
use cognitive_evolve.Candidates.Merge.Kept.{AllPlaced, first_at, merge_patch_sets-AllPlaced}

abbrev replacement : String → String → PatchOperation
replacement old new = record {
  path = "a.py";
  operation = "replace";
  content = "";
  old_text = old;
  new_text = new;
  metadata = end;
}

abbrev deletion : PatchOperation
deletion = record {
  path = "a.py";
  operation = "delete";
  content = "";
  old_text = "";
  new_text = "";
  metadata = end;
}

program : Unit {0}
unfolding both same_operation compatible merge_known merge_one merge_all merge_patch_sets get put
program = tt

-- A deletion on a path that was changed is refused.
refused_deletion :
    (merge_patch_sets (λ d e. true) (replacement "x" "y" ∷ []) (deletion ∷ [])).patch_set
    ≡ (replacement "x" "y" ∷ [])
unfolding program
refused_deletion = refl

-- Two replacements of one text by different ones are merged without a conflict, if the first
-- operation on the path replaces another text.
missed_conflict :
    let r =
      merge_patch_sets
        (λ d e. true)
        (replacement "x" "y" ∷ replacement "u" "v" ∷ [])
        (replacement "u" "w" ∷ []) in
    (r.patch_set ≡ (replacement "x" "y" ∷ replacement "u" "v" ∷ replacement "u" "w" ∷ []))
    × (r.conflicts ≡ [])
unfolding program
missed_conflict = (refl, refl)

merge_patch_sets-AllPlaced_example :
    let merged =
      (merge_patch_sets
        (λ d e. true)
        (replacement "x" "y" ∷ deletion ∷ [])
        (replacement "u" "v" ∷ [])).patch_set in
    AllPlaced [] merged
    × ((p : String)
        → first_at merged p
          ≡ first_at (replacement "x" "y" ∷ deletion ∷ replacement "u" "v" ∷ []) p)
merge_patch_sets-AllPlaced_example =
    merge_patch_sets-AllPlaced (λ d e. true) (replacement "x" "y" ∷ deletion ∷ [])
      (replacement "u" "v" ∷ [])
