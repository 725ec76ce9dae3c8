-- ===== src/Candidates/Merge.antt =====
-- candidates/patch_merge.py: the merge of two patch sets, on the operations of
-- candidates/project_candidate.py.
pub mod Kept
mod Tests
use cognitive_evolve.Prelude.{
  String, Bool, true, false, not, ◌&&◌, ◌||◌, Option, none, some, List, [], ◌∷◌, ◌++◌, Dict, get,
  put, ◌==◌, if◌then◌else◌,
}
use cognitive_evolve.Json.{Fields}

pub record PatchOperation : Type 0 where
  pub path : String
  pub operation : String
  pub content : String
  pub old_text : String
  pub new_text : String
  pub metadata : Fields

-- The operations stand for their dictionaries.
pub record PatchMergeConflict : Type 0 where
  pub path : String
  pub reason : String
  pub left_operation : PatchOperation
  pub right_operation : PatchOperation

pub record PatchMergeResult : Type 0 where
  pub patch_set : List PatchOperation
  pub conflicts : List PatchMergeConflict

-- The variables of the loop in `merge_patch_sets`.
pub record Merging : Type 0 where
  pub merged : List PatchOperation
  pub conflicts : List PatchMergeConflict
  pub by_path : Dict PatchOperation

unfoldable pub both : String → PatchOperation → PatchOperation → Bool
both kind a b = (a.operation == kind) && (b.operation == kind)

add : PatchOperation → Merging → Merging
add op m = record m { merged = m.merged ++ (op ∷ []) }

-- A path that was not seen before.
add_first : PatchOperation → Merging → Merging
unfolding add
add_first op m = record (add op m) { by_path = put m.by_path op.path op }

add_conflict : PatchOperation → PatchOperation → Merging → Merging
add_conflict existing op m = record m {
  conflicts =
      m.conflicts
      ++ (record {
        path = op.path;
        reason = "same_path_incompatible_patch_operations";
        left_operation = existing;
        right_operation = op;
      }
          ∷ []);
}

-- `same_dict` is Python's equality of dictionaries.
module _ (same_dict : Fields → Fields → Bool) where
  -- a.to_dict() == b.to_dict()
  unfoldable pub same_operation : PatchOperation → PatchOperation → Bool
  same_operation a b =
      (a.path == b.path)
      && (a.operation == b.operation)
      && (a.content == b.content)
      && (a.old_text == b.old_text)
      && (a.new_text == b.new_text)
      && same_dict a.metadata b.metadata

  unfoldable pub compatible : PatchOperation → PatchOperation → Bool
  compatible existing incoming =
      if same_operation existing incoming
      then true
      else if both "append" existing incoming
      then true
      else if (existing.operation == "delete") || (incoming.operation == "delete")
      then false
      else both "replace" existing incoming && not (existing.old_text == incoming.old_text)

  -- The part of the loop for a path that was seen before.
  unfoldable pub merge_known : PatchOperation → PatchOperation → Merging → Merging
  unfolding add add_conflict
  merge_known existing op m =
      if compatible existing op
      then if both "append" existing op
        then add op m
        else if same_operation existing op
        then m
        else add op m
      else add_conflict existing op m

  merge_found : Option PatchOperation → PatchOperation → Merging → Merging
  unfolding add_first add
  merge_found none op m = add_first op m
  merge_found (some existing) op m = merge_known existing op m

  unfoldable pub merge_one : PatchOperation → Merging → Merging
  unfolding merge_found add_first add
  merge_one op m = merge_found (get m.by_path op.path) op m

  unfoldable pub merge_all : List PatchOperation → Merging → Merging
  merge_all [] m = m
  merge_all (op ∷ ops) m = merge_all ops (merge_one op m)

  unfoldable pub merge_patch_sets : List PatchOperation → List PatchOperation → PatchMergeResult
  merge_patch_sets left right =
      let m = merge_all (left ++ right) (record { merged = []; conflicts = []; by_path = [] }) in
      record { patch_set = m.merged; conflicts = m.conflicts }
