-- ===== src/Persistence/Snapshot/Directory.antt =====
-- persistence/transactional_snapshot.py: the directory of the snapshots, its atomic changes, what a
-- reader finds in it, and what a crash leaves of a list of changes.
use package.text.Mathlib.Text.{starts_with}
use cognitive_evolve.Prelude.{
  ℕ, zero, suc, String, Bool, true, Dict, get, put, Option, none, some, List, [], ◌∷◌, ◌==◌,
  if◌then◌else◌,
}

-- A path of the old layout: a file, or a mapping to the current generation.
pub data FlatPath : Type 0 where
  legacy_file : String → FlatPath
  current_link : FlatPath

pub record Disk : Type 0 where
  pub generations : Dict (Dict String)
  pub current : Option String
  pub flat : Dict FlatPath

-- What a reader finds: the old layout, the files of a generation if it is there, or a pointer that
-- names none.
pub data SnapshotRoot : Type 0 where
  legacy_root : Dict FlatPath → SnapshotRoot
  generation : Option (Dict String) → SnapshotRoot
  invalid_pointer : SnapshotRoot

-- `resolve_snapshot_root`, with what stands there; it raises for an invalid pointer.
unfoldable pub resolve : Disk → SnapshotRoot
resolve d = elim d.current [
  | none ↦ legacy_root d.flat
  | some id ↦ if starts_with id "txn-" then generation (get d.generations id) else invalid_pointer
]

unfoldable pub is_valid_pointer : Option String → Bool
is_valid_pointer none = true
is_valid_pointer (some id) = starts_with id "txn-"

unfoldable pub drop_key {ℓ} : {V : Type ℓ} → Dict V → String → Dict V
drop_key [] k = []
drop_key ((j, v) ∷ d) k = let rest = drop_key d k in if j == k then rest else (j, v) ∷ rest

unfoldable pub or_no_content : Option (Dict String) → Dict String
or_no_content none = []
or_no_content (some files) = files

-- The files below generations/<name>.
unfoldable pub files_in : Dict (Dict String) → String → Dict String
unfolding or_no_content
files_in d name = or_no_content (get d name)

-- One change of the directory.
pub data Change : Type 0 where
  make_directory : (name : String) → Change
  write_file : (name target content : String) → Change
  rename : (staging name : String) → Change
  publish_current : (name : String) → Change
  link : (relative_path : String) → Change
  remove_file : (name target : String) → Change
  remove_directory : (name : String) → Change

unfoldable pub apply_change : Change → Disk → Disk
apply_change (make_directory name) d = record d { generations = put d.generations name [] }
apply_change (write_file name target content) d = record d {
  generations = put d.generations name (put (files_in d.generations name) target content);
}
apply_change (rename staging name) d = record d {
  generations = put (drop_key d.generations staging) name (files_in d.generations staging);
}
apply_change (publish_current name) d = record d { current = some name }
apply_change (link path) d = record d { flat = put d.flat path current_link }
apply_change (remove_file name target) d = record d {
  generations = put d.generations name (drop_key (files_in d.generations name) target);
}
apply_change (remove_directory name) d = record d { generations = drop_key d.generations name }

unfoldable pub apply_changes : List Change → Disk → Disk
apply_changes [] d = d
apply_changes (c ∷ cs) d = apply_changes cs (apply_change c d)

-- The directory when a crash stops the changes after the first n.
unfoldable pub crash : ℕ → List Change → Disk → Disk
crash zero cs d = d
crash (suc n) [] d = d
crash (suc n) (c ∷ cs) d = crash n cs (apply_change c d)

-- shutil.rmtree: the files, then the directory.
unfoldable pub remove_tree : String → Dict String → List Change
remove_tree name [] = remove_directory name ∷ []
remove_tree name ((target, content) ∷ files) = remove_file name target ∷ remove_tree name files
