-- ===== src/Persistence/Snapshot.antt =====
-- persistence/transactional_snapshot.py: a commit as the list of the changes that it makes to the
-- directory, each of them atomic; a crash stops the list somewhere. The directory has its
-- generations with their files, the pointer CURRENT, and the flat paths of the old layout. Links
-- are supported; the lock makes a commit one run. The lock files that the writes leave beside the
-- staged files are left out with their removal, so no write may have the path of another one with
-- `.lock` added, and a path is its text, so no two texts may name one file. `dump` is the JSON text of a payload, `loads` what
-- is read of one, and `str` its text; `sha256` is the digest of a file's text and `size` its length
-- in bytes.
mod Directory
pub mod Calm
pub mod Staged
pub mod Atomic
pub mod Reading
pub mod Sorted
pub mod Checked
mod Tests
pub use Directory.{
  FlatPath, legacy_file, current_link, Disk, SnapshotRoot, legacy_root, generation, invalid_pointer,
  Change, make_directory, write_file, rename, publish_current, link, remove_file, remove_directory,
}
unfoldable pub use Directory.{
  resolve, is_valid_pointer, drop_key, or_no_content, files_in, apply_change, apply_changes, crash,
  remove_tree,
}
use Prim.Native.String.{◌++◌ as ◌⧺◌}
use package.text.Mathlib.Text.{starts_with}
use cognitive_evolve.Prelude.{
  ℕ, zero, suc, String, Bool, true, false, not, contains, ◌||◌, ◌&&◌, Dict, get, put, Option, none,
  some, List, [], ◌∷◌, ◌++◌, map, ◌==◌, if◌then◌else◌,
}
use cognitive_evolve.Durable.Paths.{strip}
use cognitive_evolve.Tools.PatchPath.{parts, is_absolute, replace_text}
use cognitive_evolve.Json.{Python, Value, text, int, object, Fields, end, field}

pub record SnapshotWrite : Type 0 where
  pub relative_path : String
  pub kind : String
  pub payload : Value
  pub sort_keys : Bool

-- What Python and the system give.
pub record SnapshotCodec : Type 0 where
  pub py : Python
  pub dump : Bool → Value → String
  pub loads : String → Option Value
  pub str : Value → String
  pub sha256 : String → String
  pub size : String → ℕ

abbrev pub manifest_name : String
manifest_name = "snapshot-transaction.json"

checked_path : String → Option String
checked_path rel =
    if (rel == "") || is_absolute rel || contains (parts rel) ".." then none else some rel

-- `_safe_relative_path`; none where it raises.
unfoldable pub safe_relative_path : Python → String → Option String
unfolding checked_path
safe_relative_path py value = checked_path (replace_text "\\" "/" (strip py value))

pub record StagedFile : Type 0 where
  pub target : String
  pub kind : String
  pub content : String

staged_at : SnapshotCodec → SnapshotWrite → Option String → Option StagedFile
staged_at c w none = none
staged_at c w (some target) =
    if w.kind == "json"
    then some (record { target = target; kind = w.kind; content = c.dump w.sort_keys w.payload })
    else if w.kind == "text"
    then some (record { target = target; kind = w.kind; content = c.str w.payload })
    else none

-- The staged file of a write; none where the code raises.
unfoldable pub staged : SnapshotCodec → SnapshotWrite → Option StagedFile
unfolding staged_at
staged c w = staged_at c w (safe_relative_path c.py w.relative_path)

add_staged : Option StagedFile → List StagedFile × Bool → List StagedFile × Bool
add_staged none rest = ([], false)
add_staged (some f) rest = (f ∷ rest.0, rest.1)

-- The files that are staged before a write raises, and whether none does.
unfoldable pub staged_files : SnapshotCodec → List SnapshotWrite → List StagedFile × Bool
unfolding add_staged
staged_files c [] = ([], true)
staged_files c (w ∷ ws) = add_staged (staged c w) (staged_files c ws)

unfoldable pub put_files : List StagedFile → Dict String → Dict String
put_files [] files = files
put_files (f ∷ fs) files = put_files fs (put files f.target f.content)

unfoldable pub manifest_entries : SnapshotCodec → List StagedFile → Dict Value → Dict Value
manifest_entries c [] entries = entries
manifest_entries c (f ∷ fs) entries = manifest_entries c fs (
    put entries f.target (
      object (
        field "kind" (text f.kind) (
          field "sha256" (text (c.sha256 f.content))
            (field "bytes" (int (c.size f.content)) end)))))

unfoldable pub to_fields : Dict Value → Fields
to_fields [] = end
to_fields ((k, v) ∷ d) = field k v (to_fields d)

keys : Dict Value → List String
keys [] = []
keys ((k, v) ∷ d) = k ∷ keys d

-- The manifest of a transaction; `watermark` is that of the event store.
unfoldable pub manifest_value :
    SnapshotCodec → (transaction_id created_at : String) → Value → List StagedFile → Value
manifest_value c transaction_id created_at watermark fs = object (
    field "schema" (text "cogev.nexus_snapshot_transaction.v1") (
      field "transaction_id" (text transaction_id) (
        field "created_at" (text created_at) (
          field "event_watermark" watermark
            (field "files" (object (to_fields (manifest_entries c fs []))) end)))))

unfoldable pub manifest :
    SnapshotCodec → (transaction_id created_at : String) → Value → List StagedFile → String
manifest c transaction_id created_at watermark fs =
    c.dump true (manifest_value c transaction_id created_at watermark fs)

write_changes : String → List StagedFile → List Change
write_changes staging [] = []
write_changes staging (f ∷ fs) = write_file staging f.target f.content ∷ write_changes staging fs

clear_staging : String → Option (Dict String) → List Change
unfolding remove_tree
clear_staging name none = []
clear_staging name (some files) = remove_tree name files

-- `_prune_generations`, of the generations that stand there beside the new one.
prune_generations : (transaction_id previous : String) → Dict (Dict String) → List Change
unfolding remove_tree
prune_generations transaction_id previous [] = []
prune_generations transaction_id previous ((name, files) ∷ d) =
    let rest = prune_generations transaction_id previous d in
    if starts_with name "txn-" && not ((name == transaction_id) || (name == previous))
    then remove_tree name files ++ rest
    else rest

previous_id : Option String → String
previous_id none = ""
previous_id (some id) = id

unfoldable pub staging_name : String → String
staging_name transaction_id = "." ⧺ transaction_id ⧺ ".staging"

-- The changes before CURRENT is replaced.
unfoldable pub staging_changes : Disk → String → List StagedFile → List Change
unfolding clear_staging write_changes
staging_changes d transaction_id fs =
    clear_staging (staging_name transaction_id) (get d.generations (staging_name transaction_id))
    ++ (make_directory (staging_name transaction_id)
        ∷ write_changes (staging_name transaction_id) fs)

-- The changes after it.
unfoldable pub closing_changes : Disk → String → List String → List Change
unfolding prune_generations previous_id
closing_changes d transaction_id paths =
    map link paths ++ prune_generations transaction_id (previous_id d.current) d.generations

-- `commit`: its changes, and whether it returns a result. An invalid pointer raises at once; a write
-- that raises clears the staging.
module _ (c : SnapshotCodec) (transaction_id created_at : String) (watermark : Value) where
  unfoldable pub generation_files : List SnapshotWrite → List StagedFile
  generation_files writes =
      let fs = (staged_files c writes).0 in
      fs
      ++ (record {
        target = manifest_name;
        kind = "json";
        content = manifest c transaction_id created_at watermark fs;
      }
          ∷ [])

  unfoldable pub publishing_changes : Disk → List SnapshotWrite → List Change
  unfolding keys manifest_entries
  publishing_changes d writes =
      staging_changes d transaction_id (generation_files writes)
      ++ (rename (staging_name transaction_id) transaction_id
          ∷ publish_current transaction_id
          ∷ closing_changes d transaction_id
              (keys (manifest_entries c (staged_files c writes).0 []) ++ (manifest_name ∷ [])))

  unfoldable pub raising_changes : Disk → List SnapshotWrite → List Change
  unfolding clear_staging
  raising_changes d writes =
      let fs = (staged_files c writes).0 in
      staging_changes d transaction_id fs
      ++ remove_tree (staging_name transaction_id) (put_files fs [])

  unfoldable pub commit : Disk → List SnapshotWrite → List Change × Bool
  unfolding is_valid_pointer
  commit d writes =
      if is_valid_pointer d.current
      then if (staged_files c writes).1
        then (publishing_changes d writes, true)
        else (raising_changes d writes, false)
      else ([], false)
