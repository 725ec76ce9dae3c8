-- ===== src/Persistence/Snapshot/Tests.antt =====
-- Commits of small snapshots.
use Prim.Native.String.{◌++◌ as ◌⧺◌}
use cognitive_evolve.Durable.Runner.Ascii.{ascii}
use cognitive_evolve.Prelude.{
  ℕ, ltb, Bool, Option, String, ◌≡◌, refl, true, false, Dict, get, put, none, some, List, [], ◌∷◌,
  if◌then◌else◌, ◌==◌,
}
use cognitive_evolve.Json.{Value, null, text, object, field, err, value_error, get_field, truthy}
use cognitive_evolve.Durable.Paths.{strip}
use cognitive_evolve.Tools.PatchPath.{parts, is_absolute, replace_text}
use cognitive_evolve.Persistence.Snapshot.{
  manifest_value, manifest_entries, to_fields, SnapshotWrite, Disk, generation, resolve, drop_key,
  files_in, apply_change, apply_changes, crash, remove_tree, SnapshotCodec, StagedFile,
  safe_relative_path, staged, staged_files, put_files, manifest, staging_name, staging_changes,
  closing_changes, generation_files, publishing_changes, raising_changes, commit,
}
use cognitive_evolve.Persistence.Snapshot.Reading.{
  parse_payload, expected_hash, entry_in, files_of, verify_payload, check_manifest, with_manifest,
  read_payload, read_relative, read_snapshot_json,
}
use cognitive_evolve.Persistence.Snapshot.Sorted.{sorted_value, insert_field}
use cognitive_evolve.Persistence.Snapshot.Atomic.{IsFresh}

abbrev payload_text : Value → String
payload_text (text s) = s
payload_text _ = "{}"

abbrev silent_codec : SnapshotCodec
silent_codec = record {
  py = ascii;
  dump = λ sort_keys v. payload_text v;
  loads = λ s. none;
  str = payload_text;
  sha256 = λ s. "sha-" ⧺ s;
  size = λ s. 1;
}

abbrev write_of : (relative_path kind content : String) → SnapshotWrite
write_of relative_path kind content = record {
  relative_path = relative_path;
  kind = kind;
  payload = text content;
  sort_keys = true;
}

abbrev writes : List SnapshotWrite
writes = write_of "state.json" "json" "1" ∷ write_of " notes\\a.md" "text" "2" ∷ []

abbrev two_files : List StagedFile
two_files =
    record { target = "state.json"; kind = "json"; content = "1" }
    ∷ record { target = "notes/a.md"; kind = "text"; content = "2" }
    ∷ []

-- The order of the keys of the manifest.
place : String → ℕ
place k =
    if k == "bytes"
    then 0
    else if k == "created_at"
    then 1
    else if k == "event_watermark"
    then 2
    else if k == "files"
    then 3
    else if k == "kind"
    then 4
    else if k == "notes/a.md"
    then 5
    else if k == "schema"
    then 6
    else if k == "sha256"
    then 7
    else if k == "state.json"
    then 8
    else if k == "transaction_id"
    then 9
    else 10

key_less : String → String → Bool
unfolding place
key_less j k = ltb (place j) (place k)

-- It reads the texts of the test, and the manifest with its keys sorted.
abbrev codec : SnapshotCodec
codec = record silent_codec {
  loads = λ s.
      if s == "{}"
      then some (sorted_value key_less (manifest_value silent_codec "txn-1" "t1" null two_files))
      else some (text s);
}

abbrev old_files : Dict String
old_files = ("state.json", "0") ∷ []

abbrev disk : Disk
disk = record {
  generations = ("txn-0", old_files) ∷ ("txn-9", []) ∷ [];
  current = some "txn-0";
  flat = [];
}

program : Unit {0}
unfolding get put strip parts is_absolute replace_text resolve drop_key files_in apply_change
    apply_changes crash remove_tree safe_relative_path staged staged_files put_files manifest_value
    manifest_entries to_fields manifest staging_name staging_changes closing_changes
    generation_files publishing_changes raising_changes commit IsFresh parse_payload expected_hash
    entry_in files_of verify_payload check_manifest with_manifest read_payload read_relative
    read_snapshot_json get_field truthy
program = tt

abbrev after : ℕ → Disk
after n = crash n (commit codec "txn-1" "t1" null disk writes).0 disk

abbrev new_files : Dict String
new_files = ("state.json", "1") ∷ ("notes/a.md", "2") ∷ ("snapshot-transaction.json", "{}") ∷ []

-- A crash after five changes, and after six; at the end the generation that is neither the new one
-- nor the one before is gone.
crashes :
    (resolve (after 5) ≡ generation (some old_files))
    × (resolve (after 6) ≡ generation (some new_files))
    × ((after 20).generations ≡ (("txn-0", old_files) ∷ ("txn-1", new_files) ∷ []))
unfolding program
crashes = (refl, refl, refl)

-- A path that leaves the directory stops the commit.
escaping :
    let done = commit codec "txn-1" "t1" null disk (write_of "../x" "json" "1" ∷ []) in
    (done.1 ≡ false) × (apply_changes done.0 disk ≡ disk)
unfolding program
escaping = (refl, refl)

first_key : Option Value → String
first_key (some (object (field k v d))) = k
first_key _ = ""

-- The manifest is read back with another key first than the one it is built with.
reordered : first_key (codec.loads "{}") ≡ "created_at"
unfolding program first_key sorted_value insert_field key_less
reordered = refl

-- A changed file does not pass the check.
changed_file :
    read_snapshot_json codec true
      (put (put_files (generation_files codec "txn-1" "t1" null writes) []) "state.json" "7")
      "state.json"
    ≡ err value_error
unfolding program sorted_value insert_field key_less
changed_file = refl
