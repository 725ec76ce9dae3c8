-- ===== src/Persistence/Snapshot/Reading.antt =====
-- persistence/transactional_snapshot.py: read_snapshot_json, on the files of a snapshot root. An
-- unreadable file is one that is not there.
use cognitive_evolve.Prelude.{
  String, Bool, not, ◌||◌, Dict, get, Option, none, some, ◌==◌, if◌then◌else◌,
}
use cognitive_evolve.Json.{
  Value, text, object, Result, ok, err, raised, value_error, get_field, or_else, str,
}
use cognitive_evolve.Persistence.Snapshot.{SnapshotCodec, manifest_name, safe_relative_path}

module _ (c : SnapshotCodec) where
  unfoldable pub parse_payload : String → Result Value
  parse_payload payload = elim (c.loads payload) [ none ↦ err value_error | some v ↦ ok v ]

  -- str(entry.get("sha256") or "") if isinstance(entry, dict) else ""
  unfoldable pub expected_hash : Option Value → String
  expected_hash (some (object entry)) = str c.py (or_else c.py (get_field entry "sha256") (text ""))
  expected_hash _ = ""

  -- files.get(relative) if isinstance(files, dict) else None
  unfoldable pub entry_in : Option Value → String → Option Value
  entry_in (some (object files)) relative = get_field files relative
  entry_in _ relative = none

  -- manifest.get("files") if isinstance(manifest, dict) else None
  unfoldable pub files_of : Value → Option Value
  files_of (object manifest) = get_field manifest "files"
  files_of _ = none

  unfoldable pub verify_payload : String → String → Result Value
  unfolding parse_payload
  verify_payload payload expected =
      if (expected == "") || not (c.sha256 payload == expected)
      then err value_error
      else parse_payload payload

  unfoldable pub check_manifest : String → String → Option Value → Result Value
  unfolding verify_payload
  check_manifest payload relative none = err value_error
  check_manifest payload relative (some manifest) =
      verify_payload payload (expected_hash (entry_in (files_of manifest) relative))

  -- Without a manifest; `published` tells a generation from a root of the old layout.
  unfoldable pub with_manifest : (published : Bool) → String → String → Option String → Result Value
  unfolding parse_payload check_manifest
  with_manifest published payload relative none =
      if published then err value_error else parse_payload payload
  with_manifest published payload relative (some manifest) =
      check_manifest payload relative (c.loads manifest)

  unfoldable pub read_payload :
      (published : Bool) → Dict String → String → Option String → Result Value
  unfolding with_manifest
  read_payload published files relative none = err (raised "FileNotFoundError" relative)
  read_payload published files relative (some payload) =
      with_manifest published payload relative (get files manifest_name)

  unfoldable pub read_relative : (published : Bool) → Dict String → Option String → Result Value
  unfolding read_payload
  read_relative published files none = err value_error
  read_relative published files (some relative) =
      read_payload published files relative (get files relative)

  -- `read_snapshot_json`
  unfoldable pub read_snapshot_json : (published : Bool) → Dict String → String → Result Value
  unfolding read_relative
  read_snapshot_json published files relative_path =
      read_relative published files (safe_relative_path c.py relative_path)
