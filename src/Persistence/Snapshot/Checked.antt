-- ===== src/Persistence/Snapshot/Checked.antt =====
-- What is read of a committed generation.
use cognitive_evolve.Prelude.{String, ◌≡◌, refl, Bool, false, Option, none, some, ◌==◌}
use cognitive_evolve.Json.{Value, text, int, Fields, end, field, ok}
use cognitive_evolve.Persistence.Snapshot.{SnapshotCodec, StagedFile}
use cognitive_evolve.Persistence.Snapshot.Reading.{parse_payload}

-- The entry of a staged file in the manifest.
abbrev entry_fields : SnapshotCodec → StagedFile → Fields
entry_fields c f =
    field "kind" (text f.kind)
      (field "sha256" (text (c.sha256 f.content)) (field "bytes" (int (c.size f.content)) end))

module _ (c : SnapshotCodec) (less : String → String → Bool)
    (irreflexive : (k : String) → less k k ≡ false)
    (digests : (s : String) → (c.sha256 s == "") ≡ false) where
  digest_of : Option String → String
  digest_of none = ""
  digest_of (some content) = c.sha256 content

  parsed :
      (payload : String) (v : Value) → c.loads payload ≡ some v → parse_payload c payload ≡ ok v
  unfolding parse_payload
  parsed payload v h = rw (parse_payload, h) refl
