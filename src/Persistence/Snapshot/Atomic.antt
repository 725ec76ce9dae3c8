-- ===== src/Persistence/Snapshot/Atomic.antt =====
-- A commit is atomic for readers, wherever a crash stops it.
use cognitive_evolve.Prelude.{String, ◌≡◌, true}
use package.text.Mathlib.Text.{starts_with}
use cognitive_evolve.Json.{Value}
use cognitive_evolve.Persistence.Snapshot.{Disk, SnapshotCodec, staging_name}
use cognitive_evolve.Persistence.Snapshot.Calm.{Misses}

module _ (c : SnapshotCodec) (transaction_id created_at : String) (watermark : Value) where
  -- The names of a transaction are not in use by the current generation, and its id is one.
  unfoldable pub IsFresh : Disk → Type 0
  unfolding Misses
  IsFresh d =
      Misses d.current (staging_name transaction_id)
      × Misses d.current transaction_id
      × (starts_with transaction_id "txn-" ≡ true)
