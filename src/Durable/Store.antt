-- ===== src/Durable/Store.antt =====
-- durable/checkpoint_store.py over a directory tree: a step's directory has three JSON files.
-- A file that is absent, unreadable or no object is `none`, as `read_json` answers for it.
pub mod Invariant
use cognitive_evolve.Prelude.{
  ℕ, ◌+◌, String, Bool, Dict, get, put, Option, none, some, List, ◌==◌, if◌then◌else◌,
}
use cognitive_evolve.Json.{text, object, Fields, end, field, Python, Result, ok, err}
use cognitive_evolve.Exec.{Exec, pure, lift, ◌>>=◌, ◌>>◌}
use cognitive_evolve.Durable.Paths.{step_dir}
use cognitive_evolve.Durable.StepState.{
  created, inflight, committed, retryable_failed, terminal_failed, StepStatus, transition,
  status_to_dict, status_from_dict,
}

pub record StepFiles : Type 0 where
  pub input : Option Fields
  pub status : Option Fields
  pub output : Option Fields

-- DurableEvent of durable/event_log.py
pub record DurableEvent : Type 0 where
  pub event_type : String
  pub run_id : String
  pub round_id : String
  pub step_id : String
  pub timestamp : String
  pub payload : Fields

-- The store's files, the events appended to the log, and how often a step's function was called.
-- `now` is the clock's reading, one for each operation.
pub record World : Type 0 where
  pub files : Dict StepFiles
  pub log : List DurableEvent
  pub calls : ℕ
  pub now : String

pub record StepKey : Type 0 where
  pub round_id : String
  pub step_id : String
  pub step_name : String

abbrev no_files : StepFiles
no_files = record { input = none; status = none; output = none }

abbrev or_no_files : Option StepFiles → StepFiles
or_no_files none = no_files
or_no_files (some f) = f

unfoldable pub files_at : Dict StepFiles → String → StepFiles
files_at d path = or_no_files (get d path)

-- stable_hash(value)
abbrev pub stable_hash : Python → Fields → String
stable_hash py d = py.sha256_json (object d)

abbrev pub present : Result StepStatus → Result (Option StepStatus)
present (ok s) = ok (some s)
present (err e) = err e

-- A new status of the step; `now` fills both times.
unfoldable pub new_status :
    (now run_id : String) → StepKey → (input_hash : String) → Fields → StepStatus
new_status now run_id k input_hash metadata = record {
  run_id = run_id;
  round_id = k.round_id;
  step_id = k.step_id;
  step_name = k.step_name;
  state = created;
  attempt = 0;
  input_hash = input_hash;
  output_hash = "";
  created_at = now;
  updated_at = now;
  reason = "";
  error = end;
  metadata = metadata;
}

module _ (py : Python) where
  abbrev pub key_dir : StepKey → String
  key_dir k = step_dir py k.round_id k.step_id k.step_name

  abbrev pub status_dir : StepStatus → String
  status_dir s = step_dir py s.round_id s.step_id s.step_name

  unfoldable pub write_status : StepStatus → Exec World Unit
  unfolding files_at
  write_status s w =
      let dir = status_dir s in
      (
        ok tt,
        record w {
          files =
              put w.files dir (record (files_at w.files dir) { status = some (status_to_dict s) });
        },
      )

  unfoldable pub write_input_file : StepKey → Fields → Exec World Unit
  unfolding files_at
  write_input_file k input w =
      let dir = key_dir k in
      (
        ok tt,
        record w { files = put w.files dir (record (files_at w.files dir) { input = some input }) },
      )

  unfoldable pub write_output_file : StepStatus → Fields → Exec World Unit
  unfolding files_at
  write_output_file s output w =
      let dir = status_dir s in
      (
        ok tt,
        record w {
          files = put w.files dir (record (files_at w.files dir) { output = some output });
        },
      )

  -- StepStatus.from_dict(data) if isinstance(data, dict) and data else None
  unfoldable pub decode_status : String → Option Fields → Result (Option StepStatus)
  decode_status now none = ok none
  decode_status now (some end) = ok none
  decode_status now (some (field k v d)) = present (status_from_dict py now (field k v d))

  unfoldable pub read_status : StepKey → Exec World (Option StepStatus)
  unfolding files_at decode_status
  read_status k w = (decode_status w.now (files_at w.files (key_dir k)).status, w)

  unfoldable pub read_output : StepKey → Exec World (Option Fields)
  unfolding files_at
  read_output k w = (ok (files_at w.files (key_dir k)).output, w)

  unfoldable pub read_input : StepKey → Exec World (Option Fields)
  unfolding files_at
  read_input k w = (ok (files_at w.files (key_dir k)).input, w)

  -- status = read or new; `if not status.input_hash: …`; status.updated_at = utc_now()
  unfoldable pub touch : (now run_id : String) → StepKey → Fields → Option StepStatus → StepStatus
  touch now run_id k input none = new_status now run_id k (stable_hash py input) end
  touch now run_id k input (some s) = record s {
    input_hash = if s.input_hash == "" then stable_hash py input else s.input_hash;
    updated_at = now;
  }

  unfoldable pub write_input : StepKey → Fields → String → Exec World StepStatus
  unfolding write_input_file read_status write_status
  write_input k input run_id w =
      (do
        write_input_file k input
        found ← read_status k
        write_status (touch w.now run_id k input found)
        pure (touch w.now run_id k input found))
        w

  -- The transition that was computed is written, or its error raised.
  unfoldable pub publish : Result StepStatus → Exec World StepStatus
  unfolding write_status
  publish changed = do t ← lift changed; write_status t; pure t

  unfoldable pub write_inflight_status : StepStatus → Exec World StepStatus
  write_inflight_status s w =
      publish
        (transition w.now (record s { attempt = s.attempt + 1 }) inflight "step_started" none end) w

  -- The output is written first.
  unfoldable pub commit_output : StepStatus → Fields → Exec World StepStatus
  commit_output s output w =
      (do
        write_output_file s output
        publish (
            transition w.now (record s { output_hash = stable_hash py output }) committed
              "output_validated_and_atomically_committed" none end))
        w

  -- The callers' errors have a "type" and a "message".
  unfoldable pub mark_failed :
      StepStatus → (retryable : Bool) → (class message : String) → Exec World StepStatus
  mark_failed s retryable class message w =
      publish
        (transition w.now s (if retryable then retryable_failed else terminal_failed) message
          (some (field "type" (text class) (field "message" (text message) end))) end)
        w
