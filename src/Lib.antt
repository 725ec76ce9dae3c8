-- ===== src/Lib.antt =====
-- Cognitive Evolve: a model of the parts of cognitive_evolve_runtime that decide what a run may
-- do again, what a verifier's word is worth, and what a candidate or a model call is allowed.
--
-- Parts, by file here and path in the repository:
--   Durable/StepState  cognitive_evolve_runtime/durable/step_state.py: states, transitions and the
--                      stored form of a step's status (validate_transition, transition, to_dict as
--                      status_to_dict, from_dict as status_from_dict).
--   Durable/Paths, Durable/Store  durable/checkpoint_store.py: the directory of a step and the three
--                      files in it. The store is an association list from directories to files; an
--                      action takes a World to a result and a World. The events are those of
--                      durable/event_log.py.
--   Durable/Runner     durable/step_runner.py: run_step, cut at its branches (resume_or_execute,
--                      prepare, make_ready, settle). It calls the store and the log. The step's
--                      function is the outcome of its one call: a value that it returns, or the class
--                      and message of what it raises; `calls` counts the calls.
--   Durable/EventLog   durable/event_log.py: the state rebuilt from the log (EventLog.rebuild).
--   Durable/Planner    durable/resume_planner.py: plan, on the statuses found in a store.
--   Durable/Reaper   durable/reaper.py with apply_stale_inflight of durable/resume_planner.py and
--                      iter_statuses of durable/checkpoint_store.py, over the store and the planner.
--   Durable/Breaker    durable/provider_circuit_breaker.py: one circuit for each provider.
--   Verification/Ladder  verification/ladder.py: the order of the strengths.
--   Verification/Honesty verification/honesty_core.py: what the engine measured of a verifier and the
--                      strength that this earns.
--   Verification/Grading verification/grading.py with GradedOutput of verification/types.py: when a
--                      run's answer is handed out as a result.
--   Verification/Minimax verification/minimax_budget.py: the shares of the adversarial budget.
--   Verification/Obligations  verification/obligation_runner.py: the checks of a population, within a
--                      budget of checks, with the shares of Verification/Minimax.
--   Candidates/Fate    candidates/fate_machine.py, the fates of candidates/genome.py and the table of
--                      nexus/fate_semantics.py.
--   Candidates/Merge   candidates/patch_merge.py: the merge of two patch sets.
--   Llm/Governor       llm/governor.py: the windows of the last minute's requests and tokens.
--   Llm/Budget         llm/budget.py and llm/session.py: the session's costs, and the reservations of
--                      concurrent calls as a list of actions in the order of the session's lock.
--   Persistence/EventStore  persistence/event_store.py: the append-only log of events, as a list of
--                      bytes; appends, replays, watermarks and their audit. A Codec has what JSON,
--                      UTF-8 and redaction give.
--   Persistence/Snapshot  persistence/transactional_snapshot.py: a commit as the list of its atomic
--                      changes of the directory, of which a crash leaves some first ones, and the
--                      resolution of CURRENT by a reader; the reading of a file with the check of
--                      its digest (read_snapshot_json) is Persistence/Snapshot/Reading.
--   Nexus/Loop         nexus/loop/controller.py and nexus/loop/budget.py: the rounds of a run, its
--                      search phases, its interruptions and its end. What the stages of a round
--                      answer is the record Stages, by round.
--   Nexus/Stop         nexus/stop_decision.py (Decision), nexus/stop_reasons.py (Reasons) and
--                      nexus/loop/adaptive_stop.py (Adaptive): the stop reason after a round. The
--                      evaluation of a round gives it to Nexus/Loop.
--   Nexus/Budgets      nexus/budget_factory.py: the budgets that Nexus/Loop starts with.
--   Tools/PatchPath, Tools/SandboxTree, Tools/SandboxCopy, Tools/PatchSandbox, Tools/PatchApply
--                      tools/patch_sandbox.py: the paths of a patch, the tree of a sandbox with the
--                      guards of a target, the copy of the source (prepare), the operations on it
--                      (_apply_operation) and the result (_apply_locked), on the operations of
--                      Candidates/Merge. A tree is an association list from relative paths to files
--                      of text, directories and links.
--   Json, Exec, Prelude  payloads with the reads that the code makes of them; actions with state
--                      that may raise; shared types and lemmas.
--
-- Conventions. Payloads are the type Value of Json, whose numbers are the non-negative integers.
-- What Python computes itself (str of a value, int of a text, character classes, the digest of a
-- canonical JSON text) is the record Python, an argument. The clock is read once for an operation
-- and its reading is part of the state or an argument; seconds are milliseconds where the code has
-- fractions of them. A score is a fraction, compared without rounding; the counts of a verifier's
-- runs have a sign (Verification/Honesty/Signed), as the code clamps them. Float division in the
-- budget is an argument, exact below 2^53 by hypothesis. Most loops run over a list; two use fuel:
-- the loop of rounds, for which one more than the rounds left is enough, and the backward scan of an
-- event file, for which one more than its length is.
--
-- Not modelled: unified patches, which the external patch program applies, and files of the sandbox
-- that are no text; the file system beneath the stores (atomic replacement, partial files, syncs);
-- threads and semaphores (the governor's turns are in the order of its lock); the texts of some
-- errors. Nor are the lock files that a commit leaves in its staging directory and unlinks, so no
-- write may have the name of another one's lock, or paths that differ as texts and name one file;
-- negative numbers and texts that are no number in the stored data of a resumed run, which read as
-- zero here; recommended actions of a diagnosis that are no list, which read as none; and an error of
-- the synthesis at the end of a run, which the code turns into one more interruption. The components
-- around these parts are left out: the stages of a round, ranking, archives, reports and the
-- transport of model calls, which shape payloads or compute with floats.
pub mod Prelude
pub mod Json
pub mod Exec
pub mod Candidates
pub mod Durable
pub mod Llm
pub mod Nexus
pub mod Persistence
pub mod Verification
pub mod Tools
