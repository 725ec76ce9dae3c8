-- ===== src/Durable/Runner/Execute.antt =====
-- The execution path of `run_step`: from the reading of the status to the commit.
use cognitive_evolve.Prelude.{String, ◌≡◌, sym, subst, false, some, arith, ◌==◌, if◌then◌else◌}
use cognitive_evolve.Exec.Ensures.{Post, and_then-Post}
use cognitive_evolve.Json.{Fields, end, field, text, Python}
use cognitive_evolve.Durable.StepState.{committed, StepStatus, status_to_dict}
use cognitive_evolve.Durable.Store.{World, files_at, commit_output, mark_failed}
use cognitive_evolve.Durable.Store.Invariant.{IsFiled, Inv, Filed}
use cognitive_evolve.Durable.Runner.{
  StepRunner, Outcome, returned, returned_other, raises, log_event, event, fail, settle,
}
use cognitive_evolve.Durable.Runner.Invariant.{Landed, mark_failed-Landed, commit_output-Landed}

-- The files, the clock and the calls do not change by an event.
pub log_event-quiet :
    (r : StepRunner) (e : String) (s : StepStatus) (d : Fields) (w : World)
    → ((log_event r e s d w).files ≡ w.files)
      × ((log_event r e s d w).now ≡ w.now)
      × ((log_event r e s d w).calls ≡ w.calls)
unfolding log_event
log_event-quiet r e s d w = ground arith

module _ (py : Python) where
  pub Inv-same : {v w : World} → v.files ≡ w.files → v.now ≡ w.now → Inv py w → Inv py v
  Inv-same {v} {w} f n h = record {
    filed = λ p. subst (λ d. Filed py (files_at d p).status p) (sym f) (h.filed p);
    clock = subst (λ t. (t == "") ≡ false) (sym n) h.clock;
  }

  -- The step's output is committed.
  abbrev pub Done : (p hash : String) (d : Fields) → World → Type 0
  Done p hash d v = (t : StepStatus) × Landed py p hash committed (some d) t v

  pub Done-same :
      {p hash : String} {d : Fields} {v w : World}
      → v.files ≡ w.files
      → v.now ≡ w.now
      → Done p hash d w
      → Done p hash d v
  Done-same {p} {d = d} f n (t, h) = (
    t,
    record {
      inv = Inv-same f n h.inv;
      is_filed = h.is_filed;
      state = h.state;
      same_hash = h.same_hash;
      written = subst (λ g. (files_at g p).status ≡ some (status_to_dict t)) (sym f) h.written;
      output = subst (λ g. (files_at g p).output ≡ some d) (sym f) h.output;
    },
  )

  module _ (r : StepRunner) (p : String) where
    fail-Post :
        (hash : String) (s : StepStatus) (class message : String) {w : World}
        → Inv py w
        → IsFiled py s p
        → Post (Done p hash) (Inv py) (fail py r s class message w)
    unfolding fail event
    fail-Post hash s class message {w} inv h =
        and_then-Post _ (Done p hash) (Inv py) (mark_failed py s (r.retries class) class message w)
          _ (mark_failed-Landed py s p inv h (r.retries class) class message)
          (λ t v l.
            let (files, now, _) =
              log_event-quiet r
                (if r.retries class then "step_retryable_failed" else "step_terminal_failed") t
                (field "error" (text message) end) v in
            Inv-same files now l.inv)

    pub settle-Post :
        (s : StepStatus) (fn : Outcome) {w : World}
        → Inv py w
        → IsFiled py s p
        → Post (Done p s.input_hash) (Inv py) (settle py r s fn w)
    unfolding settle event
    settle-Post s (returned d) {w} inv h =
        and_then-Post _ (Done p s.input_hash) (Inv py) (commit_output py s d w) _
          (commit_output-Landed py s p inv h d)
          (λ t v l.
            let (files, now, _) =
              log_event-quiet r "step_committed" t (field "output_hash" (text t.output_hash) end)
                v in
            Done-same files now (t, l))
    settle-Post s returned_other inv h = fail-Post s.input_hash s _ _ inv h
    settle-Post s (raises class message) inv h = fail-Post s.input_hash s class message inv h
