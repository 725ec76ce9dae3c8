-- ===== src/Durable/Planner/Counts.antt =====
-- What the plan of durable/resume_planner.py counts, and what its verdict means.
use cognitive_evolve.Prelude.{
  ℕ, ◌+◌, ◌<◌, ltb, ◌≡◌, Bool, true, false, not, ◌&&◌, ◌||◌, List, [], ◌∷◌, arith, length, count,
  count_none, All, All-map, length-append, if◌then◌else◌,
}
use native.Mathlib.Nat.{zero-add}
use cognitive_evolve.Durable.StepState.{
  inflight, committed, terminal_failed, cancelled, StepStatus, is_known, same_state,
}
use cognitive_evolve.Durable.Planner.{
  ResumePlanner, Tally, zero_tally, is_stale, tally_status, tally, plan_status, plan,
}

-- The classes of statuses, by the state alone.
unfoldable pub is_committed : StepStatus → Bool
is_committed s = same_state s.state committed

unfoldable pub is_stopped : StepStatus → Bool
is_stopped s = same_state s.state terminal_failed || same_state s.state cancelled

unfoldable pub is_stale_inflight : ResumePlanner → StepStatus → Bool
is_stale_inflight p s = same_state s.state inflight && is_stale p s

unfoldable pub is_runnable : StepStatus → Bool
is_runnable s =
    is_known s.state
    && not (same_state s.state inflight)
    && not (is_committed s)
    && not (is_stopped s)

one : Bool → ℕ
one b = if b then 1 else 0

-- One round adds one to the class of the status, and one action if the state is known.
record Adds (p : ResumePlanner) (s : StepStatus) (t u : Tally) : Type 0 where
  committed : u.committed ≡ t.committed + one (is_committed s)
  retryable : u.retryable ≡ t.retryable + one (is_runnable s)
  stopped : u.terminal_failed ≡ t.terminal_failed + one (is_stopped s)
  stale : u.inflight_stale ≡ t.inflight_stale + one (is_stale_inflight p s)
  actions : length u.actions ≡ length t.actions + one (is_known s.state)

count-cons :
    (f : StepStatus → Bool) (s : StepStatus) (ss : List StepStatus)
    → count f (s ∷ ss) ≡ one (f s) + count f ss
unfolding one
count-cons f s ss = ground arith

tally_status-Adds :
    (p : ResumePlanner) (s : StepStatus) (t : Tally) → Adds p s t (tally_status p s t)
unfolding tally_status is_committed is_runnable is_stopped is_stale_inflight one is_known same_state
tally_status-Adds p s t = record {
  committed = ground arith;
  retryable = ground arith;
  stopped = ground arith;
  stale = ground arith;
  actions = grind (arith, length-append);
}

-- In flight, and not for longer than the timeout.
unfoldable pub is_waiting : ResumePlanner → StepStatus → Bool
is_waiting p s = same_state s.state inflight && not (is_stale p s)

module _ (p : ResumePlanner) where
  -- The tally after the loop, class by class.
  record Sums (ss : List StepStatus) (t u : Tally) : Type 0 where
    committed : u.committed ≡ t.committed + count is_committed ss
    retryable : u.retryable ≡ t.retryable + count is_runnable ss
    stopped : u.terminal_failed ≡ t.terminal_failed + count is_stopped ss
    stale : u.inflight_stale ≡ t.inflight_stale + count (is_stale_inflight p) ss
    actions : length u.actions ≡ length t.actions + count (λ s. is_known s.state) ss

  Sums-tally : (ss : List StepStatus) (t : Tally) → Sums ss t (tally p ss t)
  unfolding tally
  Sums-tally [] t = omega arith
  Sums-tally (s ∷ ss) t =
      let a = tally_status-Adds p s t in
      let b = Sums-tally ss (tally_status p s t) in
      record {
        committed = omega (arith, a.committed, b.committed, count-cons is_committed s ss);
        retryable = omega (arith, a.retryable, b.retryable, count-cons is_runnable s ss);
        stopped = omega (arith, a.stopped, b.stopped, count-cons is_stopped s ss);
        stale = omega (arith, a.stale, b.stale, count-cons (is_stale_inflight p) s ss);
        actions = omega (arith, a.actions, b.actions, count-cons (λ x. is_known x.state) s ss);
      }

  -- The plan counts each class of statuses exactly, and has one action for each known status.
  pub plan_counts :
      (ss : List StepStatus)
      → ((plan p ss).committed_steps ≡ count is_committed ss)
        × ((plan p ss).retryable_steps ≡ count is_runnable ss)
        × ((plan p ss).terminal_failed_steps ≡ count is_stopped ss)
        × ((plan p ss).inflight_stale_steps ≡ count (is_stale_inflight p) ss)
        × (length (plan p ss).actions ≡ count (λ s. is_known s.state) ss)
  unfolding plan
  plan_counts ss =
      let h = Sums-tally ss zero_tally in
      (
        omega (arith, h.committed),
        omega (arith, h.retryable),
        omega (arith, h.stopped),
        omega (arith, h.stale),
        omega (arith, h.actions),
      )

  -- The verdict by the statuses alone: a stopped step decides first, then a stale or a runnable one,
  -- then a committed one; without any of these it is "empty".
  pub plan_verdict :
      (ss : List StepStatus)
      → (plan p ss).status ≡ (
          if ltb 0 (count is_stopped ss)
          then "terminal_failed"
          else if ltb 0 (count (is_stale_inflight p) ss) || ltb 0 (count is_runnable ss)
          then "resume_available"
          else if ltb 0 (count is_committed ss)
          then "all_committed"
          else "empty")
  unfolding plan plan_status
  plan_verdict ss =
      let h = Sums-tally ss zero_tally in
      rw (h.stopped, h.stale, h.retryable, h.committed) (simp zero-add)

  settled_or_waiting :
      (s : StepStatus)
      → (is_committed s || is_waiting p s) ≡ true
      → (is_stopped s ≡ false) × (is_stale_inflight p s ≡ false) × (is_runnable s ≡ false)
  unfolding is_waiting is_committed is_stopped is_stale_inflight is_runnable same_state is_known
  settled_or_waiting s h = ground arith

  -- A step that is in flight and not stale is not reported: with at least one committed step, and
  -- every other step in flight and not stale, the verdict is "all_committed".
  pub plan_ignores_inflight :
      (ss : List StepStatus)
      → All (λ s. (is_committed s || is_waiting p s) ≡ true) ss
      → 0 < count is_committed ss
      → (plan p ss).status ≡ "all_committed"
  plan_ignores_inflight ss h some_done = rw (plan_verdict ss) (
      rw
        (
          count_none is_stopped ss (All-map _ _ ss (λ s e. (settled_or_waiting s e).0) h),
          count_none (is_stale_inflight p) ss
              (All-map _ _ ss (λ s e. (settled_or_waiting s e).1) h),
          count_none is_runnable ss (All-map _ _ ss (λ s e. (settled_or_waiting s e).2) h),
        )
        (ground arith))
