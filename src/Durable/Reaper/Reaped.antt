-- ===== src/Durable/Reaper/Reaped.antt =====
-- What the reaper of stale steps leaves in a store.
use cognitive_evolve.Prelude.{
  String, ◌≡◌, refl, sym, ◌∙◌, subst, true, Bool-cases, inl, inr, Option, some, List, [], ◌∷◌, All,
  count_none, ◌==◌,
}
use cognitive_evolve.Exec.Ensures.{Post, Post-weaken, and_then-Post}
use cognitive_evolve.Json.{Fields, end, Python, ok}
use cognitive_evolve.Durable.StepState.{
  inflight, retryable_failed, StepStatus, transition, validate_transition,
}
use cognitive_evolve.Durable.Store.{World, key_dir, read_status}
use cognitive_evolve.Durable.Store.Invariant.{Inv}
use cognitive_evolve.Durable.Planner.{ResumePlanner, ResumeAction, plan}
use cognitive_evolve.Durable.Planner.Counts.{is_stale_inflight, plan_counts}
use cognitive_evolve.Durable.Reaper.{
  step_paths, key_of, mark_stale, apply_action, apply_actions, iter_statuses, plan_store,
  apply_stale_inflight,
}
use cognitive_evolve.Durable.Reaper.Kept.{Kept, Kept-same, After, no_truth, mark_stale-After}
use cognitive_evolve.Durable.Reaper.Statuses.{
  plan-actions, IsSettled, Reads, read_cases, IsSettled-absent, Marked, statuses_at-All,
  statuses_at-settled, statuses_at-Marked,
}

transition_inflight :
    (now : String) (s : StepStatus) (message : String) (error : Option Fields)
    → s.state ≡ inflight
    → (t : StepStatus) × (transition now s retryable_failed message error end ≡ ok t)
unfolding transition validate_transition
transition_inflight now s message error h = rw h (_, refl)

module _ (py : Python) (p : ResumePlanner) where
  apply_action-After :
      (w : World) (a : ResumeAction)
      → Inv py w
      → After py p w (λ v. Marked py p (IsSettled py p v.files) a) (apply_action py a w)
  unfolding apply_action mark_stale Marked read_status Reads
  apply_action-After w a inv =
      let path = key_dir py (key_of a) in
      elim (Bool-cases (a.action == "mark_retryable_failed")) [
        | inr e ↦ rw e (Kept-same py p w inv, λ h. absurd (no_truth h))
        | inl e ↦ rw e (elim (read_cases py p w path inv) [
          | inl reads ↦
              rw (reads w.now) (Kept-same py p w inv, λ h. IsSettled-absent py p w.files path reads)
          | inr (s, reads, filed) ↦ rw (reads w.now) (
              Post-weaken (λ _ v. Kept py p w v × IsSettled py p v.files path)
                (λ _ v. Kept py p w v × (true ≡ true → IsSettled py p v.files path)) (λ v. ⊥)
                (mark_stale py a (some s) w) (λ u v h. (h.0, λ g. h.1))
                (mark_stale-After py p w path s a inv filed reads))
        ])
      ]

  Kept-trans : (u v w : World) → Kept py p u v → Kept py p v w → Kept py p u w
  Kept-trans u v w h g = record {
    inv = g.inv;
    paths = g.paths ∙ h.paths;
    settled = λ q k. g.settled q (h.settled q k);
  }

  Marked-Kept :
      (v w : World) (a : ResumeAction)
      → Kept py p v w
      → Marked py p (IsSettled py p v.files) a
      → Marked py p (IsSettled py p w.files) a
  unfolding Marked
  Marked-Kept v w a h m e = h.settled (key_dir py (key_of a)) (m e)

  apply_actions-After :
      (actions : List ResumeAction) (w : World)
      → Inv py w
      → After py p w
          (λ v. All (Marked py p (IsSettled py p v.files)) actions)
          (apply_actions py actions w)
  unfolding apply_actions
  apply_actions-After [] w inv = (Kept-same py p w inv, tt)
  apply_actions-After (a ∷ actions) w inv =
      and_then-Post (λ _ v. Kept py p w v × Marked py p (IsSettled py p v.files) a)
        (λ _ v. Kept py p w v × All (Marked py p (IsSettled py p v.files)) (a ∷ actions)) (λ v. ⊥)
        (apply_action py a w) (λ _. apply_actions py actions) (apply_action-After w a inv)
        (λ _ v h.
          Post-weaken (λ _ u. Kept py p v u × All (Marked py p (IsSettled py p u.files)) actions)
            (λ _ u. Kept py p w u × All (Marked py p (IsSettled py p u.files)) (a ∷ actions))
            (λ u. ⊥) (apply_actions py actions v)
            (λ _ u g. (Kept-trans w v u h.0 g.0, (Marked-Kept v u a g.0 h.1, g.1)))
            (apply_actions-After actions v (h.0.inv)))

  module _ (sorted : List String → List String) where
    -- A plan of a store whose directories are all settled finds no stale step.
    plan_store-settled :
        (w : World)
        → Inv py w
        → All (IsSettled py p w.files) (sorted (step_paths w.files))
        → Post
            (λ after v. Inv py v × (after.inflight_stale_steps ≡ 0))
            (λ v. ⊥)
            (plan_store py sorted p w)
    unfolding plan_store iter_statuses
    plan_store-settled w inv h =
        let (ss, e, calm_all) = statuses_at-settled py p w (sorted (step_paths w.files)) inv h in
        rw e (inv, (plan_counts p ss).3 ∙ count_none (is_stale_inflight p) ss calm_all)

    -- From a store whose status files are well filed, marking the stale steps never raises: it keeps
    -- the status files well filed, and the plan that it returns counts no stale step in flight.
    pub apply_stale_inflight_lem :
        (w : World)
        → Inv py w
        → Post
            (λ after v. Inv py v × (after.inflight_stale_steps ≡ 0))
            (λ v. ⊥)
            (apply_stale_inflight py sorted p w)
    unfolding apply_stale_inflight plan_store iter_statuses
    apply_stale_inflight_lem w inv =
        let paths = sorted (step_paths w.files) in
        let (ss, e, _) = statuses_at-All py p (λ q. Unit) w paths inv (λ q h. tt) in
        let actions = (plan p ss).actions in
        rw e (
          and_then-Post (λ _ v. Kept py p w v × All (Marked py p (IsSettled py p v.files)) actions)
            (λ after v. Inv py v × (after.inflight_stale_steps ≡ 0)) (λ v. ⊥)
            (apply_actions py actions w) (λ _. plan_store py sorted p)
            (apply_actions-After actions w inv)
            (λ _ v h.
              let marked =
                subst (All (Marked py p (IsSettled py p v.files))) (plan-actions p ss) h.1 in
              let all =
                statuses_at-Marked py p (IsSettled py p v.files) w paths ss inv (h.0.settled) e
                  marked in
              plan_store-settled v (h.0.inv)
                (subst (λ l. All (IsSettled py p v.files) (sorted l)) (sym (h.0.paths)) all)))
