-- ===== src/Durable/Reaper/Statuses.antt =====
-- The statuses that a plan reads of a store, and the actions that it has for them.
use mathlib.Core.List.{append_assoc, append-nil}
use cognitive_evolve.Prelude.{
  String, ◌≡◌, ◌⊎◌, refl, sym, ◌∙◌, ap, subst, arith, true, false, Bool-cases, inl, inr, Dict,
  Option, none, some, List, [], ◌∷◌, ◌++◌, All, ◌==◌,
}
use cognitive_evolve.Json.{Fields, Python, Result, ok, err}
use cognitive_evolve.Durable.StepState.{same_state, StepStatus}
use cognitive_evolve.Durable.Store.{StepFiles, World, files_at, key_dir, decode_status}
use cognitive_evolve.Durable.Store.Invariant.{IsFiled, Filed, Inv, decode_status-status_to_dict}
use cognitive_evolve.Durable.Planner.{
  ResumePlanner, ResumeAction, Tally, zero_tally, make_action, tally_status, tally, plan,
}
use cognitive_evolve.Durable.Planner.Counts.{is_stale_inflight}
use cognitive_evolve.Durable.Reaper.{listed, statuses_at, key_of}

-- A status that is no stale step in flight, if there is one.
unfoldable pub Settled : ResumePlanner → Result (Option StepStatus) → Type 0
Settled p (ok none) = Unit
Settled p (ok (some s)) = is_stale_inflight p s ≡ false
Settled p (err e) = ⊥

-- The actions of one status.
unfoldable pub actions_of : ResumePlanner → StepStatus → List ResumeAction
actions_of p s = (tally_status p s zero_tally).actions

unfoldable pub action_list : ResumePlanner → List StepStatus → List ResumeAction
action_list p [] = []
action_list p (s ∷ ss) = actions_of p s ++ action_list p ss

tally_status-actions :
    (p : ResumePlanner) (s : StepStatus) (t : Tally)
    → (tally_status p s t).actions ≡ t.actions ++ actions_of p s
unfolding tally_status actions_of
tally_status-actions p s t = ground (arith, append-nil t.actions)

tally-actions :
    (p : ResumePlanner) (ss : List StepStatus) (t : Tally)
    → (tally p ss t).actions ≡ t.actions ++ action_list p ss
unfolding tally action_list
tally-actions p [] t = sym (append-nil t.actions)
tally-actions p (s ∷ ss) t =
    tally-actions p ss (tally_status p s t)
    ∙ ap (λ l. l ++ action_list p ss) (tally_status-actions p s t)
    ∙ append_assoc t.actions (actions_of p s) (action_list p ss)

pub plan-actions :
    (p : ResumePlanner) (ss : List StepStatus) → (plan p ss).actions ≡ action_list p ss
unfolding plan
plan-actions p ss = tally-actions p ss zero_tally

stale_action :
    (p : ResumePlanner) (s : StepStatus)
    → is_stale_inflight p s ≡ true
    → actions_of p s
      ≡ (make_action "mark_retryable_failed" s "inflight_step_older_than_timeout" ∷ [])
unfolding actions_of tally_status is_stale_inflight same_state
stale_action p s h = ground (arith, h)

pub All-before {ℓ} : {A : Type ℓ} (P : A → Type ℓ) (xs ys : List A) → All P (xs ++ ys) → All P xs
All-before P [] ys h = tt
All-before P (x ∷ xs) ys h = (h.0, All-before P xs ys h.1)

pub All-after {ℓ} : {A : Type ℓ} (P : A → Type ℓ) (xs ys : List A) → All P (xs ++ ys) → All P ys
All-after P [] ys h = h
All-after P (x ∷ xs) ys h = All-after P xs ys h.1

returned : Result (List StepStatus) → List StepStatus
returned (ok ss) = ss
returned (err e) = []

module _ (py : Python) (p : ResumePlanner) where
  -- The status file of a directory, at any reading of the clock.
  unfoldable pub IsSettled : Dict StepFiles → String → Type 0
  unfolding Settled
  IsSettled d path = (now : String) → Settled p (decode_status py now (files_at d path).status)

  -- A status file is absent, or is read as the status that is filed there.
  unfoldable pub Reads : Dict StepFiles → String → Option StepStatus → Type 0
  Reads d path found = (now : String) → decode_status py now (files_at d path).status ≡ ok found

  Filed-cases :
      (path : String) (f : Option Fields)
      → Filed py f path
      → ((now : String) → decode_status py now f ≡ ok none)
        ⊎ ((s : StepStatus) × ((now : String) → decode_status py now f ≡ ok (some s))
            × IsFiled py s path)
  unfolding decode_status
  Filed-cases path none h = inl (λ now. refl)
  Filed-cases path (some d) (s, e, h) = inr (
    s,
    (λ now.
        ap (λ c. decode_status py now (some c)) e
        ∙ decode_status-status_to_dict py now s h.storable),
    h,
  )

  pub read_cases :
      (w : World) (path : String)
      → Inv py w
      → Reads w.files path none
        ⊎ ((s : StepStatus) × Reads w.files path (some s) × IsFiled py s path)
  unfolding Reads
  read_cases w path inv = Filed-cases path (files_at w.files path).status (inv.filed path)

  -- A property of the directory of an action that marks a step.
  unfoldable pub Marked : (String → Type 0) → ResumeAction → Type 0
  Marked Φ a = (a.action == "mark_retryable_failed") ≡ true → Φ (key_dir py (key_of a))

  -- The actions of one status give the property of its directory, or it is settled.
  actions_of-Marked :
      (Φ : String → Type 0) (d : Dict StepFiles) (path : String) (s : StepStatus)
      → Reads d path (some s)
      → IsFiled py s path
      → (IsSettled d path → Φ path)
      → All (Marked Φ) (actions_of p s)
      → Φ path
  unfolding IsSettled Reads Settled Marked key_of make_action
  actions_of-Marked Φ d path s reads filed settled marked =
      elim (Bool-cases (is_stale_inflight p s)) [
        | inr e ↦ settled (λ now. subst (Settled p) (sym (reads now)) e)
        | inl e ↦
            let first = subst (All (Marked Φ)) (stale_action p s e) marked in
            subst Φ filed.dir (first.0 refl)
      ]

  pub IsSettled-absent : (d : Dict StepFiles) (path : String) → Reads d path none → IsSettled d path
  unfolding Reads IsSettled Settled
  IsSettled-absent d path reads now = subst (Settled p) (sym (reads now)) tt

  statuses_at-cons :
      (w : World) (path : String) (paths : List String) (found : Option StepStatus)
      (ss : List StepStatus)
      → Reads w.files path found
      → statuses_at py w paths ≡ ok ss
      → statuses_at py w (path ∷ paths) ≡ ok (listed found ss)
  unfolding statuses_at Reads
  statuses_at-cons w path paths found ss reads e = rw (reads w.now, e) refl

  settled_status :
      (d : Dict StepFiles) (path : String) (s : StepStatus)
      → Reads d path (some s)
      → IsSettled d path
      → is_stale_inflight p s ≡ false
  unfolding Reads IsSettled Settled
  settled_status d path s reads h = subst (Settled p) (reads "") (h "")

  -- What the marking actions give for their directories, and what holds of each settled one, holds
  -- of all the directories that were read.
  pub statuses_at-All :
      (Φ : String → Type 0) (w : World) (paths : List String)
      → Inv py w
      → ((path : String) → IsSettled w.files path → Φ path)
      → (ss : List StepStatus) × (statuses_at py w paths ≡ ok ss)
        × (All (Marked Φ) (action_list p ss) → All Φ paths)
  unfolding statuses_at action_list
  statuses_at-All Φ w [] inv settled = ([], refl, λ h. tt)
  statuses_at-All Φ w (path ∷ paths) inv settled =
      let (ss, e, rest) = statuses_at-All Φ w paths inv settled in
      elim (read_cases w path inv) [
        | inl none_there ↦ (
          ss,
          statuses_at-cons w path paths none ss none_there e,
          λ h. (settled path (IsSettled-absent w.files path none_there), rest h),
        )
        | inr (s, reads, filed) ↦ (
          s ∷ ss,
          statuses_at-cons w path paths (some s) ss reads e,
          λ h. (
            actions_of-Marked Φ w.files path s reads filed (settled path)
                (All-before (Marked Φ) (actions_of p s) (action_list p ss) h),
            rest (All-after (Marked Φ) (actions_of p s) (action_list p ss) h),
          ),
        )
      ]

  -- The same of statuses that are known.
  pub statuses_at-Marked :
      (Φ : String → Type 0) (w : World) (paths : List String) (ss : List StepStatus)
      → Inv py w
      → ((path : String) → IsSettled w.files path → Φ path)
      → statuses_at py w paths ≡ ok ss
      → All (Marked Φ) (action_list p ss)
      → All Φ paths
  unfolding returned
  statuses_at-Marked Φ w paths ss inv settled e marked =
      let (found, f, all) = statuses_at-All Φ w paths inv settled in
      all (subst (λ l. All (Marked Φ) (action_list p l)) (ap returned (sym e ∙ f)) marked)

  -- The statuses of settled directories are no stale steps in flight.
  pub statuses_at-settled :
      (w : World) (paths : List String)
      → Inv py w
      → All (IsSettled w.files) paths
      → (ss : List StepStatus) × (statuses_at py w paths ≡ ok ss)
        × All (λ s. is_stale_inflight p s ≡ false) ss
  unfolding statuses_at
  statuses_at-settled w [] inv h = ([], refl, tt)
  statuses_at-settled w (path ∷ paths) inv h =
      let (ss, e, rest) = statuses_at-settled w paths inv h.1 in
      elim (read_cases w path inv) [
        | inl reads ↦ (ss, statuses_at-cons w path paths none ss reads e, rest)
        | inr (s, reads, filed) ↦ (
          s ∷ ss,
          statuses_at-cons w path paths (some s) ss reads e,
          (settled_status w.files path s reads h.0, rest),
        )
      ]
