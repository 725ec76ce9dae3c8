-- ===== src/Durable/Reaper/Kept.antt =====
-- What a step that is marked as failed leaves in a store.
use cognitive_evolve.Prelude.{
  String, ◌≡◌, refl, sym, ◌∙◌, ap, subst, arith, eq_iff, Bool, true, false, Bool-cases,
  Option-cases, inl, inr, Dict, get, put, Option, none, some, [], ◌∷◌, ◌==◌, if◌then◌else◌,
}
use cognitive_evolve.Exec.Ensures.{Post, and_then-Post}
use cognitive_evolve.Json.{text, field, Fields, end, Python, Result, ok}
use cognitive_evolve.Durable.StepState.{
  inflight, retryable_failed, same_state, StepStatus, status_to_dict, transition,
  validate_transition,
}
use cognitive_evolve.Durable.StepState.Changes.{Changed, OkImplies, transition-Changed}
use cognitive_evolve.Durable.StepState.RoundTrip.{IsStorable}
use cognitive_evolve.Durable.Store.{
  StepFiles, World, files_at, status_dir, decode_status, write_status, publish, mark_failed,
}
use cognitive_evolve.Durable.Store.Invariant.{
  IsFiled, Inv, Inv-put, files_at-put, files_at-put_self, decode_status-status_to_dict,
}
use cognitive_evolve.Durable.Runner.Invariant.{IsFiled-of_Changed}
use cognitive_evolve.Durable.Planner.{ResumePlanner, ResumeAction}
use cognitive_evolve.Durable.Planner.Counts.{is_stale_inflight}
use cognitive_evolve.Durable.Reaper.{step_paths, mark_stale}
use cognitive_evolve.Durable.Reaper.Statuses.{Settled, IsSettled, Reads}

transition_inflight :
    (now : String) (s : StepStatus) (message : String) (error : Option Fields)
    → s.state ≡ inflight
    → (t : StepStatus) × (transition now s retryable_failed message error end ≡ ok t)
unfolding transition validate_transition
transition_inflight now s message error h = rw h (_, refl)

absent_option {ℓ} : {A : Type ℓ} (a : A) → none ≡ some a → ⊥
absent_option a h = cc

absent_result {ℓ} : {A : Type ℓ} (a : A) → Path (Result (Option A)) (ok none) (ok (some a)) → ⊥
absent_result a h = cc

get_later :
    (j path : String) (x : StepFiles) (d : Dict StepFiles)
    → (j == path) ≡ false
    → get ((j, x) ∷ d) path ≡ get d path
unfolding get
get_later j path x d h = rw h refl

step_paths-put :
    (d : Dict StepFiles) (path : String) (f g : StepFiles)
    → get d path ≡ some f
    → step_paths (put d path g) ≡ step_paths d
unfolding step_paths get put
step_paths-put [] path f g h = absurd (absent_option f h)
step_paths-put ((j, x) ∷ d) path f g h = elim (Bool-cases (j == path)) [
  | inl e ↦ rw e refl
  | inr e ↦ rw e (ap (λ l. j ∷ l) (step_paths-put d path f g (sym (get_later j path x d e) ∙ h)))
]

pub no_truth : false ≡ true → ⊥
no_truth h = ground (arith, h)

untouched : (b : Bool) (f g : StepFiles) → b ≡ false → (if b then f else g) ≡ g
untouched b f g h = rw h refl

module _ (py : Python) (p : ResumePlanner) where
  absent :
      (d : Dict StepFiles) (path : String)
      → get d path ≡ none
      → decode_status py "" (files_at d path).status ≡ ok none
  unfolding files_at decode_status
  absent d path e = rw e refl

  Reads-get :
      (d : Dict StepFiles) (path : String) (s : StepStatus)
      → Reads py p d path (some s)
      → (f : StepFiles) × (get d path ≡ some f)
  unfolding Reads files_at decode_status
  Reads-get d path s reads = elim (Option-cases (get d path)) [
    | inr found ↦ found
    | inl e ↦ absurd (absent_result s (sym (absent d path e) ∙ reads ""))
  ]

  -- A directory into which a settled status was written.
  put-IsSettled :
      (d : Dict StepFiles) (path : String) (f : StepFiles) (t : StepStatus)
      → f.status ≡ some (status_to_dict t)
      → IsStorable t
      → is_stale_inflight p t ≡ false
      → IsSettled py p (put d path f) path
  unfolding IsSettled Settled
  put-IsSettled d path f t e storable calm now =
      subst (Settled p)
        (sym (
          ap (λ (g : StepFiles). decode_status py now g.status) (files_at-put_self d path f)
          ∙ ap (decode_status py now) e
          ∙ decode_status-status_to_dict py now t storable))
        calm

  put_elsewhere :
      (d : Dict StepFiles) (path q : String) (f : StepFiles)
      → IsSettled py p (put d path f) path
      → IsSettled py p d q
      → IsSettled py p (put d path f) q
  unfolding IsSettled
  put_elsewhere d path q f here there now = elim (Bool-cases (path == q)) [
    | inl e ↦
        subst (λ r. Settled p (decode_status py now (files_at (put d path f) r).status))
          ((eq_iff path q).0 e) (here now)
    | inr e ↦
        subst (λ (g : StepFiles). Settled p (decode_status py now g.status))
          (sym (files_at-put d path q f ∙ untouched (path == q) f (files_at d q) e)) (there now)
  ]

  -- The store keeps its invariant and its directories, and what was settled.
  pub record Kept (w v : World) : Type 0 where
    pub inv : Inv py v
    pub paths : step_paths v.files ≡ step_paths w.files
    pub settled : (q : String) → IsSettled py p w.files q → IsSettled py p v.files q

  pub Kept-same : (w : World) → Inv py w → Kept w w
  Kept-same w inv = record { inv = inv; paths = refl; settled = λ q h. h }

  -- A status that can be stored and is no stale step in flight is written over another one.
  put-Kept :
      (w : World) (s t : StepStatus)
      → Inv py w
      → IsFiled py t (status_dir py t)
      → Reads py p w.files (status_dir py t) (some s)
      → is_stale_inflight p t ≡ false
      → let path = status_dir py t in
        let f : StepFiles = record (files_at w.files path) { status = some (status_to_dict t) } in
        let v : World = record w { files = put w.files path f } in
        Kept w v × IsSettled py p v.files path
  put-Kept w s t inv filed reads calm =
      let path = status_dir py t in
      let f : StepFiles = record (files_at w.files path) { status = some (status_to_dict t) } in
      let here = put-IsSettled w.files path f t refl filed.storable calm in
      (
        record {
          inv = Inv-put py path f inv (t, refl, filed);
          paths =
              let found = Reads-get w.files path s reads in
              step_paths-put w.files path found.0 f found.1;
          settled = λ q h. put_elsewhere w.files path q f here h;
        },
        here,
      )

  calm : (t : StepStatus) → t.state ≡ retryable_failed → is_stale_inflight p t ≡ false
  unfolding is_stale_inflight same_state
  calm t e = rw e refl

  same_inflight : (s : StepStatus) → same_state s.state inflight ≡ true → s.state ≡ inflight
  unfolding same_state
  same_inflight s h = ground (arith, h)

  not_inflight :
      (s : StepStatus) → same_state s.state inflight ≡ false → is_stale_inflight p s ≡ false
  unfolding is_stale_inflight
  not_inflight s e = rw e refl

  Reads-IsSettled :
      (d : Dict StepFiles) (path : String) (s : StepStatus)
      → Reads py p d path (some s)
      → is_stale_inflight p s ≡ false
      → IsSettled py p d path
  unfolding IsSettled Reads Settled
  Reads-IsSettled d path s reads e now = subst (Settled p) (sym (reads now)) e

  -- After an action, which never raises.
  abbrev pub After : World → (World → Type 0) → Result (Unit {0}) × World → Type 0
  After w Q = Post (λ _ v. Kept w v × Q v) (λ v. ⊥)

  mark_failed-After :
      (w : World) (path : String) (s : StepStatus) (message : String)
      → Inv py w
      → IsFiled py s path
      → Reads py p w.files path (some s)
      → s.state ≡ inflight
      → Post
          (λ _ v. Kept w v × IsSettled py p v.files path)
          (λ v. ⊥)
          (mark_failed py s true "StaleInflight" message w)
  unfolding mark_failed publish write_status
  mark_failed-After w path s message inv filed reads e =
      let error = some (field "type" (text "StaleInflight") (field "message" (text message) end)) in
      let (t, made) = transition_inflight w.now s message error e in
      let changed =
        subst (OkImplies (λ u. Changed s u retryable_failed)) made (
          transition-Changed w.now s retryable_failed message error end inv.clock filed.storable) in
      let g = IsFiled-of_Changed py filed changed in
      let f : IsFiled py t (status_dir py t) = record { storable = g.storable; dir = refl } in
      let there = subst (λ q. Reads py p w.files q (some s)) (sym g.dir) reads in
      let put_there = put-Kept w s t inv f there (calm t changed.state) in
      rw made (
        put_there.0,
        subst
            (IsSettled py p (
              put w.files (status_dir py t)
                (record (files_at w.files (status_dir py t)) { status = some (status_to_dict t) })))
            g.dir put_there.1,
      )

  pub mark_stale-After :
      (w : World) (path : String) (s : StepStatus) (a : ResumeAction)
      → Inv py w
      → IsFiled py s path
      → Reads py p w.files path (some s)
      → After w (λ v. IsSettled py p v.files path) (mark_stale py a (some s) w)
  unfolding mark_stale
  mark_stale-After w path s a inv filed reads = elim (Bool-cases (same_state s.state inflight)) [
    | inl e ↦ rw e (
        and_then-Post (λ _ v. Kept w v × IsSettled py p v.files path)
          (λ _ v. Kept w v × IsSettled py p v.files path) (λ v. ⊥)
          (mark_failed py s true "StaleInflight" a.reason w) _
          (mark_failed-After w path s a.reason inv filed reads (same_inflight s e)) (λ t v h. h))
    | inr e ↦ rw e (Kept-same w inv, Reads-IsSettled w.files path s reads (not_inflight s e))
  ]
