-- ===== src/Candidates/Fate/Life.antt =====
-- The moves that the transitions of candidates/fate_machine.py make.
use cognitive_evolve.Prelude.{
  ℕ, zero, suc, ◌-◌, ◌≤◌, String, ◌≡◌, refl, ap, subst, ◌∙◌, ◌||◌, inl, inr, some, arith, ◌==◌,
  Bool-cases, Option-cases,
}
use cognitive_evolve.Json.{
  Value, text, object, Items, nil, cons, Fields, Python, ok, get_field-set_field, truthy,
}
use cognitive_evolve.Durable.Paths.{strip}
use cognitive_evolve.Durable.StepState.Changes.{OkImplies, OkImplies-bind, OkImplies-map}
use cognitive_evolve.Candidates.Fate.Moves.{Move, culled_stays, accepted_moves}
use cognitive_evolve.Candidates.Fate.{
  CandidateFate, active, elite, incubating, dormant, auxiliary, culled, failed, fate_value,
  read_fate, normalize, normalize_or_active, is_valid, same_fate, check_move, FateTransition,
  transition_to_dict, validate_transition, CandidateGenome, mark_fate, append_item, count_items,
  drop_items, last_items, history, record_transition, transition_candidate_fate, as_items,
  as_fields,
}

count-append_item : (vs : Items) (w : Value) → count_items (append_item vs w) ≡ suc (count_items vs)
unfolding count_items append_item
count-append_item nil w = refl
count-append_item (cons v vs) w = ap suc (count-append_item vs w)

count-drop_items : (n : ℕ) (vs : Items) → count_items (drop_items n vs) ≡ count_items vs - n
unfolding count_items drop_items
count-drop_items zero vs = omega arith
count-drop_items (suc n) nil = omega arith
count-drop_items (suc n) (cons v vs) = omega (arith, count-drop_items n vs)

count-last_items : (n : ℕ) (vs : Items) → count_items (last_items n vs) ≤ n
unfolding last_items
count-last_items n vs = omega (arith, count-drop_items (count_items vs - n) vs)

history-record_transition :
    (t : FateTransition) (d : Fields)
    → history (record_transition t d)
      ≡ last_items 20 (append_item (history d) (object (transition_to_dict t)))
unfolding history record_transition as_items
history-record_transition t d = elim (Bool-cases (t.reason == "")) [
  | inl e ↦ rw e (rw get_field-set_field refl)
  | inr e ↦ rw e (rw (get_field-set_field, get_field-set_field) refl)
]

-- `str.strip` removes nothing from the values of the fates, which have no space.
pub record KeepsFates (py : Python) : Type 0 where
  pub kept : (f : CandidateFate) → strip py (fate_value f) ≡ fate_value f

normalize-fate_value :
    (py : Python)
    → KeepsFates py
    → (f : CandidateFate) → normalize py (text (fate_value f)) ≡ some f
unfolding normalize truthy read_fate
normalize-fate_value py keeps active = rw (keeps.kept active) refl
normalize-fate_value py keeps elite = rw (keeps.kept elite) refl
normalize-fate_value py keeps incubating = rw (keeps.kept incubating) refl
normalize-fate_value py keeps dormant = rw (keeps.kept dormant) refl
normalize-fate_value py keeps auxiliary = rw (keeps.kept auxiliary) refl
normalize-fate_value py keeps culled = rw (keeps.kept culled) refl
normalize-fate_value py keeps failed = rw (keeps.kept failed) refl

-- What an accepted transition of a candidate gives.
pub record IsMoved (py : Python) (c d : CandidateGenome) (target : Value) : Type 0 where
  pub fate : CandidateFate
  pub asked : normalize py target ≡ some fate
  pub now : d.current_fate ≡ fate_value fate
  pub move : Move (normalize_or_active py (text c.current_fate)) fate
  pub metadata : Fields
  pub stored : d.metadata ≡ object metadata
  pub bounded : count_items (history metadata) ≤ 20

record IsAccepted (py : Python) (c : CandidateGenome) (target : Value) (t : FateTransition)
    : Type 0 where
  asked : normalize py target ≡ some t.target
  move : Move (normalize_or_active py (text c.current_fate)) t.target

module _ (py : Python) (keeps : KeepsFates py) (c : CandidateGenome) (target : Value)
    (reason : String) where
  check_move-Accepted :
      (f : CandidateFate)
      → normalize py target ≡ some f
      → OkImplies
          (IsAccepted py c target)
          (check_move (normalize_or_active py (text c.current_fate)) f)
  unfolding check_move
  check_move-Accepted f e =
      let previous = normalize_or_active py (text c.current_fate) in
      elim (Bool-cases (same_fate previous f || is_valid previous f)) [
        | inl h ↦ rw h (record { asked = e; move = accepted_moves previous f h })
        | inr h ↦ rw h tt
      ]

  validate-Accepted :
      OkImplies (IsAccepted py c target) (validate_transition py (text c.current_fate) target)
  unfolding validate_transition
  validate-Accepted = elim (Option-cases (normalize py target)) [
    | inl e ↦ rw e tt
    | inr (f, e) ↦ rw e (check_move-Accepted f e)
  ]

  mark_fate_fate :
      (f : CandidateFate)
      → mark_fate py (text (fate_value f)) c ≡ ok (record c { current_fate = fate_value f })
  unfolding mark_fate
  mark_fate_fate f = rw (normalize-fate_value py keeps f) refl

  -- A transition that does not raise moves the candidate to the fate that was asked for by one move:
  -- to its own fate, from Active to any fate, from Elite, Dormant or Auxiliary to Active or Culled,
  -- from Incubating to Active, Culled, Dormant or Failed, from Failed to Dormant, and from Culled to
  -- no other. It leaves at most 20 entries in the history, however long it was. It is assumed that
  -- `str.strip` leaves the values of the fates as they are.
  pub transition-IsMoved :
      OkImplies (λ d. IsMoved py c d target) (transition_candidate_fate py c target reason)
  unfolding transition_candidate_fate
  transition-IsMoved =
      OkImplies-bind (λ d. IsMoved py c d target)
        (validate_transition py (text c.current_fate) target) _
        λ t h.
          let accepted : IsAccepted py c target t =
            subst (OkImplies (IsAccepted py c target)) h validate-Accepted in
          rw (mark_fate_fate t.target) (record {
            fate = t.target;
            asked = accepted.asked;
            now = refl;
            move = accepted.move;
            metadata = record_transition (record t { reason = reason }) (as_fields c.metadata);
            stored = refl;
            bounded =
                rw (history-record_transition (record t { reason = reason }) (as_fields c.metadata))
                  (count-last_items 20 _);
          })

  from_culled :
      (d : CandidateGenome)
      → IsMoved py c d target
      → c.current_fate ≡ "Culled"
      → d.current_fate ≡ "Culled"
  unfolding normalize_or_active
  from_culled d m e =
      let culled_before : normalize_or_active py (text c.current_fate) ≡ culled =
        rw (e, normalize-fate_value py keeps culled) refl in
      let culled_after : m.fate ≡ culled =
        culled_stays m.fate (subst (λ s. Move s m.fate) culled_before m.move) in
      m.now ∙ ap fate_value culled_after

  -- No transition that does not raise takes a culled candidate out of Culled.
  pub transition-culled :
      c.current_fate ≡ "Culled"
      → OkImplies (λ d. d.current_fate ≡ "Culled") (transition_candidate_fate py c target reason)
  transition-culled e =
      OkImplies-map (λ d. IsMoved py c d target) (λ d. d.current_fate ≡ "Culled")
        (transition_candidate_fate py c target reason) (λ d m. from_culled d m e) transition-IsMoved
