-- ===== src/Candidates/Fate/Tests.antt =====
-- The life of one candidate.
use cognitive_evolve.Prelude.{◌≡◌, refl, true}
use cognitive_evolve.Json.{
  text, array, object, nil, cons, end, field, ok, truthy, get_field, set_field,
}
use cognitive_evolve.Durable.Paths.{strip}
use cognitive_evolve.Durable.Runner.Ascii.{ascii}
use cognitive_evolve.Durable.StepState.Changes.{OkImplies}
use cognitive_evolve.Candidates.Fate.{
  CandidateFate, active, elite, incubating, dormant, auxiliary, culled, failed, fate_value,
  CandidateGenome, transition_candidate_fate, validate_transition, mark_fate, normalize,
  normalize_or_active, read_fate, is_valid, record_transition, transition_to_dict, last_items,
  append_item, count_items, drop_items, history, fate_semantics,
}
use cognitive_evolve.Candidates.Fate.Life.{KeepsFates, IsMoved, transition-IsMoved}

abbrev candidate : CandidateGenome
candidate = record { current_fate = "Failed"; metadata = object end }

ascii-KeepsFates : KeepsFates ascii
unfolding strip
ascii-KeepsFates = record { kept = kept }
  where
    kept : (f : CandidateFate) → strip ascii (fate_value f) ≡ fate_value f
    kept active = refl
    kept elite = refl
    kept incubating = refl
    kept dormant = refl
    kept auxiliary = refl
    kept culled = refl
    kept failed = refl

program : Unit {0}
unfolding transition_candidate_fate validate_transition mark_fate normalize normalize_or_active
    read_fate is_valid record_transition transition_to_dict last_items append_item count_items
    drop_items history strip truthy get_field set_field fate_semantics
program = tt

revived :
    transition_candidate_fate ascii candidate (text "Dormant") ""
    ≡ ok (record {
      current_fate = "Dormant";
      metadata = object (
          field "fate_transition_history"
            (array (
              cons
                (object (field "previous" (text "Failed") (field "target" (text "Dormant") end)))
                nil))
            end);
    })
unfolding program
revived = refl

-- FATE_SEMANTICS calls the fate terminal that the transition above leaves.
failed_terminal : (fate_semantics failed).terminal ≡ true
unfolding program
failed_terminal = refl

abbrev hatching : CandidateGenome
hatching = record { current_fate = "Incubating"; metadata = object end }

transition-IsMoved_example :
    OkImplies
      (λ d. IsMoved ascii hatching d (text "Active"))
      (transition_candidate_fate ascii hatching (text "Active") "ready")
transition-IsMoved_example =
    transition-IsMoved ascii ascii-KeepsFates hatching (text "Active") "ready"
