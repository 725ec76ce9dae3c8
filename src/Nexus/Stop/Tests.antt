-- ===== src/Nexus/Stop/Tests.antt =====
-- nexus/stop_decision.py on small histories; texts are left as they are.
use cognitive_evolve.Prelude.{
  ℕ, ◌≤◌, ◌≡◌, refl, Bool, true, false, Option, none, some, List, [], ◌∷◌, ◌==◌, contains, max,
  take, All,
}
use cognitive_evolve.Json.{
  Value, bool, int, text, object, end, field, get_field, truthy, ok, Python,
}
use cognitive_evolve.Nexus.Stop.Reasons.{
  Words, is_review_reason, alias, lowered, normalize_external_review_stop_reason,
}
use cognitive_evolve.Nexus.Stop.Adaptive.{
  Floats, Diagnosis, Policy, observations, earlier_tail, stagnant_tail, applied, subset,
  required_of, exhausted, recent, patience, required, adaptive_stagnation_exhausted,
}
use cognitive_evolve.Nexus.Stop.Stagnation.{adaptive_stagnation_exhausted_lem}
use cognitive_evolve.Nexus.Stop.Decision.{
  Settings, Answer, decided, self_observed_convergence, first_reason, external_review_reason,
  stop_of, by_model, by_policy, policy_name, current_best, stop_reason_after_round,
}
use cognitive_evolve.Nexus.Stop.Justified.{stop_reason_after_round-is_review_reason}

abbrev plain : Python
plain = record {
  str_of = λ _. "value";
  parse_int = λ _. none;
  dict_of = λ _. none;
  is_alnum = λ _. true;
  is_space = λ _. false;
  upper = λ s. s;
  lower = λ s. s;
  sha256_json = λ _. "h";
}

abbrev words : Words
words = record {
  python = plain;
  strip = λ s. s;
  underscored = λ s. s;
  has = λ part whole. part == whole;
}

float_of : Value → Option ℕ
float_of (int k) = some k
float_of _ = none

abbrev numbers : Floats ℕ
numbers = record { to_float = float_of; exceeds = λ _ _. false }

abbrev sure : Option Value → Bool
sure _ = true

abbrev quiet_diagnosis : Diagnosis
quiet_diagnosis = record {
  stagnation_detected = false;
  stagnation_type = "Unclear";
  notes = "";
  recommended_actions = "restart" ∷ [];
}

abbrev settings : Settings
settings = record {
  stop_policy = "llm_after_minimum";
  min_rounds_before_stop = 2;
  adaptive = false;
  history = [];
}

-- The model claims the problem solved.
abbrev solved : Answer
solved = decided (field "stop" (bool true) (field "solved" (bool true) end))

-- One earlier round with the same best answer.
abbrev one_round : List Value
one_round = object (field "ranking" (object (field "best_final_answer_id" (text "a") end)) end) ∷ []

abbrev patient : Policy
patient = record {
  metadata = field "adaptive_stagnation_patience" (int 2) end;
  stagnation_actions = "restart" ∷ "continue" ∷ [];
}

program : Unit {0}
unfolding float_of get_field truthy is_review_reason alias lowered
    normalize_external_review_stop_reason observations earlier_tail stagnant_tail applied subset
    required_of exhausted recent patience required adaptive_stagnation_exhausted
    self_observed_convergence first_reason external_review_reason stop_of by_model by_policy
    policy_name current_best stop_reason_after_round
program = tt

given :
    stop_reason_after_round words numbers sure settings 2 quiet_diagnosis "a" none [] none solved
    ≡ ok "candidate_ready_for_external_review"
unfolding program
given = refl

-- The minimum of rounds is not completed.
too_early :
    stop_reason_after_round words numbers sure settings 1 quiet_diagnosis "a" none [] none solved
    ≡ ok ""
unfolding program
too_early = refl

stop_reason_after_round-is_review_reason_example :
    (("a" == "") ≡ false)
    × (max 1 2 ≤ 2)
    × (("llm_after_minimum" == "max_rounds") ≡ false)
    × (("llm_after_minimum" == "route_incomplete_single_diagnostic") ≡ false)
unfolding program
stop_reason_after_round-is_review_reason_example =
    stop_reason_after_round-is_review_reason words refl numbers sure settings 2 quiet_diagnosis "a"
      none [] none solved "candidate_ready_for_external_review" given refl

adaptive_stagnation_exhausted_lem_example :
    (("a" == "") ≡ false)
    × (1 ≤ 2)
    × (2 ≤ 2)
    × All
        (λ o. (o.best == "a") ≡ true)
        (take 2 (recent plain numbers "a" one_round quiet_diagnosis []))
    × (true ≡ true)
    × All (λ a. contains ("restart" ∷ []) a ≡ true) ("restart" ∷ [])
unfolding program
adaptive_stagnation_exhausted_lem_example =
    adaptive_stagnation_exhausted_lem plain numbers true "a" one_round quiet_diagnosis patient []
      refl
