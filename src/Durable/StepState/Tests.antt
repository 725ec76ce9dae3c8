-- ===== src/Durable/StepState/Tests.antt =====
-- Transitions of one step.
use cognitive_evolve.Prelude.{◌≡◌, refl}
use cognitive_evolve.Json.{end, ok}
use cognitive_evolve.Durable.StepState.{
  terminal_failed, retryable_failed, StepStatus, status_to_dict, status_from_dict,
  validate_transition, is_known,
}
use cognitive_evolve.Durable.StepState.Graph.{Reach, here, next}
use cognitive_evolve.Durable.StepState.RoundTrip.{status_from_dict-status_to_dict}
use cognitive_evolve.Durable.Runner.Ascii.{ascii}

abbrev sample : StepStatus
sample = record {
  run_id = "run";
  round_id = "r1";
  step_id = "s1";
  step_name = "seed";
  state = retryable_failed;
  attempt = 2;
  input_hash = "h";
  output_hash = "";
  created_at = "t0";
  updated_at = "t1";
  reason = "slow";
  error = end;
  metadata = end;
}

stays : Reach terminal_failed terminal_failed
unfolding validate_transition
stays = next here refl

status_from_dict-status_to_dict_example :
    status_from_dict ascii "t9" (status_to_dict sample) ≡ ok sample
unfolding is_known
status_from_dict-status_to_dict_example =
    status_from_dict-status_to_dict ascii "t9" sample (record {
      run = refl;
      round = refl;
      step = refl;
      name = refl;
      known = refl;
      creation = refl;
      change = refl;
    })
