-- ===== src/Durable/Reaper/Tests.antt =====
-- The reaper on a store with one stale step.
use cognitive_evolve.Durable.Runner.Ascii.{ascii}
use cognitive_evolve.Prelude.{
  ℕ, String, ◌≡◌, refl, none, some, List, [], ◌∷◌, get, put, ◌==◌, if◌then◌else◌,
}
use cognitive_evolve.Json.{
  end, ok, err, get_field, update_fields, truthy, text_field, int_field, dict_field,
}
use cognitive_evolve.Exec.Ensures.{Post}
use cognitive_evolve.Durable.Paths.{step_dir}
use cognitive_evolve.Durable.StepState.{
  inflight, is_known, status_to_dict, status_from_dict, state_name, validate_transition, transition,
  same_state, read_state, StepStatus,
}
use cognitive_evolve.Durable.StepState.RoundTrip.{IsStorable}
use cognitive_evolve.Durable.Store.{
  StepFiles, World, files_at, status_dir, decode_status, read_status, write_status, publish,
  mark_failed,
}
use cognitive_evolve.Durable.Store.Invariant.{Inv, Inv-put}
use cognitive_evolve.Durable.Planner.{
  ResumePlanner, ResumePlan, is_stale, make_action, tally_status, tally, plan_status, plan,
}
use cognitive_evolve.Durable.Reaper.{
  step_paths, statuses_at, key_of, mark_stale, apply_action, apply_actions, iter_statuses,
  plan_store, apply_stale_inflight, reap,
}
use cognitive_evolve.Durable.Reaper.Reaped.{apply_stale_inflight_lem}

abbrev planner : ResumePlanner
planner = record {
  parse_time = λ s. if s == "t0" then some 0 else some 900;
  now = 1000;
  timeout = 300;
}

abbrev in_order : List String → List String
in_order paths = paths

abbrev empty : World
empty = record { files = []; log = []; calls = 0; now = "t9" }

abbrev stuck : StepStatus
stuck = record {
  run_id = "run";
  round_id = "r1";
  step_id = "s1";
  step_name = "seed";
  state = inflight;
  attempt = 1;
  input_hash = "h";
  output_hash = "";
  created_at = "t0";
  updated_at = "t0";
  reason = "";
  error = end;
  metadata = end;
}

abbrev stuck_files : StepFiles
stuck_files = record { input = none; status = some (status_to_dict stuck); output = none }

abbrev stuck_world : World
stuck_world = record empty { files = put empty.files (status_dir ascii stuck) stuck_files }

program : Unit {0}
unfolding get put step_dir files_at decode_status read_status write_status publish mark_failed
    transition validate_transition same_state is_known state_name status_to_dict status_from_dict
    read_state get_field update_fields truthy text_field int_field dict_field is_stale make_action
    tally_status tally plan_status plan step_paths statuses_at key_of mark_stale apply_action
    apply_actions iter_statuses plan_store apply_stale_inflight reap
program = tt

abbrev counts : World → List ℕ
counts w = elim (reap ascii in_order planner w).0 [
  | ok r ↦
      r.before.inflight_stale_steps ∷ r.after.inflight_stale_steps ∷ r.after.retryable_steps ∷ []
  | err e ↦ []
]

-- The stale step is found, and can be run again afterwards.
reaped : counts stuck_world ≡ (1 ∷ 0 ∷ 1 ∷ [])
unfolding program
reaped = refl

empty-Inv : Inv ascii empty
unfolding program
empty-Inv = record { filed = λ p. tt; clock = refl }

stuck-IsStorable : IsStorable stuck
unfolding program
stuck-IsStorable = record {
  run = refl;
  round = refl;
  step = refl;
  name = refl;
  known = refl;
  creation = refl;
  change = refl;
}

stuck_world-Inv : Inv ascii stuck_world
stuck_world-Inv =
    Inv-put ascii (status_dir ascii stuck) stuck_files empty-Inv
      (stuck, refl, record { storable = stuck-IsStorable; dir = refl })

apply_stale_inflight_lem_example :
    Post
      (λ (after : ResumePlan) (v : World). Inv ascii v × (after.inflight_stale_steps ≡ 0))
      (λ v. ⊥)
      (apply_stale_inflight ascii in_order planner stuck_world)
apply_stale_inflight_lem_example =
    apply_stale_inflight_lem ascii planner in_order stuck_world stuck_world-Inv
