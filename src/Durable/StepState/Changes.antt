-- ===== src/Durable/StepState/Changes.antt =====
-- What `StepStatus.transition` of durable/step_state.py changes and keeps.
use cognitive_evolve.Prelude.{String, ◌≡◌, refl, ◌==◌, true, false, Option, arith}
use cognitive_evolve.Json.{Fields, Result, ok, err, ◌>>=◌}
use cognitive_evolve.Durable.StepState.{
  StepState, StepStatus, is_known, validate_transition, transition,
}
use cognitive_evolve.Durable.StepState.RoundTrip.{IsStorable}

known_of_validate : (a b : StepState) → validate_transition a b ≡ ok tt → is_known b ≡ true
unfolding validate_transition
known_of_validate a b h = ground arith

-- The new status is in the new state and can be stored; identifiers and hashes are kept.
pub record Changed (s t : StepStatus) (new : StepState) : Type 0 where
  pub state : t.state ≡ new
  pub storable : IsStorable t
  pub round : t.round_id ≡ s.round_id
  pub step : t.step_id ≡ s.step_id
  pub name : t.step_name ≡ s.step_name
  pub input_hash : t.input_hash ≡ s.input_hash

abbrev pub OkImplies : {A : Type 0} → (A → Type 0) → Result A → Type 0
OkImplies Q (ok a) = Q a
OkImplies Q (err e) = Unit

pub OkImplies-bind :
    {A B : Type 0} (Q : B → Type 0) (r : Result A) (f : A → Result B)
    → ((a : A) → r ≡ ok a → OkImplies Q (f a))
    → OkImplies Q (r >>= f)
OkImplies-bind Q (ok a) f h = h a refl
OkImplies-bind Q (err e) f h = tt

pub OkImplies-map :
    {A : Type 0} (P Q : A → Type 0) (r : Result A)
    → ((a : A) → P a → Q a)
    → OkImplies P r
    → OkImplies Q r
OkImplies-map P Q (ok a) f h = f a h
OkImplies-map P Q (err e) f h = tt

pub transition-Changed :
    (now : String) (s : StepStatus) (new : StepState) (reason : String) (error : Option Fields)
    (metadata : Fields)
    → (now == "") ≡ false
    → IsStorable s
    → OkImplies (λ t. Changed s t new) (transition now s new reason error metadata)
unfolding transition
transition-Changed now s new reason error metadata clock h =
    OkImplies-bind (λ t. Changed s t new) (validate_transition s.state new) _
      λ a e. record {
        state = refl;
        storable = record {
          run = h.run;
          round = h.round;
          step = h.step;
          name = h.name;
          known = known_of_validate s.state new e;
          creation = h.creation;
          change = clock;
        };
        round = refl;
        step = refl;
        name = refl;
        input_hash = refl;
      }
