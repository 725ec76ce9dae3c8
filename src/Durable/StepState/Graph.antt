-- ===== src/Durable/StepState/Graph.antt =====
-- The transition graph that `validate_transition` of durable/step_state.py accepts.
use cognitive_evolve.Prelude.{◌≡◌, refl, subst, ◌⊎◌, true, false, arith}
use cognitive_evolve.Json.{ok}
use cognitive_evolve.Durable.StepState.{
  StepState, created, ready, inflight, committed, retryable_failed, terminal_failed, cancelled,
  resumed, validate_transition, is_terminal, is_known,
}

-- The states that accepted transitions lead to.
pub data Reach (s : StepState) : StepState → Type 0 where
  here : Reach s s
  next : {t u : StepState} → Reach s t → validate_transition t u ≡ ok tt → Reach s u

step_of_terminal :
    (s t : StepState) → is_terminal s ≡ true → validate_transition s t ≡ ok tt → t ≡ s
unfolding validate_transition
step_of_terminal committed t h e = ground arith
step_of_terminal terminal_failed t h e = ground arith
step_of_terminal cancelled t h e = ground arith
step_of_terminal s t h e = cc

-- A committed, terminally failed or cancelled step stays in its state, whatever transitions are
-- accepted after that.
pub terminal_absorbs : (s t : StepState) → is_terminal s ≡ true → Reach s t → t ≡ s
terminal_absorbs s t h here = refl
terminal_absorbs s t h (next {t = u} r e) =
    let same : u ≡ s = terminal_absorbs s u h r in
    step_of_terminal s t h (subst (λ v. validate_transition v t ≡ ok tt) same e)

-- An accepted transition into `committed` starts at `inflight`, or at `committed` itself.
pub committed_only_from_inflight :
    (s : StepState) → validate_transition s committed ≡ ok tt → (s ≡ inflight) ⊎ (s ≡ committed)
unfolding validate_transition
committed_only_from_inflight s e = ground arith

-- From every known state that is not terminal, accepted transitions lead to `committed`.
pub Reach-committed :
    (s : StepState) → is_known s ≡ true → is_terminal s ≡ false → Reach s committed
unfolding validate_transition
Reach-committed inflight h k = next here refl
Reach-committed created h k = next {t = inflight} (next here refl) refl
Reach-committed ready h k = next {t = inflight} (next here refl) refl
Reach-committed retryable_failed h k = next {t = inflight} (next here refl) refl
Reach-committed resumed h k = next {t = inflight} (next here refl) refl
Reach-committed s h k = cc
