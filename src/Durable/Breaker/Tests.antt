-- ===== src/Durable/Breaker/Tests.antt =====
-- A breaker with a threshold of two and a reset time of a second.
use cognitive_evolve.Prelude.{◌≡◌, none, some, [], ◌∷◌, arith, get, put}
use cognitive_evolve.Durable.Breaker.{
  ProviderCircuitBreaker, opened, new_breaker, state_for, before_call, record_success,
  record_failure, reset_circuit, count_failure, store_state, try_half_open, fresh_circuit,
  provider_key,
}
use cognitive_evolve.Durable.Breaker.Circuit.{Inv, new_breaker-Inv, record_failure-Inv}
use cognitive_evolve.Durable.Breaker.Trips.{record_failures, record_success-record_failures}

abbrev breaker : ProviderCircuitBreaker
breaker = new_breaker (some 2) (some 1000) 5 60000

abbrev tripped_twice : ProviderCircuitBreaker
tripped_twice = record_failure 20 "openai" "slow" (record_failure 10 "openai" "slow" breaker)

program : Unit {0}
unfolding new_breaker state_for before_call record_success record_failure reset_circuit
    count_failure store_state try_half_open fresh_circuit provider_key get put record_failures
program = tt

breaker-Inv : Inv breaker
breaker-Inv = new_breaker-Inv (some 2) (some 1000) 5 60000

tripped_twice-Inv : Inv tripped_twice
tripped_twice-Inv =
    record_failure-Inv (record_failure 10 "openai" "slow" breaker) "openai"
      (record_failure-Inv breaker "openai" breaker-Inv 10 "slow") 20 "slow"

new_breaker-Inv_example : Inv (new_breaker none none 5 60000)
new_breaker-Inv_example = new_breaker-Inv none none 5 60000

record_failure-Inv_example : Inv (record_failure 30 "openai" "slow" tripped_twice)
record_failure-Inv_example = record_failure-Inv tripped_twice "openai" tripped_twice-Inv 30 "slow"

record_success-record_failures_example :
    let s =
      state_for
        (record_failures "openai" ((1, "a") ∷ (2, "b") ∷ []) (record_success "openai" breaker))
        "openai" in
    (s.failure_count ≡ 2) × (s.state ≡ opened)
unfolding new_breaker
record_success-record_failures_example =
    record_success-record_failures breaker "openai" ((1, "a") ∷ (2, "b") ∷ []) (omega arith)
