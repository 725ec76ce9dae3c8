-- ===== src/Durable/Breaker/Trips.antt =====
-- How many failures open a circuit of durable/provider_circuit_breaker.py.
use cognitive_evolve.Prelude.{
  ℕ, suc, ◌+◌, ◌<◌, String, ◌≡◌, refl, sym, ap, ◌∙◌, arith, leb, eq_refl, List, [], ◌∷◌, length,
  if◌then◌else◌,
}
use native.Mathlib.Nat.{add-zero, zero-add}
use cognitive_evolve.Durable.Breaker.{
  CircuitState, closed, opened, ProviderCircuitState, ProviderCircuitBreaker, state_for,
  store_state, reset_circuit, record_success, count_failure, record_failure,
}
use cognitive_evolve.Durable.Breaker.Circuit.{state_for-store_state}

-- The failures of one provider after another, each with its time and message.
unfoldable pub record_failures :
    String → List (ℕ × String) → ProviderCircuitBreaker → ProviderCircuitBreaker
record_failures p [] b = b
record_failures p ((now, error) ∷ es) b = record_failures p es (record_failure now p error b)

threshold-store_state :
    (b : ProviderCircuitBreaker) (p : String) (s : ProviderCircuitState)
    → (store_state b p s).failure_threshold ≡ b.failure_threshold
unfolding store_state
threshold-store_state b p s = refl

record_failure_self :
    (b : ProviderCircuitBreaker) (p : String) (now : ℕ) (error : String)
    → state_for (record_failure now p error b) p
      ≡ count_failure b.failure_threshold now error (state_for b p)
unfolding record_failure
record_failure_self b p now error = rw (state_for-store_state, eq_refl)

threshold-record_failure :
    (b : ProviderCircuitBreaker) (p : String) (now : ℕ) (error : String)
    → (record_failure now p error b).failure_threshold ≡ b.failure_threshold
unfolding record_failure store_state
threshold-record_failure b p now error = refl

-- The state that n failures since the last success give.
abbrev pub tripped : ℕ → ℕ → CircuitState
tripped threshold n = if leb threshold n then opened else closed

count_failure-tripped :
    (threshold now n : ℕ) (error : String) (s : ProviderCircuitState)
    → s.failure_count ≡ n
    → s.state ≡ tripped threshold n
    → let t = count_failure threshold now error s in
      (t.failure_count ≡ n + 1) × (t.state ≡ tripped threshold (n + 1))
unfolding count_failure
count_failure-tripped threshold now n error s e f = ground arith

record_failures-tripped :
    (b : ProviderCircuitBreaker) (p : String) (es : List (ℕ × String)) (n : ℕ)
    → (state_for b p).failure_count ≡ n
    → (state_for b p).state ≡ tripped b.failure_threshold n
    → let s = state_for (record_failures p es b) p in
      (s.failure_count ≡ n + length es) × (s.state ≡ tripped b.failure_threshold (n + length es))
unfolding record_failures
record_failures-tripped b p [] n e f = rw add-zero (e, f)
record_failures-tripped b p ((now, error) ∷ es) n e f =
    let c = record_failure now p error b in
    let at : state_for c p ≡ count_failure b.failure_threshold now error (state_for b p) =
      record_failure_self b p now error in
    let (count, state) =
      count_failure-tripped b.failure_threshold now n error (state_for b p) e f in
    let (total, last) =
      record_failures-tripped c p es (n + 1) (rw at count)
        (rw (at, threshold-record_failure b p now error) state) in
    let shift : n + 1 + length es ≡ n + suc (length es) = omega arith in
    (total ∙ shift, last ∙ (λ i. tripped (threshold-record_failure b p now error i) (shift i)))

tripped-zero : {threshold : ℕ} → 0 < threshold → tripped threshold 0 ≡ closed
tripped-zero h = ground arith

record_success_self :
    (b : ProviderCircuitBreaker) (p : String)
    → ((state_for (record_success p b) p).failure_count ≡ 0)
      × ((state_for (record_success p b) p).state ≡ closed)
      × ((record_success p b).failure_threshold ≡ b.failure_threshold)
unfolding record_success reset_circuit
record_success_self b p = (
  rw (state_for-store_state, eq_refl) refl,
  rw (state_for-store_state, eq_refl) refl,
  threshold-store_state b p _,
)

-- After a success, n failures in a row open the circuit if n reaches the threshold, and leave it
-- closed before that.
pub record_success-record_failures :
    (b : ProviderCircuitBreaker) (p : String) (es : List (ℕ × String))
    → 0 < b.failure_threshold
    → let s = state_for (record_failures p es (record_success p b)) p in
      (s.failure_count ≡ length es)
      × (s.state ≡ (if leb b.failure_threshold (length es) then opened else closed))
record_success-record_failures b p es h =
    let (count, state, same) = record_success_self b p in
    let (total, last) =
      record_failures-tripped (record_success p b) p es 0 count
        (state ∙ sym (tripped-zero h) ∙ ap (λ t. tripped t 0) (sym same)) in
    (total ∙ zero-add (length es), last ∙ (λ i. tripped (same i) (zero-add (length es) i)))
