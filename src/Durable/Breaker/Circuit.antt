-- ===== src/Durable/Breaker/Circuit.antt =====
-- When a circuit of durable/provider_circuit_breaker.py opens, blocks, half-opens and closes.
use cognitive_evolve.Prelude.{
  ℕ, ◌+◌, ◌-◌, ◌≤◌, ◌<◌, String, ◌≡◌, refl, ◌⊎◌, inl, inr, false, Option, some, arith, leb, get,
  get-put, ◌==◌, eq_refl, Bool-cases, ◌&&◌, if◌then◌else◌,
}
use cognitive_evolve.Json.{ok, err}
use cognitive_evolve.Durable.Breaker.{
  unavailable, is_opened, has_cooled, closed, opened, half_open, fresh_circuit,
  ProviderCircuitState, ProviderCircuitBreaker, new_breaker, provider_key, state_for, store_state,
  try_half_open, before_call, reset_circuit, record_success, count_failure, record_failure,
}

pub state_for-store_state :
    (b : ProviderCircuitBreaker) (p q : String) (s : ProviderCircuitState)
    → state_for (store_state b p s) q
      ≡ (if provider_key p == provider_key q then s else state_for b q)
unfolding state_for store_state
state_for-store_state b p q s = elim (Bool-cases (provider_key p == provider_key q)) [
  | inl e ↦ rw get-put (rw e)
  | inr e ↦ rw get-put (rw e)
]

-- An open circuit knows when it opened, and no circuit but a closed one is below the threshold.
pub record IsConsistent (threshold : ℕ) (s : ProviderCircuitState) : Type 0 where
  pub opened_known : s.state ≡ opened → (t : ℕ) × (s.opened_at ≡ some t)
  pub failures : (s.state ≡ closed) ⊎ (threshold ≤ s.failure_count)
  pub below : s.state ≡ closed → s.failure_count < threshold

-- The threshold is positive and every circuit is consistent.
pub record Inv (b : ProviderCircuitBreaker) : Type 0 where
  pub threshold : 0 < b.failure_threshold
  pub circuits : (p : String) → IsConsistent b.failure_threshold (state_for b p)

store_state-Inv :
    (b : ProviderCircuitBreaker) (p : String) (s : ProviderCircuitState)
    → Inv b
    → IsConsistent b.failure_threshold s
    → Inv (store_state b p s)
unfolding store_state
store_state-Inv b p s inv h = record {
  threshold = inv.threshold;
  circuits = λ q.
      rw (state_for-store_state b p q s) (elim (Bool-cases (provider_key p == provider_key q)) [
        | inl e ↦ rw e h
        | inr e ↦ rw e (inv.circuits q)
      ]);
}

-- The invariant holds of a new breaker, for every setting.
pub new_breaker-Inv :
    (threshold reset : Option ℕ) (env_failures env_reset : ℕ)
    → Inv (new_breaker threshold reset env_failures env_reset)
unfolding new_breaker state_for get fresh_circuit
new_breaker-Inv threshold reset env_failures env_reset = record {
  threshold = omega arith;
  circuits = λ p. record { opened_known = λ e. cc; failures = inl refl; below = λ e. omega arith };
}

count_failure-IsConsistent :
    (threshold now : ℕ) (error : String) (s : ProviderCircuitState)
    → IsConsistent threshold s
    → IsConsistent threshold (count_failure threshold now error s)
unfolding count_failure
count_failure-IsConsistent threshold now error s h =
    elim (Bool-cases (leb threshold (s.failure_count + 1))) [
      | inl e ↦ rw e (record {
        opened_known = λ _. (now, refl);
        failures = inr (ground arith);
        below = λ c. cc;
      })
      | inr e ↦ rw e (record {
        opened_known = h.opened_known;
        failures = ground (arith, h.failures);
        below = λ c. ground arith;
      })
    ]

try_half_open-IsConsistent :
    (threshold reset now : ℕ) (s : ProviderCircuitState)
    → IsConsistent threshold s
    → IsConsistent threshold (try_half_open reset now s)
unfolding try_half_open
try_half_open-IsConsistent threshold reset now s h =
    elim (Bool-cases (is_opened s.state && has_cooled s.opened_at now reset)) [
      | inl e ↦ rw e (record {
        opened_known = λ c. cc;
        failures = ground (arith, h.failures);
        below = λ c. cc;
      })
      | inr e ↦ rw e h
    ]

module _ (b : ProviderCircuitBreaker) (p : String) (inv : Inv b) where
  pub record_success-Inv : Inv (record_success p b)
  unfolding record_success reset_circuit
  record_success-Inv =
      store_state-Inv b p _ inv
        (record { opened_known = λ e. cc; failures = inl refl; below = λ e. inv.threshold })

  -- A failure keeps the invariant.
  pub record_failure-Inv : (now : ℕ) (error : String) → Inv (record_failure now p error b)
  unfolding record_failure
  record_failure-Inv now error =
      store_state-Inv b p _ inv
        (count_failure-IsConsistent b.failure_threshold now error (state_for b p) (inv.circuits p))

  -- The question whether a call may be made keeps the invariant, whether the answer is yes or no.
  pub before_call-Inv : (now : ℕ) → Inv (before_call now p b).1
  unfolding before_call
  before_call-Inv now = store_state-Inv b p _ inv (
      try_half_open-IsConsistent b.failure_threshold b.reset_time now (state_for b p)
        (inv.circuits p))

  -- An open circuit refuses a call exactly until the reset time has passed since it opened.
  pub before_call_opened :
      (now since : ℕ)
      → (state_for b p).state ≡ opened
      → (state_for b p).opened_at ≡ some since
      → (before_call now p b).0 ≡ (
          if leb b.reset_time (now - since)
          then ok (record (state_for b p) { state = half_open })
          else err (unavailable p))
  unfolding before_call try_half_open
  before_call_opened now since e t = ground arith

  -- The first failure of a half-open circuit opens it again, at once and from that moment on.
  pub half_open-record_failure :
      (now : ℕ) (error : String)
      → (state_for b p).state ≡ half_open
      → let s = state_for (record_failure now p error b) p in
        (s.state ≡ opened) × (s.opened_at ≡ some now)
  unfolding record_failure count_failure
  half_open-record_failure now error e =
      rw (state_for-store_state, eq_refl) (ground (arith, (inv.circuits p).failures))

-- What one provider's calls do is not seen by another provider.
pub other_provider :
    (b : ProviderCircuitBreaker) (p q : String) (now : ℕ) (error : String)
    → (provider_key p == provider_key q) ≡ false
    → (state_for (record_failure now p error b) q ≡ state_for b q)
      × (state_for (record_success p b) q ≡ state_for b q)
      × (state_for (before_call now p b).1 q ≡ state_for b q)
unfolding record_failure record_success before_call
other_provider b p q now error h =
    (rw (state_for-store_state, h), rw (state_for-store_state, h), rw (state_for-store_state, h))
