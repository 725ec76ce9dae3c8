-- ===== src/Durable/Breaker.antt =====
-- durable/provider_circuit_breaker.py: one circuit for each provider. Times are milliseconds of
-- the monotonic clock, passed in as `now`.
pub mod Circuit
pub mod Trips
mod Tests
use Prim.Native.String.{◌++◌ as ◌⧺◌}
use cognitive_evolve.Prelude.{
  ℕ, ◌+◌, ◌-◌, max, String, Bool, true, false, ◌&&◌, Option, none, some, Dict, get, put, leb, eqb,
  ◌==◌, if◌then◌else◌,
}
use cognitive_evolve.Json.{Error, raised, ok, err}
use cognitive_evolve.Exec.{Exec}

-- "closed", "open" and "half_open".
pub data CircuitState : Type 0 where
  closed opened half_open : CircuitState

pub record ProviderCircuitState : Type 0 where
  pub provider : String
  pub state : CircuitState
  pub failure_count : ℕ
  pub opened_at : Option ℕ
  pub last_error : String

pub record ProviderCircuitBreaker : Type 0 where
  pub failure_threshold : ℕ
  pub reset_time : ℕ
  pub states : Dict ProviderCircuitState

abbrev or_default : Option ℕ → ℕ → ℕ
or_default none n = n
or_default (some m) n = if eqb m 0 then n else m

-- The two environment settings are given as numbers.
unfoldable pub new_breaker : Option ℕ → Option ℕ → ℕ → ℕ → ProviderCircuitBreaker
new_breaker failure_threshold reset_time env_failures env_reset = record {
  failure_threshold = max 1 (or_default failure_threshold env_failures);
  reset_time = max 100 (or_default reset_time env_reset);
  states = mathlib.Core.List.[];
}

-- str(provider or "unknown")
unfoldable pub provider_key : String → String
provider_key p = if p == "" then "unknown" else p

unfoldable pub fresh_circuit : String → ProviderCircuitState
unfolding provider_key
fresh_circuit p = record {
  provider = provider_key p;
  state = closed;
  failure_count = 0;
  opened_at = none;
  last_error = "";
}

abbrev or_fresh : String → Option ProviderCircuitState → ProviderCircuitState
or_fresh p none = fresh_circuit p
or_fresh p (some s) = s

-- The circuit of a provider; a provider that is not known has a fresh one.
unfoldable pub state_for : ProviderCircuitBreaker → String → ProviderCircuitState
state_for b p = or_fresh p (get b.states (provider_key p))

-- The circuit object is changed in place.
unfoldable pub store_state :
    ProviderCircuitBreaker → String → ProviderCircuitState → ProviderCircuitBreaker
store_state b p s = record b { states = put b.states (provider_key p) s }

abbrev is_opened : CircuitState → Bool
is_opened opened = true
is_opened _ = false

-- state.opened_at is not None and (now - state.opened_at) >= reset
abbrev has_cooled : Option ℕ → ℕ → ℕ → Bool
has_cooled none now reset = false
has_cooled (some t) now reset = leb reset (now - t)

-- The first `if` of `before_call`.
unfoldable pub try_half_open : ℕ → ℕ → ProviderCircuitState → ProviderCircuitState
try_half_open reset now s =
    if is_opened s.state && has_cooled s.opened_at now reset
    then record s { state = half_open }
    else s

abbrev pub unavailable : String → Error
unavailable p =
    raised "ProviderUnavailableError"
      ("provider_unavailable: circuit open for " ⧺ (p ⧺ "; fixture fallback is forbidden"))

unfoldable pub before_call : ℕ → String → Exec ProviderCircuitBreaker ProviderCircuitState
unfolding try_half_open
before_call now p b =
    let s = try_half_open b.reset_time now (state_for b p) in
    (if is_opened s.state then err (unavailable p) else ok s, store_state b p s)

unfoldable pub reset_circuit : ProviderCircuitState → ProviderCircuitState
reset_circuit s = record s { state = closed; failure_count = 0; opened_at = none; last_error = "" }

unfoldable pub record_success : String → ProviderCircuitBreaker → ProviderCircuitBreaker
record_success p b = store_state b p (reset_circuit (state_for b p))

unfoldable pub count_failure : ℕ → ℕ → String → ProviderCircuitState → ProviderCircuitState
count_failure threshold now error s =
    let n = s.failure_count + 1 in
    if leb threshold n
    then record s { failure_count = n; last_error = error; state = opened; opened_at = some now }
    else record s { failure_count = n; last_error = error }

-- `error` is the first 500 characters of the message.
unfoldable pub record_failure :
    ℕ → String → String → ProviderCircuitBreaker → ProviderCircuitBreaker
record_failure now p error b =
    store_state b p (count_failure b.failure_threshold now error (state_for b p))
