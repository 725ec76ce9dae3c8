-- ===== src/Llm/Governor.antt =====
-- llm/governor.py: the windows of the last minute's requests and tokens. Times are milliseconds of
-- the monotonic clock; a reading of the clock is an argument. A limit of zero is no limit.
pub mod Window
pub mod Tokens
mod Tests
use cognitive_evolve.Prelude.{
  ℕ, zero, suc, ◌+◌, ◌-◌, max, min, Bool, true, false, not, ◌&&◌, Option, none, some, List, [], ◌∷◌,
  ◌++◌, map, length, sum, ltb, leb, eqb, if◌then◌else◌,
}

pub record Governor : Type 0 where
  pub request_times : List ℕ
  pub token_events : List (ℕ × ℕ)

pub record Limits : Type 0 where
  pub rpm : ℕ
  pub tpm : ℕ

-- t <= now - 60.0
unfoldable pub is_old : ℕ → ℕ → Bool
is_old now t = leb (t + 60000) now

unfoldable pub prune_requests : ℕ → List ℕ → List ℕ
prune_requests now [] = []
prune_requests now (t ∷ ts) =
    let rest = prune_requests now ts in if is_old now t then rest else t ∷ ts

unfoldable pub prune_tokens : ℕ → List (ℕ × ℕ) → List (ℕ × ℕ)
prune_tokens now [] = []
prune_tokens now ((t, n) ∷ es) =
    let rest = prune_tokens now es in if is_old now t then rest else (t, n) ∷ es

-- `_prune_locked`
unfoldable pub prune : ℕ → Governor → Governor
prune now g = record {
  request_times = prune_requests now g.request_times;
  token_events = prune_tokens now g.token_events;
}

unfoldable pub used_tokens : List (ℕ × ℕ) → ℕ
used_tokens [] = 0
used_tokens ((t, n) ∷ es) = n + used_tokens es

-- max(0.05, 60.0 - (now - t))
time_left : ℕ → ℕ → ℕ
time_left now t = max 50 (60000 - (now - t))

unfoldable pub request_wait : Limits → ℕ → List ℕ → Option ℕ
unfolding time_left
request_wait l now [] = none
request_wait l now (t ∷ ts) =
    if ltb 0 l.rpm && leb l.rpm (length (t ∷ ts)) then some (time_left now t) else none

unfoldable pub token_wait : Limits → (now estimated : ℕ) → List (ℕ × ℕ) → Option ℕ
unfolding time_left
token_wait l now estimated [] = none
token_wait l now estimated ((t, n) ∷ es) =
    if ltb 0 l.tpm && ltb l.tpm (used_tokens ((t, n) ∷ es) + estimated)
    then some (time_left now t)
    else none

-- min(waits), or none if there are no waits
unfoldable pub shortest : Option ℕ → Option ℕ → Option ℕ
shortest none b = b
shortest (some m) none = some m
shortest (some m) (some n) = some (min m n)

-- The request is entered into the windows.
unfoldable pub admit : Limits → (now estimated : ℕ) → Governor → Governor
admit l now estimated g = record {
  request_times = g.request_times ++ (now ∷ []);
  token_events = if ltb 0 l.tpm then g.token_events ++ ((now, estimated) ∷ []) else g.token_events;
}

-- How long to sleep before the next turn, or none if the request was admitted.
wait_or_admit : Limits → (now estimated : ℕ) → Option ℕ → Governor → Option ℕ × Governor
wait_or_admit l now estimated none g = (none, admit l now estimated g)
wait_or_admit l now estimated (some n) g = (some (min n 5000), g)

-- One turn of the loop of `_wait_for_rate_window`, at one reading of the clock.
unfoldable pub attempt : Limits → (now tokens : ℕ) → Governor → Option ℕ × Governor
unfolding wait_or_admit
attempt l now tokens g =
    let estimated = max 1 tokens in
    let pruned = prune now g in
    let wait =
      shortest (request_wait l now pruned.request_times)
        (token_wait l now estimated pruned.token_events) in
    wait_or_admit l now estimated wait pruned

unfoldable pub is_admitted : Option ℕ → Bool
is_admitted none = true
is_admitted (some n) = false

-- The turns of all callers, in the order in which they take the lock, each with the time and the
-- estimated tokens: the times of the admitted requests and the governor after the turns.
unfoldable pub turns : Limits → List (ℕ × ℕ) → Governor → List ℕ × Governor
turns l [] g = ([], g)
turns l ((now, tokens) ∷ rest) g =
    let (wait, after) = attempt l now tokens g in
    let (admitted, last) = turns l rest after in
    (if is_admitted wait then now ∷ admitted else admitted, last)

abbrev pub new_governor : Governor
new_governor = record { request_times = []; token_events = [] }
