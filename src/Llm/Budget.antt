-- ===== src/Llm/Budget.antt =====
-- llm/budget.py and llm/session.py: the cost budget of model calls, and the reservations that
-- concurrent calls make of it. Amounts are whole micro-dollars.
pub mod Sums
pub mod States
pub mod Reserved
mod Tests
use cognitive_evolve.Prelude.{
  ℕ, zero, suc, ◌+◌, ◌-◌, String, Bool, true, false, not, ◌&&◌, ◌||◌, Option, none, some, List, [],
  ◌∷◌, ◌++◌, sum, contains, ltb, leb, max, ◌==◌, if◌then◌else◌,
}
use cognitive_evolve.Json.{Result, ok, err, Error, raised}

-- What is read of a telemetry event.
pub record CallEvent : Type 0 where
  pub estimated_cost : Option ℕ
  pub cache_replayed : Bool
  pub physical_call_id : String

pub record Session : Type 0 where
  pub events : List CallEvent
  pub budget_call_lock : Bool
  pub budget_reservation : ℕ

-- `LLMSession.record` and `LLMSession.clear`
unfoldable pub record_event : CallEvent → Session → Session
record_event e s = record s { events = s.events ++ (e ∷ []) }

unfoldable pub clear : Session → Session
clear s = record s { events = [] }

cost_of : Option ℕ → ℕ
cost_of none = 0
cost_of (some c) = c

total_cost : List String → List CallEvent → ℕ
unfolding cost_of
total_cost seen [] = 0
total_cost seen (e ∷ es) =
    let same = total_cost seen es in
    let new = total_cost (e.physical_call_id ∷ seen) es in
    if e.cache_replayed
    then same
    else if e.physical_call_id == ""
    then cost_of e.estimated_cost + same
    else if contains seen e.physical_call_id
    then same
    else cost_of e.estimated_cost + new

-- Each physical call is counted once.
unfoldable pub total_estimated_cost : Session → ℕ
unfolding total_cost
total_estimated_cost s = total_cost [] s.events

budget_error : Error
budget_error = raised "LLMResponseError" "LLM cost budget"

-- `enforce_budget`, without a stage budget
unfoldable pub enforce_budget :
    (budget : Option ℕ) → (preflight : Bool) → Session → Result (Unit {0})
unfolding budget_error
enforce_budget none preflight s = ok tt
enforce_budget (some budget) preflight s =
    let over =
      if preflight
      then leb budget (total_estimated_cost s)
      else ltb budget (total_estimated_cost s) in
    if over then err budget_error else ok tt

-- The cost of an event, put before others unless it is replayed or has none.
unfoldable pub charge : Bool → Option ℕ → List ℕ → List ℕ
charge true c rest = rest
charge false none rest = rest
charge false (some c) rest = c ∷ rest

unfoldable pub costs : List CallEvent → List ℕ
unfolding charge
costs [] = []
costs (e ∷ es) = charge e.cache_replayed e.estimated_cost (costs es)

unfoldable pub largest : List ℕ → ℕ
largest [] = 0
largest (c ∷ cs) = max c (largest cs)

-- The start of `budget_reservation`, once the call has the lock: it is refused, or goes on with its
-- reservation; the lock is kept where that is zero.
unfoldable pub reserve : (budget : ℕ) → Session → Result (ℕ × Session)
unfolding budget_error
reserve budget s =
    let completed = sum (costs s.events) in
    let reservation = largest (costs s.events) in
    let committed = completed + s.budget_reservation + reservation in
    if leb budget completed || (ltb 0 reservation && ltb budget committed)
    then err budget_error
    else ok (
      reservation,
      record s {
        budget_call_lock = leb reservation 0;
        budget_reservation = s.budget_reservation + reservation;
      },
    )

-- The end of `budget_reservation`: the reservation is given back, and the lock if it is held.
unfoldable pub release : (reservation : ℕ) → Session → Session
release reservation s = record s {
  budget_call_lock = if leb reservation 0 then false else s.budget_call_lock;
  budget_reservation = s.budget_reservation - reservation;
}

-- A call between the two, and whether its event is recorded.
pub record Call : Type 0 where
  pub reservation : ℕ
  pub is_recorded : Bool

-- A session with the calls in flight.
pub record Flight : Type 0 where
  pub session : Session
  pub calls : List Call

unfoldable pub call_at : ℕ → List Call → Option Call
call_at i [] = none
call_at zero (c ∷ cs) = some c
call_at (suc i) (c ∷ cs) = call_at i cs

unfoldable pub mark_at : ℕ → List Call → List Call
mark_at i [] = []
mark_at zero (c ∷ cs) = record c { is_recorded = true } ∷ cs
mark_at (suc i) (c ∷ cs) = c ∷ mark_at i cs

unfoldable pub without : ℕ → List Call → List Call
without i [] = []
without zero (c ∷ cs) = cs
without (suc i) (c ∷ cs) = c ∷ without i cs

-- What concurrent calls do, in the order in which they take the session's lock: a call starts, or
-- the call at a place records its one event, or it ends.
pub data Action : Type 0 where
  starts : Action
  records : ℕ → CallEvent → Action
  ends : ℕ → Action

-- A refused call leaves nothing.
unfoldable pub admitted : Result (ℕ × Session) → Flight → Flight
admitted (err e) f = f
admitted (ok (r, t)) f = record {
  session = t;
  calls = record { reservation = r; is_recorded = false } ∷ f.calls;
}

unfoldable pub recorded : ℕ → CallEvent → Option Call → Flight → Flight
recorded i e none f = f
recorded i e (some c) f =
    if c.is_recorded
    then f
    else record { session = record_event e f.session; calls = mark_at i f.calls }

unfoldable pub ended : ℕ → Option Call → Flight → Flight
ended i none f = f
ended i (some c) f = record { session = release c.reservation f.session; calls = without i f.calls }

-- One action. A call that finds the budget's lock taken waits, and starts in a later action.
unfoldable pub act : (budget : ℕ) → Action → Flight → Flight
unfolding admitted recorded ended
act budget starts f =
    if f.session.budget_call_lock then f else admitted (reserve budget f.session) f
act budget (records i e) f = recorded i e (call_at i f.calls) f
act budget (ends i) f = ended i (call_at i f.calls) f

unfoldable pub acts : (budget : ℕ) → List Action → Flight → Flight
acts budget [] f = f
acts budget (a ∷ later) f = acts budget later (act budget a f)

abbrev pub new_flight : Flight
new_flight = record {
  session = record { events = []; budget_call_lock = false; budget_reservation = 0 };
  calls = [];
}

-- Is what a call costs within its reservation, or within the bound where that is zero?
unfoldable pub within : (bound : ℕ) → CallEvent → Option Call → Bool
within bound e none = true
within bound e (some c) =
    leb (sum (costs (e ∷ []))) (if leb c.reservation 0 then bound else c.reservation)

unfoldable pub is_expected : (bound : ℕ) → Action → Flight → Bool
unfolding within
is_expected bound starts f = true
is_expected bound (records i e) f = within bound e (call_at i f.calls)
is_expected bound (ends i) f = true

-- Are the costs of all calls expected?
unfoldable pub are_expected : (budget bound : ℕ) → List Action → Flight → Bool
are_expected budget bound [] f = true
are_expected budget bound (a ∷ later) f =
    is_expected bound a f && are_expected budget bound later (act budget a f)
