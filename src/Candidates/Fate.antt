-- ===== src/Candidates/Fate.antt =====
-- candidates/fate_machine.py, with `CandidateFate` and `mark_fate` of candidates/genome.py and the
-- table of nexus/fate_semantics.py. The texts of the errors are left out.
pub mod Moves
pub mod Life
mod Tests
use cognitive_evolve.Prelude.{
  ℕ, zero, suc, ◌-◌, String, Bool, true, false, ◌&&◌, ◌||◌, Option, none, some, ◌==◌, if◌then◌else◌,
}
use cognitive_evolve.Json.{
  Value, null, text, array, object, Items, nil, cons, Fields, end, field, Python, Error, raised,
  value_error, Result, ok, err, ◌>>=◌, get_field, set_field, truthy, str, or_else,
}
use cognitive_evolve.Durable.Paths.{strip}

pub data CandidateFate : Type 0 where
  active elite incubating dormant auxiliary culled failed : CandidateFate

abbrev pub fate_value : CandidateFate → String
fate_value active = "Active"
fate_value elite = "Elite"
fate_value incubating = "Incubating"
fate_value dormant = "Dormant"
fate_value auxiliary = "Auxiliary"
fate_value culled = "Culled"
fate_value failed = "Failed"

-- The member of CandidateFate.ALL with this value.
unfoldable pub read_fate : String → Option CandidateFate
read_fate s =
    if s == "Active"
    then some active
    else if s == "Elite"
    then some elite
    else if s == "Incubating"
    then some incubating
    else if s == "Dormant"
    then some dormant
    else if s == "Auxiliary"
    then some auxiliary
    else if s == "Culled"
    then some culled
    else if s == "Failed"
    then some failed
    else none

-- normalize(value, default=""), where none is the default, which is no fate
unfoldable pub normalize : Python → Value → Option CandidateFate
normalize py value = read_fate (strip py (str py (or_else py (some value) (text ""))))

or_active : Option CandidateFate → CandidateFate
or_active none = active
or_active (some f) = f

-- normalize(value)
unfoldable pub normalize_or_active : Python → Value → CandidateFate
unfolding or_active
normalize_or_active py value = or_active (normalize py value)

pub same_fate : CandidateFate → CandidateFate → Bool
same_fate active active = true
same_fate elite elite = true
same_fate incubating incubating = true
same_fate dormant dormant = true
same_fate auxiliary auxiliary = true
same_fate culled culled = true
same_fate failed failed = true
same_fate _ _ = false

-- next_fate in VALID_TRANSITIONS.get(previous, set())
unfoldable pub is_valid : CandidateFate → CandidateFate → Bool
is_valid active active = false
is_valid active t = true
is_valid elite active = true
is_valid elite culled = true
is_valid incubating active = true
is_valid incubating dormant = true
is_valid incubating culled = true
is_valid incubating failed = true
is_valid dormant active = true
is_valid dormant culled = true
is_valid auxiliary active = true
is_valid auxiliary culled = true
is_valid failed dormant = true
is_valid _ _ = false

pub record FateTransition : Type 0 where
  pub previous : CandidateFate
  pub target : CandidateFate
  pub reason : String

-- FateTransition.to_dict
unfoldable pub transition_to_dict : FateTransition → Fields
transition_to_dict t = field "previous" (text (fate_value t.previous)) (
    field "target" (text (fate_value t.target))
      (if t.reason == "" then end else field "reason" (text t.reason) end))

illegal : Error
illegal = raised "IllegalFateTransition" ""

check_move : CandidateFate → CandidateFate → Result FateTransition
unfolding illegal same_fate
check_move previous next =
    if same_fate previous next || is_valid previous next
    then ok (record { previous = previous; target = next; reason = "" })
    else err illegal

check_target : CandidateFate → Option CandidateFate → Result FateTransition
unfolding illegal
check_target previous none = err illegal
check_target previous (some next) = check_move previous next

unfoldable pub validate_transition : Python → (current target : Value) → Result FateTransition
unfolding check_target check_move illegal
validate_transition py current target =
    check_target (normalize_or_active py current) (normalize py target)

-- The part of a `CandidateGenome` that a change of fate touches.
pub record CandidateGenome : Type 0 where
  pub current_fate : String
  pub metadata : Value

set_fate : CandidateGenome → Option CandidateFate → Result CandidateGenome
set_fate c none = err value_error
set_fate c (some f) = ok (record c { current_fate = fate_value f })

unfoldable pub mark_fate : Python → Value → CandidateGenome → Result CandidateGenome
unfolding set_fate
mark_fate py fate c = set_fate c (normalize py fate)

as_fields : Value → Fields
as_fields (object d) = d
as_fields _ = end

as_items : Option Value → Items
as_items (some (array vs)) = vs
as_items _ = nil

-- history.append(record)
unfoldable pub append_item : Items → Value → Items
append_item nil w = cons w nil
append_item (cons v vs) w = cons v (append_item vs w)

unfoldable pub count_items : Items → ℕ
count_items nil = 0
count_items (cons v vs) = suc (count_items vs)

unfoldable pub drop_items : ℕ → Items → Items
drop_items zero vs = vs
drop_items (suc n) nil = nil
drop_items (suc n) (cons v vs) = drop_items n vs

-- history[-n:]
unfoldable pub last_items : ℕ → Items → Items
last_items n vs = drop_items (count_items vs - n) vs

unfoldable pub history : Fields → Items
unfolding as_items
history metadata = as_items (get_field metadata "fate_transition_history")

-- The metadata after a transition.
unfoldable pub record_transition : FateTransition → Fields → Fields
record_transition t metadata =
    let items = last_items 20 (append_item (history metadata) (object (transition_to_dict t))) in
    let kept = set_field metadata "fate_transition_history" (array items) in
    if t.reason == "" then kept else set_field kept "state_transition_reason" (text t.reason)

unfoldable pub transition_candidate_fate :
    Python → CandidateGenome → (target : Value) → (reason : String) → Result CandidateGenome
unfolding as_fields
transition_candidate_fate py c target reason = do
  t ← validate_transition py (text c.current_fate) target
  marked ← mark_fate py (text (fate_value t.target)) c
  let metadata = record_transition (record t { reason = reason }) (as_fields marked.metadata)
  ok (record marked { metadata = object metadata })

-- The flags of FATE_SEMANTICS.
pub record FateSemantics : Type 0 where
  pub may_be_parent : Bool
  pub may_reactivate : Bool
  pub terminal : Bool
  pub final_answer_candidate : Bool

unfoldable pub fate_semantics : CandidateFate → FateSemantics
fate_semantics active = record {
  may_be_parent = true;
  may_reactivate = false;
  terminal = false;
  final_answer_candidate = true;
}
fate_semantics incubating = record {
  may_be_parent = true;
  may_reactivate = false;
  terminal = false;
  final_answer_candidate = false;
}
fate_semantics dormant = record {
  may_be_parent = false;
  may_reactivate = true;
  terminal = false;
  final_answer_candidate = false;
}
fate_semantics elite = record {
  may_be_parent = true;
  may_reactivate = false;
  terminal = false;
  final_answer_candidate = true;
}
fate_semantics auxiliary = record {
  may_be_parent = false;
  may_reactivate = true;
  terminal = false;
  final_answer_candidate = false;
}
fate_semantics culled = record {
  may_be_parent = false;
  may_reactivate = false;
  terminal = true;
  final_answer_candidate = false;
}
fate_semantics failed = record {
  may_be_parent = false;
  may_reactivate = false;
  terminal = true;
  final_answer_candidate = false;
}
