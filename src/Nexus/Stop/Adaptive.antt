-- ===== src/Nexus/Stop/Adaptive.antt =====
-- nexus/loop/adaptive_stop.py: the stop after every recommended intervention was tried in vain.
use cognitive_evolve.Prelude.{
  ℕ, String, Bool, true, false, not, ◌&&◌, ◌||◌, Option, none, some, List, [], ◌∷◌, ◌++◌, length,
  contains, ltb, eqb, ◌==◌, if◌then◌else◌,
}
use cognitive_evolve.Json.{
  Python, Value, text, array, object, Items, nil, cons, Fields, get_field, str, or_else, to_int, ok,
  err,
}

-- What is asked of Python's numbers: `float(v)`, none where it raises, and the order of tuples.
pub record Floats (Q : Type 0) : Type 0 where
  pub to_float : Value → Option Q
  pub exceeds : List Q → List Q → Bool

pub record Diagnosis : Type 0 where
  pub stagnation_detected : Bool
  pub stagnation_type : String
  pub notes : String
  pub recommended_actions : List String

-- What is read of an `EvolutionPolicy`.
pub record Policy : Type 0 where
  pub metadata : Fields
  pub stagnation_actions : List String

pub record Observation (Q : Type 0) : Type 0 where
  pub best : String
  pub quality : List Q
  pub actions : List String

module _ (py : Python) where
  -- str(d.get(k) or "")
  abbrev pub text_of : Option Value → String
  text_of v = str py (or_else py v (text ""))

module _ {Q : Type 0} (py : Python) (n : Floats Q) where
  number_before : Option Q → Option (List Q) → Option (List Q)
  number_before (some q) (some qs) = some (q ∷ qs)
  number_before _ _ = none

  floats : Items → Option (List Q)
  unfolding number_before
  floats nil = some []
  floats (cons v vs) = number_before (n.to_float v) (floats vs)

  or_empty : Option (List Q) → List Q
  or_empty none = []
  or_empty (some qs) = qs

  quality_key : Option Value → List Q
  unfolding floats or_empty
  quality_key (some (array vs)) = or_empty (floats vs)
  quality_key _ = []

  named : Items → List String
  named nil = []
  named (cons v vs) = let rest = named vs in if str py v == "" then rest else str py v ∷ rest

  names_of : Option Value → List String
  unfolding named
  names_of (some (array vs)) = named vs
  names_of _ = []

  -- The actions of a list; a text, which the code would take character by character, has none here.
  diagnosis_actions : Option Value → List String
  unfolding names_of
  diagnosis_actions (some (object d)) = names_of (get_field d "recommended_actions")
  diagnosis_actions _ = []

  observed_item : Fields → Option Value → List (Observation Q) → List (Observation Q)
  unfolding quality_key diagnosis_actions
  observed_item item (some (object ranking)) rest =
      record {
        best = text_of py (get_field ranking "best_final_answer_id");
        quality = quality_key (get_field item "best_quality_key");
        actions = diagnosis_actions (get_field item "diagnosis");
      }
      ∷ rest
  observed_item item _ rest = rest

  -- The observations of the history, the latest first.
  unfoldable pub observations : List Value → List (Observation Q) → List (Observation Q)
  unfolding observed_item
  observations [] later = later
  observations (object item ∷ history) later =
      observations history (observed_item item (get_field item "ranking") later)
  observations (_ ∷ history) later = observations history later

-- Is a list that Python tests for truth not empty?
abbrev pub nonempty {ℓ} : {A : Type ℓ} → List A → Bool
nonempty [] = false
nonempty (x ∷ xs) = true

module _ {Q : Type 0} (n : Floats Q) (best_answer_id : String) where
  -- The loop over the observations, the latest first, after the first one.
  unfoldable pub earlier_tail : (latest : List Q) → List (Observation Q) → List (Observation Q)
  earlier_tail latest [] = []
  earlier_tail latest (o ∷ os) =
      let rest = earlier_tail (if nonempty o.quality then o.quality else latest) os in
      if not (o.best == best_answer_id)
      then []
      else if nonempty o.quality && (nonempty latest && n.exceeds latest o.quality)
      then []
      else o ∷ rest

  unfoldable pub stagnant_tail : List (Observation Q) → List (Observation Q)
  stagnant_tail [] = []
  stagnant_tail (o ∷ os) =
      let rest = earlier_tail o.quality os in
      if not (o.best == best_answer_id) then [] else o ∷ rest

unfoldable pub applied : {Q : Type 0} → List (Observation Q) → List String
applied [] = []
applied (o ∷ os) = o.actions ++ applied os

unfoldable pub subset : List String → List String → Bool
subset [] ys = true
subset (x ∷ xs) ys = contains ys x && subset xs ys

-- The interventions that must have been tried: none is empty, and "continue" is not one.
unfoldable pub required_of : List String → List String
required_of [] = []
required_of (a ∷ rest) =
    let others = required_of rest in if (a == "") || (a == "continue") then others else a ∷ others

unfoldable pub exhausted :
    {Q : Type 0} (limit : ℕ) (wanted : List String) → List (Observation Q) → Bool
exhausted limit wanted tail =
    if eqb limit 0
    then false
    else if ltb (length tail) limit
    then false
    else nonempty wanted && subset wanted (applied tail)

module _ (py : Python) where
  texts : Items → List String
  texts nil = []
  texts (cons v vs) = str py v ∷ texts vs

  configured : Option Value → List String → List String
  unfolding texts
  configured (some (array vs)) actions = texts vs
  configured _ actions = actions

  -- int(policy.metadata.get("adaptive_stagnation_patience")), zero where it raises or is negative
  patience_of : Option Value → ℕ
  patience_of none = 0
  patience_of (some v) = elim (to_int py v) [ ok k ↦ k | err e ↦ 0 ]

  unfoldable pub patience : Policy → ℕ
  unfolding patience_of
  patience policy = patience_of (get_field policy.metadata "adaptive_stagnation_patience")

  unfoldable pub required : Policy → List String
  unfolding configured
  required policy =
      required_of (
        configured (get_field policy.metadata "stagnation_interventions") policy.stagnation_actions)

module _ {Q : Type 0} (py : Python) (n : Floats Q) where
  -- The observations, the current one first, then those of the history, the latest first.
  unfoldable pub recent :
      (best_answer_id : String)
      → List Value
      → Diagnosis
      → (current_quality : List Q) → List (Observation Q)
  recent best history diagnosis quality =
      record { best = best; quality = quality; actions = diagnosis.recommended_actions }
      ∷ observations py n history []

  unfoldable pub adaptive_stagnation_exhausted :
      (adaptive : Bool)
      → (best_answer_id : String) → (history : List Value) → Diagnosis
      → Option Policy
      → (current_quality : List Q) → Bool
  adaptive_stagnation_exhausted adaptive best history diagnosis none quality = false
  adaptive_stagnation_exhausted adaptive best history diagnosis (some policy) quality =
      if not adaptive || (best == "")
      then false
      else exhausted (patience py policy) (required py policy)
          (stagnant_tail n best (recent best history diagnosis quality))
