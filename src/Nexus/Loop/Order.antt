-- ===== src/Nexus/Loop/Order.antt =====
-- The order of a history in nexus/loop/controller.py, and how a round extends it.
use cognitive_evolve.Prelude.{
  ℕ, ◌+◌, ◌-◌, ◌≡◌, refl, String, Bool, true, false, not, ◌&&◌, ◌||◌, Option, none, some, List, [],
  ◌∷◌, ltb, leb, eqb, if◌then◌else◌, arith,
}
use cognitive_evolve.Nexus.Loop.{
  Phase, explore, exit_sweep, Entry, EvolutionBudget, Evaluation, Stages, round_limit, goes_on,
  next_phase, same_phase, unconsumed_stagnation_receipt_refs, search_phase_boundary, set_last,
}

-- Is the phase that of an exit sweep?
unfoldable pub is_sweep : Option Phase → Bool
is_sweep none = false
is_sweep (some explore) = false
is_sweep (some exit_sweep) = true

unfoldable pub is_evaluated : Option Phase → Bool
is_evaluated none = false
is_evaluated (some p) = true

-- Is the entry in order after the latest of the others: its round is not before that one's, and
-- after it for an evaluated round, and the two are not both exit sweeps?
unfoldable pub follows : Entry → List Entry → Bool
unfolding is_sweep is_evaluated
follows e [] = true
follows e (f ∷ es) =
    leb f.round e.round
    && ((ltb f.round e.round || not (is_evaluated e.phase_evaluated))
        && not (is_sweep e.phase_evaluated && is_sweep f.phase_evaluated))

-- Each entry follows the earlier ones.
unfoldable pub is_ordered : List Entry → Bool
is_ordered [] = true
is_ordered (e ∷ es) = follows e es && is_ordered es

-- The latest entry is of the current round or before, and the phase after an exit sweep is not one.
unfoldable pub is_current : ℕ → Phase → List Entry → Bool
unfolding is_sweep
is_current round p [] = true
is_current round p (e ∷ es) =
    leb e.round round && not (is_sweep e.phase_evaluated && is_sweep (some p))

pub and_true : {a b : Bool} → a ≡ true → b ≡ true → (a && b) ≡ true
and_true h k = rw (h, k) refl

pub below : (m n : ℕ) → leb m n ≡ false → ltb n m ≡ true
below m n h = ground arith

-- One more entry, of a later round.
pub entry_lem :
    (round : ℕ) (p : Phase) (e : Entry) (es : List Entry)
    → is_current round p es ≡ true
    → e.round ≡ round + 1
    → e.phase_evaluated ≡ some p
    → follows e es ≡ true
unfolding follows is_current
entry_lem round p e [] k r q = refl
entry_lem round p e (f ∷ es) k r q = rw (r, q) (ground arith)

-- One more entry, of an interruption.
pub interruption_lem :
    (round : ℕ) (p : Phase) (e : Entry) (es : List Entry)
    → is_current round p es ≡ true
    → e.round ≡ round
    → e.phase_evaluated ≡ none
    → follows e es ≡ true
unfolding follows is_current
interruption_lem round p e [] k r q = refl
interruption_lem round p e (f ∷ es) k r q = rw (r, q) (ground arith)

pub later_lem :
    (p : Phase) (round : ℕ) (es : List Entry)
    → is_current round p es ≡ true
    → is_current (round + 1) p es ≡ true
unfolding is_current
later_lem p round [] k = refl
later_lem p round (f ∷ es) k = ground arith

pub set_last-is_ordered :
    (reason : String) (es : List Entry) → is_ordered (set_last reason es) ≡ is_ordered es
unfolding is_ordered set_last follows
set_last-is_ordered reason [] = refl
set_last-is_ordered reason (e ∷ []) = refl
set_last-is_ordered reason (e ∷ f ∷ es) = refl

boundary : Bool → Phase → List String → Phase → Phase × Option (List String)
boundary b p refs q = if b then (p, some refs) else (q, none)

sweep_ends :
    (p : Phase) (refs : List String) (tail : Bool)
    → (is_sweep (some p)
        && is_sweep (
            some
              (boundary
                (not (same_phase (next_phase p refs tail) p))
                (next_phase p refs tail)
                refs
                p).0))
      ≡ false
unfolding is_sweep same_phase next_phase boundary
sweep_ends explore refs tail = refl
sweep_ends exit_sweep refs tail = refl

-- A round that goes on leaves an exit sweep.
pub boundary_lem :
    (st : Stages) (round : ℕ) (v : Evaluation) (b : EvolutionBudget)
    → goes_on round v b ≡ true
    → (is_sweep (some b.search_phase) && is_sweep (some (search_phase_boundary st round v b).0))
      ≡ false
unfolding search_phase_boundary boundary
boundary_lem st round v b h = rw h (
    sweep_ends b.search_phase (unconsumed_stagnation_receipt_refs b.history)
      (eqb (round_limit b - round) 1 || st.cost_budget_tail round))
