-- ===== src/Candidates/Fate/Moves.antt =====
-- VALID_TRANSITIONS of candidates/fate_machine.py, as the moves between two fates.
use cognitive_evolve.Prelude.{◌≡◌, refl, subst, true, ◌||◌, inl, inr, arith, Bool-cases}
use cognitive_evolve.Candidates.Fate.{
  CandidateFate, active, elite, incubating, dormant, auxiliary, culled, failed, is_valid, same_fate,
}

-- One move between two fates: to the same fate, out of Active to any, back to Active from a fate that
-- is neither Culled nor Failed, and the few moves between the others.
pub data Move : CandidateFate → CandidateFate → Type 0 where
  stay : {s : CandidateFate} → Move s s
  leave : {t : CandidateFate} → Move active t
  demote : Move elite active
  mature : Move incubating active
  wake : Move dormant active
  promote : Move auxiliary active
  cull_elite : Move elite culled
  cull_incubating : Move incubating culled
  cull_dormant : Move dormant culled
  cull_auxiliary : Move auxiliary culled
  shelve : Move incubating dormant
  abandon : Move incubating failed
  revive : Move failed dormant

-- Nothing leaves Culled in one move.
pub culled_stays : (t : CandidateFate) → Move culled t → t ≡ culled
culled_stays t stay = refl

valid_moves : (a b : CandidateFate) → is_valid a b ≡ true → Move a b
unfolding is_valid
valid_moves active t h = leave
valid_moves elite active h = demote
valid_moves elite culled h = cull_elite
valid_moves incubating active h = mature
valid_moves incubating dormant h = shelve
valid_moves incubating culled h = cull_incubating
valid_moves incubating failed h = abandon
valid_moves dormant active h = wake
valid_moves dormant culled h = cull_dormant
valid_moves auxiliary active h = promote
valid_moves auxiliary culled h = cull_auxiliary
valid_moves failed dormant h = revive
valid_moves s t h = cc

same_fate-eq : (a b : CandidateFate) → same_fate a b ≡ true → a ≡ b
unfolding same_fate
same_fate-eq a b h = ground arith

pub accepted_moves : (a b : CandidateFate) → (same_fate a b || is_valid a b) ≡ true → Move a b
accepted_moves a b h = elim (Bool-cases (same_fate a b)) [
  | inl e ↦ subst (Move a) (same_fate-eq a b e) stay
  | inr e ↦ valid_moves a b (ground arith)
]

from_active : (t : CandidateFate) → (same_fate active t || is_valid active t) ≡ true
unfolding same_fate is_valid
from_active active = refl
from_active elite = refl
from_active incubating = refl
from_active dormant = refl
from_active auxiliary = refl
from_active culled = refl
from_active failed = refl

same_fate_refl : (s : CandidateFate) → same_fate s s ≡ true
unfolding same_fate
same_fate_refl active = refl
same_fate_refl elite = refl
same_fate_refl incubating = refl
same_fate_refl dormant = refl
same_fate_refl auxiliary = refl
same_fate_refl culled = refl
same_fate_refl failed = refl

pub moves_accepted : (a b : CandidateFate) → Move a b → (same_fate a b || is_valid a b) ≡ true
unfolding same_fate is_valid
moves_accepted a b stay = rw (same_fate_refl a) refl
moves_accepted a b leave = from_active b
moves_accepted a b demote = refl
moves_accepted a b mature = refl
moves_accepted a b wake = refl
moves_accepted a b promote = refl
moves_accepted a b cull_elite = refl
moves_accepted a b cull_incubating = refl
moves_accepted a b cull_dormant = refl
moves_accepted a b cull_auxiliary = refl
moves_accepted a b shelve = refl
moves_accepted a b abandon = refl
moves_accepted a b revive = refl
