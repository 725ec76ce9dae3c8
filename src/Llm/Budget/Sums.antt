-- ===== src/Llm/Budget/Sums.antt =====
-- The sums over calls and costs of llm/budget.py, and the places in a list of calls.
use cognitive_evolve.Prelude.{
  ℕ, zero, suc, ◌+◌, ◌≤◌, ◌<◌, ◌≡◌, refl, ap, ◌∙◌, subst, Bool, true, false, ◌&&◌, Option, none,
  some, List, [], ◌∷◌, ◌++◌, sum, All, if◌then◌else◌, arith,
}
use cognitive_evolve.Llm.Budget.{CallEvent, costs, charge, largest, Call, call_at, mark_at, without}

-- The reservations of all calls, and of those with no event yet.
unfoldable pub reserved : List Call → ℕ
reserved [] = 0
reserved (c ∷ cs) = c.reservation + reserved cs

unfoldable pub unrecorded : List Call → ℕ
unrecorded [] = 0
unrecorded (c ∷ cs) = (if c.is_recorded then 0 else c.reservation) + unrecorded cs

pub unrecorded-reserved : (cs : List Call) → unrecorded cs ≤ reserved cs
unfolding unrecorded reserved
unrecorded-reserved [] = omega arith
unrecorded-reserved (c ∷ cs) = ground (arith, unrecorded-reserved cs)

pub and_true : (a b : Bool) → (a && b) ≡ true → (a ≡ true) × (b ≡ true)
and_true true b h = (refl, h)
and_true false b h = cc

pub call_or : Call → Option Call → Call
call_or d none = d
call_or d (some c) = c

pub same_call : (d c : Call) → some d ≡ some c → d ≡ c
unfolding call_or
same_call d c h = ap (call_or d) h

pub reserved-mark_at : (i : ℕ) (cs : List Call) → reserved (mark_at i cs) ≡ reserved cs
unfolding reserved mark_at
reserved-mark_at i [] = refl
reserved-mark_at zero (c ∷ cs) = refl
reserved-mark_at (suc i) (c ∷ cs) = ap (λ r. c.reservation + r) (reserved-mark_at i cs)

pub unrecorded-mark_at :
    (i : ℕ) (cs : List Call) (c : Call)
    → call_at i cs ≡ some c
    → c.is_recorded ≡ false
    → unrecorded cs ≡ c.reservation + unrecorded (mark_at i cs)
unfolding unrecorded mark_at call_at
unrecorded-mark_at i [] c h k = cc
unrecorded-mark_at zero (d ∷ cs) c h k =
    rw (ap (λ x. x.is_recorded) (same_call d c h) ∙ k)
      (omega (arith, ap (λ x. x.reservation) (same_call d c h)))
unrecorded-mark_at (suc i) (d ∷ cs) c h k = omega (arith, unrecorded-mark_at i cs c h k)

pub reserved-without :
    (i : ℕ) (cs : List Call) (c : Call)
    → call_at i cs ≡ some c
    → reserved cs ≡ c.reservation + reserved (without i cs)
unfolding reserved without call_at
reserved-without i [] c h = cc
reserved-without zero (d ∷ cs) c h = ap (λ x. x.reservation + reserved cs) (same_call d c h)
reserved-without (suc i) (d ∷ cs) c h = omega (arith, reserved-without i cs c h)

pub unrecorded-without : (i : ℕ) (cs : List Call) → unrecorded (without i cs) ≤ unrecorded cs
unfolding unrecorded without
unrecorded-without i [] = omega arith
unrecorded-without zero (c ∷ cs) = omega arith
unrecorded-without (suc i) (c ∷ cs) = omega (arith, unrecorded-without i cs)

pub charge_with :
    (r : Bool) (o : Option ℕ) (a b c : List ℕ) → a ≡ b ++ c → charge r o a ≡ charge r o b ++ c
unfolding charge
charge_with true o a b c h = h
charge_with false none a b c h = h
charge_with false (some x) a b c h = ap (λ r. x ∷ r) h

pub costs-append : (xs ys : List CallEvent) → costs (xs ++ ys) ≡ costs xs ++ costs ys
unfolding costs charge
costs-append [] ys = refl
costs-append (x ∷ xs) ys = charge_with x.cache_replayed x.estimated_cost _ _ _ (costs-append xs ys)

pub largest-append : (xs ys : List ℕ) → largest xs ≤ largest (xs ++ ys)
unfolding largest
largest-append [] ys = omega arith
largest-append (x ∷ xs) ys = omega (arith, largest-append xs ys)

pub sum-largest : (xs : List ℕ) → largest xs ≡ 0 → sum xs ≡ 0
unfolding largest
sum-largest [] h = refl
sum-largest (x ∷ xs) h = omega (arith, sum-largest xs (omega arith))

pub positive_at :
    (i : ℕ) (cs : List Call) (c : Call)
    → All (λ c. 0 < c.reservation) cs
    → call_at i cs ≡ some c
    → 0 < c.reservation
unfolding call_at
positive_at i [] c h q = cc
positive_at zero (d ∷ cs) c h q = subst (λ x. 0 < x.reservation) (same_call d c q) h.0
positive_at (suc i) (d ∷ cs) c h q = positive_at i cs c h.1 q

pub All-mark_at :
    (i : ℕ) (cs : List Call)
    → All (λ c. 0 < c.reservation) cs
    → All (λ c. 0 < c.reservation) (mark_at i cs)
unfolding mark_at
All-mark_at i [] h = tt
All-mark_at zero (c ∷ cs) h = h
All-mark_at (suc i) (c ∷ cs) h = (h.0, All-mark_at i cs h.1)

pub All-without :
    (i : ℕ) (cs : List Call)
    → All (λ c. 0 < c.reservation) cs
    → All (λ c. 0 < c.reservation) (without i cs)
unfolding without
All-without i [] h = tt
All-without zero (c ∷ cs) h = h.1
All-without (suc i) (c ∷ cs) h = (h.0, All-without i cs h.1)

pub alone :
    (i : ℕ) (d c : Call)
    → call_at i (d ∷ []) ≡ some c
    → (d ≡ c)
      × (mark_at i (d ∷ []) ≡ record d { is_recorded = true } ∷ [])
      × (without i (d ∷ []) ≡ [])
unfolding call_at mark_at without
alone zero d c q = (same_call d c q, refl, refl)
alone (suc i) d c q = (cc, cc, cc)

-- No call is in flight, so none is at a place.
pub nobody : (i : ℕ) (c : Call) (cs ds : List Call) → cs ≡ [] → call_at i cs ≡ some c → ds ≡ []
unfolding call_at
nobody i c [] ds e q = cc
nobody i c (d ∷ cs) ds e q = cc
