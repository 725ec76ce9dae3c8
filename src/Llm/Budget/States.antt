-- ===== src/Llm/Budget/States.antt =====
-- The two states of the lock of llm/budget.py: free, or held by an unpriced call.
use cognitive_evolve.Prelude.{
  ℕ, ◌+◌, ◌≤◌, ◌<◌, ◌≡◌, refl, sym, ap, ◌∙◌, subst, ◌⊎◌, inl, inr, true, false, some, List, [], ◌∷◌,
  sum, All, leb, if◌then◌else◌, arith, Bool-cases,
}
use cognitive_evolve.Llm.Budget.{
  CallEvent, Session, record_event, costs, largest, release, Call, call_at, mark_at, without,
}
use cognitive_evolve.Llm.Budget.Sums.{
  reserved, unrecorded, costs-append, largest-append, positive_at, All-mark_at, All-without, alone,
  nobody,
}

unfoldable pub completed : Session → ℕ
completed s = sum (costs s.events)

-- The lock is free, and every call has a reservation, so some call was priced if there is one.
unfoldable pub IsIdle : Session → List Call → Type 0
IsIdle s calls =
    (s.budget_call_lock ≡ false)
    × All (λ c. 0 < c.reservation) calls
    × (largest (costs s.events) ≡ 0 → calls ≡ [])

-- The lock is held by the one call there is, and no call was priced before it.
unfoldable pub IsUnpriced : Session → List Call → Type 0
IsUnpriced s calls =
    (s.budget_call_lock ≡ true)
    × ((c : Call) × (calls ≡ c ∷ [])
        × (c.reservation ≡ 0)
        × (c.is_recorded ≡ false → completed s ≡ 0))

unfoldable pub IsKept : (limit : ℕ) → Session → List Call → Type 0
IsKept limit s calls =
    (IsIdle s calls ⊎ IsUnpriced s calls)
    × (s.budget_reservation ≡ reserved calls)
    × (completed s + unrecorded calls ≤ limit)

pub IsIdle-record_event :
    (i : ℕ) (e : CallEvent) (c : Call) (s : Session) (calls : List Call)
    → call_at i calls ≡ some c
    → IsIdle s calls
    → IsIdle (record_event e s) (mark_at i calls)
unfolding IsIdle record_event
IsIdle-record_event i e c s calls q idle = (
  idle.0,
  All-mark_at i calls idle.1,
  λ h.
      nobody i c calls (mark_at i calls)
        (idle.2 (
          omega (
            arith,
            largest-append (costs s.events) (costs (e ∷ [])),
            ap largest (sym (costs-append s.events (e ∷ []))) ∙ h,
          )))
        q,
)

pub IsIdle-release :
    (i : ℕ) (c : Call) (s : Session) (calls : List Call)
    → call_at i calls ≡ some c
    → IsIdle s calls
    → IsIdle (release c.reservation s) (without i calls)
unfolding IsIdle release
IsIdle-release i c s calls q idle = (
  elim (Bool-cases (leb c.reservation 0)) [ inl e ↦ rw e refl | inr e ↦ rw e idle.0 ],
  All-without i calls idle.1,
  λ h. nobody i c calls (without i calls) (idle.2 h) q,
)

pub IsUnpriced-record_event :
    (i : ℕ) (e : CallEvent) (c d : Call) (s : Session)
    → call_at i (d ∷ []) ≡ some c
    → s.budget_call_lock ≡ true
    → d.reservation ≡ 0
    → IsUnpriced (record_event e s) (mark_at i (d ∷ []))
unfolding IsUnpriced record_event
IsUnpriced-record_event i e c d s q held z =
    (held, (record d { is_recorded = true }, (alone i d c q).1, z, λ h. cc))

pub IsUnpriced-release :
    (i : ℕ) (c d : Call) (s : Session)
    → call_at i (d ∷ []) ≡ some c
    → d.reservation ≡ 0
    → IsIdle (release c.reservation s) (without i (d ∷ []))
unfolding IsIdle release
IsUnpriced-release i c d s q z =
    let a = alone i d c q in rw (a.2, ap (λ x. x.reservation) (sym a.0) ∙ z) (refl, tt, λ h. refl)

pub IsUnpriced-mark_at :
    (i : ℕ) (e : CallEvent) (c : Call) (s : Session) (calls : List Call)
    → call_at i calls ≡ some c
    → IsUnpriced s calls
    → IsUnpriced (record_event e s) (mark_at i calls)
unfolding IsUnpriced
IsUnpriced-mark_at i e c s calls q u =
    subst (λ cs. IsUnpriced (record_event e s) (mark_at i cs)) (sym u.1.1)
      (IsUnpriced-record_event i e c u.1.0 s (subst (λ cs. call_at i cs ≡ some c) u.1.1 q) u.0
        u.1.2)

pub IsUnpriced-without :
    (i : ℕ) (c : Call) (s : Session) (calls : List Call)
    → call_at i calls ≡ some c
    → IsUnpriced s calls
    → IsIdle (release c.reservation s) (without i calls)
unfolding IsUnpriced
IsUnpriced-without i c s calls q u =
    subst (λ cs. IsIdle (release c.reservation s) (without i cs)) (sym u.1.1)
      (IsUnpriced-release i c u.1.0 s (subst (λ cs. call_at i cs ≡ some c) u.1.1 q) u.1.2)

pub unpriced_facts :
    (i : ℕ) (c : Call) (s : Session) (calls : List Call)
    → call_at i calls ≡ some c
    → IsUnpriced s calls
    → (c.reservation ≡ 0) × (reserved calls ≡ 0) × (c.is_recorded ≡ false → completed s ≡ 0)
unfolding IsUnpriced reserved
unpriced_facts i c s calls q u =
    let a = alone i u.1.0 c (subst (λ cs. call_at i cs ≡ some c) u.1.1 q) in
    (
      subst (λ x. x.reservation ≡ 0) a.0 u.1.2,
      ap reserved u.1.1 ∙ omega (arith, u.1.2),
      λ t. u.1.3 (ap (λ x. x.is_recorded) a.0 ∙ t),
    )

pub unpriced_cost :
    (cost r bound : ℕ) → leb cost (if leb r 0 then bound else r) ≡ true → r ≡ 0 → cost ≤ bound
unpriced_cost cost r bound h z = ground arith

pub free-IsIdle :
    (s : Session) (cs : List Call)
    → s.budget_call_lock ≡ false
    → IsIdle s cs ⊎ IsUnpriced s cs
    → IsIdle s cs
unfolding IsUnpriced
free-IsIdle s cs e (inl i) = i
free-IsIdle s cs e (inr u) = let h = u.0 in cc

pub positive_idle :
    (i : ℕ) (s : Session) (cs : List Call) (c : Call)
    → IsIdle s cs
    → call_at i cs ≡ some c
    → 0 < c.reservation
unfolding IsIdle
positive_idle i s cs c h q = positive_at i cs c h.1 q
