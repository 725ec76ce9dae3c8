-- ===== src/Llm/Budget/Reserved.antt =====
-- The cost budget of llm/budget.py holds whatever the order of concurrent calls.
use cognitive_evolve.Prelude.{
  ℕ, ◌+◌, ◌≤◌, ◌<◌, ◌≡◌, refl, sym, ap, ◌∙◌, inl, inr, Bool, true, false, ◌&&◌, ◌||◌, Option, none,
  some, List, [], ◌∷◌, sum, sum-append, ltb, leb, leb→lt, max, if◌then◌else◌, arith, Bool-cases,
}
use cognitive_evolve.Llm.Budget.{
  CallEvent, Session, record_event, costs, largest, reserve, release, Call, Flight, call_at,
  mark_at, without, Action, starts, records, ends, admitted, recorded, ended, act, acts, new_flight,
  within, is_expected, are_expected,
}
use cognitive_evolve.Llm.Budget.Sums.{
  reserved, unrecorded, unrecorded-reserved, and_true, reserved-mark_at, unrecorded-mark_at,
  reserved-without, unrecorded-without, costs-append, sum-largest,
}
use cognitive_evolve.Llm.Budget.States.{
  completed, IsIdle, IsUnpriced, IsKept, IsIdle-record_event, IsIdle-release, IsUnpriced-mark_at,
  IsUnpriced-without, unpriced_facts, unpriced_cost, free-IsIdle, positive_idle,
}

no_more : (n : ℕ) → leb n 0 ≡ true → n ≡ 0
no_more n h = ground arith

headroom :
    (budget done held next : ℕ)
    → (leb budget done || (ltb 0 next && ltb budget (done + held + next))) ≡ false
    → 0 < next
    → done + held + next ≤ budget
headroom budget done held next g h = ground arith

priced : (cost r bound : ℕ) → leb cost (if leb r 0 then bound else r) ≡ true → 0 < r → cost ≤ r
priced cost r bound h p = ground arith

module _ (budget bound : ℕ) where
  start_lem :
      (s : Session) (calls : List Call)
      → IsIdle s calls
      → s.budget_reservation ≡ reserved calls
      → completed s + unrecorded calls ≤ max budget bound
      → let f = admitted (reserve budget s) (record { session = s; calls = calls }) in
        IsKept (max budget bound) f.session f.calls
  unfolding admitted reserve IsKept IsIdle IsUnpriced reserved unrecorded completed
  start_lem s calls i r b =
      elim (Bool-cases (
        leb budget (sum (costs s.events))
        || (ltb 0 (largest (costs s.events))
            && ltb budget
                (sum (costs s.events) + s.budget_reservation + largest (costs s.events))))) [
                  | inl g ↦ rw g (inl i, r, b)
                  | inr g ↦ elim (Bool-cases (leb (largest (costs s.events)) 0)) [
                    | inl z ↦
                        rw (g, z)
                          (let none_yet = no_more (largest (costs s.events)) z in
                            let alone = i.2 none_yet in
                            (
                              inr (
                                refl,
                                (
                                  record {
                                    reservation = largest (costs s.events);
                                    is_recorded = false;
                                  },
                                  ap
                                      (λ cs.
                                        record {
                                          reservation = largest (costs s.events);
                                          is_recorded = false;
                                        }
                                        ∷ cs)
                                      alone,
                                  none_yet,
                                  λ _. sum-largest (costs s.events) none_yet,
                                ),
                              ),
                              omega arith,
                              omega arith,
                            ))
                    | inr z ↦
                        rw (g, z)
                          (let more = leb→lt (largest (costs s.events)) 0 z in
                            (
                              inl (refl, (more, i.1), λ h. absurd (omega arith)),
                              omega arith,
                              omega (
                                arith,
                                headroom budget (sum (costs s.events)) s.budget_reservation
                                    (largest (costs s.events)) g more,
                                unrecorded-reserved calls,
                              ),
                            ))
                  ]
                ]

  sum_recorded :
      (e : CallEvent) (s : Session)
      → completed (record_event e s) ≡ completed s + sum (costs (e ∷ []))
  unfolding completed record_event
  sum_recorded e s =
      rw (costs-append s.events (e ∷ [])) (sum-append (costs s.events) (costs (e ∷ [])))

  new_record :
      (i : ℕ) (e : CallEvent) (c : Call) (s : Session) (calls : List Call)
      → call_at i calls ≡ some c
      → c.is_recorded ≡ false
      → within bound e (some c) ≡ true
      → IsKept (max budget bound) s calls
      → IsKept (max budget bound) (record_event e s) (mark_at i calls)
  unfolding IsKept within IsUnpriced record_event
  new_record i e c s calls q t w (inl idle, r, b) = (
    inl (IsIdle-record_event i e c s calls q idle),
    r ∙ sym (reserved-mark_at i calls),
    omega (
      arith,
      sum_recorded e s,
      unrecorded-mark_at i calls c q t,
      priced _ _ _ w (positive_idle i s calls c idle q),
    ),
  )
  new_record i e c s calls q t w (inr u, r, b) =
      let z = unpriced_facts i c s calls q u in
      (
        inr (IsUnpriced-mark_at i e c s calls q u),
        r ∙ sym (reserved-mark_at i calls),
        omega (
          arith,
          sum_recorded e s,
          z.1,
          z.2 t,
          unrecorded-reserved (mark_at i calls),
          reserved-mark_at i calls,
          unpriced_cost _ _ bound w z.0,
        ),
      )

  new_end :
      (i : ℕ) (c : Call) (s : Session) (calls : List Call)
      → call_at i calls ≡ some c
      → IsKept (max budget bound) s calls
      → IsKept (max budget bound) (release c.reservation s) (without i calls)
  unfolding IsKept IsUnpriced release completed
  new_end i c s calls q (inl idle, r, b) = (
    inl (IsIdle-release i c s calls q idle),
    omega (arith, reserved-without i calls c q),
    omega (arith, unrecorded-without i calls),
  )
  new_end i c s calls q (inr u, r, b) = (
    inl (IsUnpriced-without i c s calls q u),
    omega (arith, reserved-without i calls c q),
    omega (arith, unrecorded-without i calls),
  )

  record_lem :
      (i : ℕ) (e : CallEvent) (o : Option Call) (s : Session) (calls : List Call)
      → call_at i calls ≡ o
      → within bound e o ≡ true
      → IsKept (max budget bound) s calls
      → let f = recorded i e o (record { session = s; calls = calls }) in
        IsKept (max budget bound) f.session f.calls
  unfolding recorded
  record_lem i e none s calls q w k = k
  record_lem i e (some c) s calls q w k = elim (Bool-cases c.is_recorded) [
    | inl t ↦ rw t k
    | inr t ↦ rw t (new_record i e c s calls q t w k)
  ]

  end_lem :
      (i : ℕ) (o : Option Call) (s : Session) (calls : List Call)
      → call_at i calls ≡ o
      → IsKept (max budget bound) s calls
      → let f = ended i o (record { session = s; calls = calls }) in
        IsKept (max budget bound) f.session f.calls
  unfolding ended
  end_lem i none s calls q k = k
  end_lem i (some c) s calls q k = new_end i c s calls q k

  free_lem :
      (s : Session) (calls : List Call)
      → s.budget_call_lock ≡ false
      → IsKept (max budget bound) s calls
      → let f = admitted (reserve budget s) (record { session = s; calls = calls }) in
        IsKept (max budget bound) f.session f.calls
  unfolding IsKept
  free_lem s calls e (c, r, b) = start_lem s calls (free-IsIdle s calls e c) r b

  either :
      (b : Bool) (f g : Flight)
      → IsKept (max budget bound) f.session f.calls
      → (b ≡ false → IsKept (max budget bound) g.session g.calls)
      → IsKept (max budget bound) (if b then f else g).session (if b then f else g).calls
  either true f g h k = h
  either false f g h k = k refl

  act_lem :
      (a : Action) (f : Flight)
      → is_expected bound a f ≡ true
      → IsKept (max budget bound) f.session f.calls
      → IsKept (max budget bound) (act budget a f).session (act budget a f).calls
  unfolding act is_expected
  act_lem starts f w k =
      either f.session.budget_call_lock f (admitted (reserve budget f.session) f) k
        (λ e. free_lem f.session f.calls e k)
  act_lem (records i e) f w k = record_lem i e (call_at i f.calls) f.session f.calls refl w k
  act_lem (ends i) f w k = end_lem i (call_at i f.calls) f.session f.calls refl k

  acts_lem :
      (them : List Action) (f : Flight)
      → are_expected budget bound them f ≡ true
      → IsKept (max budget bound) f.session f.calls
      → IsKept (max budget bound) (acts budget them f).session (acts budget them f).calls
  unfolding acts are_expected
  acts_lem [] f w k = k
  acts_lem (a ∷ later) f w k =
      let h = and_true _ _ w in acts_lem later (act budget a f) h.1 (act_lem a f h.0 k)

  new_lem : IsKept (max budget bound) new_flight.session new_flight.calls
  unfolding IsKept IsIdle reserved unrecorded completed costs
  new_lem = (inl (refl, tt, λ _. refl), refl, omega arith)

  acts_kept :
      (them : List Action) (f : Flight)
      → IsKept (max budget bound) f.session f.calls
      → (completed f.session ≤ max budget bound) × (f.session.budget_reservation ≡ reserved f.calls)
  unfolding IsKept
  acts_kept them f (c, r, b) = (omega (arith, b), r)

-- In every order in which concurrent calls start, record their events and end, from a new session on:
-- the recorded costs together are within the budget, or within the bound on the cost of a call that
-- is made while nothing is priced, if that is larger, and the session's reservation is the sum of
-- those of the calls in flight. It is assumed that each call records at most the reservation that
-- it has, or that bound where it has none.
pub acts-reserved :
    (budget bound : ℕ) (them : List Action)
    → are_expected budget bound them new_flight ≡ true
    → let f = acts budget them new_flight in
      (sum (costs f.session.events) ≤ max budget bound)
      × (f.session.budget_reservation ≡ reserved f.calls)
unfolding completed
acts-reserved budget bound them w =
    acts_kept budget bound them (acts budget them new_flight)
      (acts_lem budget bound them new_flight w (new_lem budget bound))
