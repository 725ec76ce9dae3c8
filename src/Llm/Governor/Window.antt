-- ===== src/Llm/Governor/Window.antt =====
-- At most `rpm` requests are admitted within a minute by llm/governor.py.
use cognitive_evolve.Prelude.{
  ℕ, ◌≤◌, ◌<◌, max, ◌≡◌, refl, sym, ap, ◌∙◌, subst, Bool, true, false, not, Option, none, some,
  List, [], ◌∷◌, ◌++◌, length, length-append, keep, All, All-map, arith, if◌then◌else◌, Bool-cases,
  Option-cases, inl, inr,
}
use mathlib.Core.List.{append-nil, append_assoc}
use cognitive_evolve.Llm.Governor.{
  Governor, Limits, new_governor, is_old, prune_requests, prune, request_wait, token_wait, shortest,
  admit, attempt, is_admitted, turns, wait_or_admit,
}

-- Admitted within the minute that ends at `now`.
unfoldable pub is_recent : ℕ → ℕ → Bool
is_recent now t = not (is_old now t)

-- The clock does not run backwards.
abbrev pub IsClock : ℕ → List (ℕ × ℕ) → Type 0
IsClock now [] = Unit
IsClock now ((t, n) ∷ rest) = (now ≤ t) × IsClock t rest

abbrev IsSorted : List ℕ → Type 0
IsSorted [] = Unit
IsSorted (t ∷ ts) = All (λ u. t ≤ u) ts × IsSorted ts

-- Of increasing times the recent ones are those that pruning leaves.
keep-All :
    (now : ℕ) (ts : List ℕ) → All (λ u. is_recent now u ≡ true) ts → keep (is_recent now) ts ≡ ts
keep-All now [] h = refl
keep-All now (t ∷ ts) h = rw (h.0, keep-All now ts h.1)

newer : (now t u : ℕ) → is_old now t ≡ false → t ≤ u → is_recent now u ≡ true
unfolding is_recent is_old
newer now t u h le = ground arith

prune-keep : (now : ℕ) (ts : List ℕ) → IsSorted ts → prune_requests now ts ≡ keep (is_recent now) ts
unfolding prune_requests is_recent
prune-keep now [] h = refl
prune-keep now (t ∷ ts) h = elim (Bool-cases (is_old now t)) [
  | inl e ↦ rw e (prune-keep now ts h.1)
  | inr e ↦ rw e (rw (keep-All now ts (All-map _ _ ts (λ u le. newer now t u e le) h.0)) refl)
]

keep-keep :
    (now later : ℕ) (ts : List ℕ)
    → now ≤ later
    → keep (is_recent later) (keep (is_recent now) ts) ≡ keep (is_recent later) ts
unfolding is_recent is_old
keep-keep now later [] h = refl
keep-keep now later (t ∷ ts) h = ground (arith, keep-keep now later ts h)

keep-append :
    (now : ℕ) (ts us : List ℕ)
    → keep (is_recent now) (ts ++ us) ≡ keep (is_recent now) ts ++ keep (is_recent now) us
keep-append now [] us = refl
keep-append now (t ∷ ts) us = ground (arith, keep-append now ts us)

All-keep : (P : ℕ → Type 0) (p : ℕ → Bool) (ts : List ℕ) → All P ts → All P (keep p ts)
All-keep P p [] h = tt
All-keep P p (t ∷ ts) h = elim (Bool-cases (p t)) [
  | inl e ↦ rw e (h.0, All-keep P p ts h.1)
  | inr e ↦ rw e (All-keep P p ts h.1)
]

IsSorted-keep : (p : ℕ → Bool) (ts : List ℕ) → IsSorted ts → IsSorted (keep p ts)
IsSorted-keep p [] h = tt
IsSorted-keep p (t ∷ ts) h = elim (Bool-cases (p t)) [
  | inl e ↦ rw e (All-keep _ p ts h.0, IsSorted-keep p ts h.1)
  | inr e ↦ rw e (IsSorted-keep p ts h.1)
]

All-append_one : (P : ℕ → Type 0) (ts : List ℕ) (u : ℕ) → All P ts → P u → All P (ts ++ (u ∷ []))
All-append_one P [] u h p = (p, tt)
All-append_one P (t ∷ ts) u h p = (h.0, All-append_one P ts u h.1 p)

IsSorted-append_one :
    (ts : List ℕ) (u : ℕ) → IsSorted ts → All (λ t. t ≤ u) ts → IsSorted (ts ++ (u ∷ []))
IsSorted-append_one [] u h p = (tt, tt)
IsSorted-append_one (t ∷ ts) u h p =
    (All-append_one (λ v. t ≤ v) ts u h.0 p.0, IsSorted-append_one ts u h.1 p.1)

length-prune : (now : ℕ) (ts : List ℕ) → length (prune_requests now ts) ≤ length ts
unfolding prune_requests
length-prune now [] = omega arith
length-prune now (t ∷ ts) = ground (arith, length-prune now ts)

-- The governor holds the recent ones of all admissions so far, in order, and at most rpm of them.
record Tracks (l : Limits) (now : ℕ) (past : List ℕ) (g : Governor) : Type 0 where
  sorted : IsSorted past
  before : All (λ t. t ≤ now) past
  window : g.request_times ≡ keep (is_recent now) past
  bound : length g.request_times ≤ l.rpm

module _ (l : Limits) (now later : ℕ) (past : List ℕ) (g : Governor) (h : Tracks l now past g)
    (le : now ≤ later) where
  prune-Tracks : Tracks l later past (prune later g)
  unfolding prune
  prune-Tracks =
      let held : IsSorted g.request_times =
        subst IsSorted (sym h.window) (IsSorted-keep (is_recent now) past h.sorted) in
      let window : prune_requests later g.request_times ≡ keep (is_recent later) past =
        prune-keep later g.request_times held
        ∙ ap (keep (is_recent later)) h.window
        ∙ keep-keep now later past le in
      record {
        sorted = h.sorted;
        before = All-map _ _ past (λ t p. omega (arith, p, le)) h.before;
        window = window;
        bound = omega (arith, h.bound, length-prune later g.request_times);
      }

free_slot :
    (l : Limits) (now : ℕ) (ts : List ℕ) (b : Option ℕ)
    → 0 < l.rpm
    → shortest (request_wait l now ts) b ≡ none
    → length ts < l.rpm
unfolding request_wait shortest
free_slot l now [] b p h = p
free_slot l now (t ∷ ts) b p h = ground arith

recent_now : (now : ℕ) → is_recent now now ≡ true
unfolding is_recent is_old
recent_now now = ground arith

admit-Tracks :
    (l : Limits) (now tokens : ℕ) (past : List ℕ) (g : Governor)
    → Tracks l now past g
    → length g.request_times < l.rpm
    → Tracks l now (past ++ (now ∷ [])) (admit l now tokens g)
unfolding admit
admit-Tracks l now tokens past g h free = record {
  sorted = IsSorted-append_one past now h.sorted h.before;
  before = All-append_one (λ t. t ≤ now) past now h.before (omega arith);
  window = rw (h.window, keep-append now past (now ∷ []), recent_now now) refl;
  bound = omega (arith, length-append g.request_times (now ∷ []), free);
}

-- The admissions so far, after a turn at a time.
after_turn : Option ℕ → ℕ → List ℕ → List ℕ
after_turn wait now past = if is_admitted wait then past ++ (now ∷ []) else past

attempt-Tracks :
    (l : Limits) (now later tokens : ℕ) (past : List ℕ) (g : Governor)
    → 0 < l.rpm
    → Tracks l now past g
    → now ≤ later
    → Tracks l later
        (after_turn (attempt l later tokens g).0 later past)
        (attempt l later tokens g).1
unfolding attempt after_turn wait_or_admit is_admitted
attempt-Tracks l now later tokens past g p h le =
    let pruned = prune-Tracks l now later past g h le in
    let wait =
      shortest (request_wait l later (prune later g).request_times)
        (token_wait l later (max 1 tokens) (prune later g).token_events) in
    elim (Option-cases wait) [
      | inl e ↦ rw e (
          admit-Tracks l later (max 1 tokens) past (prune later g) pruned
            (free_slot l later _ _ p e))
      | inr (n, e) ↦ rw e pruned
    ]

after_turn-append :
    (wait : Option ℕ) (now : ℕ) (past more : List ℕ)
    → after_turn wait now past ++ more ≡ past ++ (if is_admitted wait then now ∷ more else more)
unfolding after_turn is_admitted
after_turn-append none now past more = append_assoc past (now ∷ []) more
after_turn-append (some n) now past more = refl

-- The time of the last turn.
unfoldable pub end_time : ℕ → List (ℕ × ℕ) → ℕ
end_time now [] = now
end_time now ((t, n) ∷ rest) = end_time t rest

turns-Tracks :
    (l : Limits) (now : ℕ) (ts : List (ℕ × ℕ)) (past : List ℕ) (g : Governor)
    → 0 < l.rpm
    → IsClock now ts
    → Tracks l now past g
    → Tracks l (end_time now ts) (past ++ (turns l ts g).0) (turns l ts g).1
unfolding turns end_time
turns-Tracks l now [] past g p c h = rw (append-nil past) h
turns-Tracks l now ((t, tokens) ∷ rest) past g p c h =
    let step = attempt-Tracks l now t tokens past g p h c.0 in
    let later = turns-Tracks l t rest _ (attempt l t tokens g).1 p c.1 step in
    subst
      (λ admitted. Tracks l (end_time t rest) admitted (turns l rest (attempt l t tokens g).1).1)
      (after_turn-append (attempt l t tokens g).0 t past (turns l rest (attempt l t tokens g).1).0)
      later

-- In the minute that ends at the last turn at most rpm requests were admitted, if there is a limit
-- and the clock does not run backwards. The same holds of every earlier turn, since the turns up to
-- that one are such a list too.
pub admitted_in_minute :
    (l : Limits) (ts : List (ℕ × ℕ))
    → 0 < l.rpm
    → IsClock 0 ts
    → length (keep (is_recent (end_time 0 ts)) (turns l ts new_governor).0) ≤ l.rpm
admitted_in_minute l ts p c =
    let start : Tracks l 0 [] new_governor = record {
      sorted = tt;
      before = tt;
      window = refl;
      bound = omega arith;
    } in
    let last = turns-Tracks l 0 ts [] new_governor p c start in
    omega (arith, last.bound, ap length last.window)
