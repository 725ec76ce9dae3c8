-- ===== src/Nexus/Stop/Stagnation.antt =====
-- What nexus/loop/adaptive_stop.py requires before it stops a run.
use cognitive_evolve.Prelude.{
  ℕ, zero, suc, ◌≤◌, ◌≡◌, refl, String, Bool, true, false, not, ◌&&◌, ◌||◌, some, List, [], ◌∷◌,
  ◌++◌, length, take, All, contains, ◌==◌, if◌then◌else◌, arith,
}
use cognitive_evolve.Json.{Python, Value}
use cognitive_evolve.Nexus.Stop.Adaptive.{
  Floats, Diagnosis, Policy, Observation, nonempty, earlier_tail, stagnant_tail, applied, subset,
  exhausted, recent, patience, required, adaptive_stagnation_exhausted,
}

-- A list that is empty unless the first test holds and the second fails.
taken :
    {A : Type 0} (a b : Bool) (k : ℕ) (x : A) (xs : List A)
    → suc k ≤ length (if not a then [] else if b then [] else x ∷ xs)
    → (a ≡ true) × (k ≤ length xs)
taken true true k x xs h = absurd (omega arith)
taken true false k x xs h = (refl, omega arith)
taken false b k x xs h = absurd (omega arith)

and_true : (a b : Bool) → (a && b) ≡ true → (a ≡ true) × (b ≡ true)
and_true true b h = (refl, h)
and_true false b h = cc

guarded : (a : Bool) {b : Bool} → (if a then false else b) ≡ true → (a ≡ false) × (b ≡ true)
guarded true h = cc
guarded false h = (refl, h)

module _ {Q : Type 0} (n : Floats Q) (best : String) where
  IsBest : Observation Q → Type 0
  IsBest o = (o.best == best) ≡ true

  -- The tail stands at the start of the observations, and all of it has the best answer.
  earlier_tail_lem :
      (k : ℕ) (latest : List Q) (os : List (Observation Q))
      → k ≤ length (earlier_tail n best latest os)
      → (k ≤ length os) × All IsBest (take k os)
  unfolding earlier_tail IsBest
  earlier_tail_lem zero latest os h = (omega arith, tt)
  earlier_tail_lem (suc k) latest [] h = absurd (omega arith)
  earlier_tail_lem (suc k) latest (o ∷ os) h =
      let next = if nonempty o.quality then o.quality else latest in
      let now =
        taken (o.best == best)
          (nonempty o.quality && (nonempty latest && n.exceeds latest o.quality)) k o
          (earlier_tail n best next os) h in
      let later = earlier_tail_lem k next os now.1 in (omega (arith, later.0), (now.0, later.1))

  stagnant_tail_lem :
      (k : ℕ) (os : List (Observation Q))
      → k ≤ length (stagnant_tail n best os)
      → (k ≤ length os) × All IsBest (take k os)
  unfolding stagnant_tail IsBest
  stagnant_tail_lem zero os h = (omega arith, tt)
  stagnant_tail_lem (suc k) [] h = absurd (omega arith)
  stagnant_tail_lem (suc k) (o ∷ os) h =
      let now = taken (o.best == best) false k o (earlier_tail n best o.quality os) h in
      let later = earlier_tail_lem k o.quality os now.1 in
      (omega (arith, later.0), (now.0, later.1))

  contains-append :
      (xs ys : List String) (a : String) → contains (xs ++ ys) a ≡ (contains xs a || contains ys a)
  contains-append [] ys a = refl
  contains-append (x ∷ xs) ys a = ground (arith, contains-append xs ys a)

  applied_in :
      (a b : Bool) (o : Observation Q) (tail os : List (Observation Q)) (x : String)
      → (contains (applied tail) x ≡ true → contains (applied os) x ≡ true)
      → contains (applied (if not a then [] else if b then [] else o ∷ tail)) x ≡ true
      → contains (applied (o ∷ os)) x ≡ true
  unfolding applied
  applied_in true true o tail os x f h = cc
  applied_in true false o tail os x f h = ground (
    arith,
    contains-append o.actions (applied tail) x,
    contains-append o.actions (applied os) x,
    f,
  )
  applied_in false b o tail os x f h = cc

  -- What the tail applied, the observations applied.
  earlier_tail-applied :
      (latest : List Q) (os : List (Observation Q)) (a : String)
      → contains (applied (earlier_tail n best latest os)) a ≡ true
      → contains (applied os) a ≡ true
  unfolding earlier_tail applied
  earlier_tail-applied latest [] a h = h
  earlier_tail-applied latest (o ∷ os) a h =
      let next = if nonempty o.quality then o.quality else latest in
      applied_in (o.best == best)
        (nonempty o.quality && (nonempty latest && n.exceeds latest o.quality)) o
        (earlier_tail n best next os) os a (earlier_tail-applied next os a) h

  stagnant_tail-applied :
      (os : List (Observation Q)) (a : String)
      → contains (applied (stagnant_tail n best os)) a ≡ true
      → contains (applied os) a ≡ true
  unfolding stagnant_tail applied
  stagnant_tail-applied [] a h = h
  stagnant_tail-applied (o ∷ os) a h =
      applied_in (o.best == best) false o (earlier_tail n best o.quality os) os a
        (earlier_tail-applied o.quality os a) h

exhausted_lem :
    {Q : Type 0} (limit : ℕ) (wanted : List String) (tail : List (Observation Q))
    → exhausted limit wanted tail ≡ true
    → (1 ≤ limit)
      × (limit ≤ length tail)
      × (nonempty wanted ≡ true)
      × (subset wanted (applied tail) ≡ true)
unfolding exhausted
exhausted_lem limit wanted tail h = ground arith

subset_lem :
    (xs ys zs : List String)
    → ((x : String) → contains ys x ≡ true → contains zs x ≡ true)
    → subset xs ys ≡ true
    → All (λ x. contains zs x ≡ true) xs
unfolding subset
subset_lem [] ys zs f h = tt
subset_lem (x ∷ xs) ys zs f h =
    let k = and_true (contains ys x) (subset xs ys) h in (f x k.0, subset_lem xs ys zs f k.1)

module _ {Q : Type 0} (py : Python) (n : Floats Q) where
  -- A run that stops for adaptive stagnation has a best answer, and for at least one observation,
  -- and as many as the policy's patience, counted back from the current one, the history has
  -- that best answer; some intervention is required, and each required one was recommended in the
  -- observations.
  pub adaptive_stagnation_exhausted_lem :
      (adaptive : Bool) (best : String) (history : List Value) (d : Diagnosis) (p : Policy)
      (quality : List Q)
      → adaptive_stagnation_exhausted py n adaptive best history d (some p) quality ≡ true
      → ((best == "") ≡ false)
        × (1 ≤ patience py p)
        × (patience py p ≤ length (recent py n best history d quality))
        × All
            (λ o. (o.best == best) ≡ true)
            (take (patience py p) (recent py n best history d quality))
        × (nonempty (required py p) ≡ true)
        × All
            (λ a. contains (applied (recent py n best history d quality)) a ≡ true)
            (required py p)
  unfolding adaptive_stagnation_exhausted IsBest
  adaptive_stagnation_exhausted_lem false best history d p quality h = cc
  adaptive_stagnation_exhausted_lem true best history d p quality h =
      let os = recent py n best history d quality in
      let g = guarded (best == "") h in
      let e = exhausted_lem (patience py p) (required py p) (stagnant_tail n best os) g.1 in
      let t = stagnant_tail_lem n best (patience py p) os e.1 in
      (
        g.0,
        e.0,
        t.0,
        t.1,
        e.2,
        subset_lem (required py p) (applied (stagnant_tail n best os)) (applied os)
            (stagnant_tail-applied n best os) e.3,
      )
