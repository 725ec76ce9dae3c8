-- ===== src/Exec/Ensures.antt =====
-- Rules for actions: what holds after a return, and what holds after a raise.
use cognitive_evolve.Json.{Result, ok, err}
use cognitive_evolve.Exec.{Exec, and_then}

abbrev pub Post : {S A : Type 0} → (A → S → Type 0) → (S → Type 0) → Result A × S → Type 0
Post Q E (ok a, s) = Q a s
Post Q E (err e, s) = E s

-- The first action ends in `Q`, and from there the second ends in `R`.
pub and_then-Post :
    {S A B : Type 0} (Q : A → S → Type 0) (R : B → S → Type 0) (E : S → Type 0) (r : Result A × S)
    (f : A → Exec S B)
    → Post Q E r
    → ((a : A) (s : S) → Q a s → Post R E (f a s))
    → Post R E (and_then r f)
and_then-Post Q R E (ok a, s) f h k = k a s h
and_then-Post Q R E (err e, s) f h k = h

pub Post-weaken :
    {S A : Type 0} (Q R : A → S → Type 0) (E : S → Type 0) (r : Result A × S)
    → ((a : A) (s : S) → Q a s → R a s)
    → Post Q E r
    → Post R E r
Post-weaken Q R E (ok a, s) k h = k a s h
Post-weaken Q R E (err e, s) k h = h
