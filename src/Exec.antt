-- ===== src/Exec.antt =====
-- Methods that change state and may raise: an action returns its result and the state it leaves,
-- also when it raises.
pub mod Ensures
use cognitive_evolve.Json.{Result, Error, ok, err}

abbrev pub Exec : Type 0 → Type 0 → Type 0
Exec S A = S → Result A × S

abbrev pub pure : {S A : Type 0} → A → Exec S A
pure a s = (ok a, s)

abbrev pub raise : {S A : Type 0} → Error → Exec S A
raise e s = (err e, s)

abbrev pub lift : {S A : Type 0} → Result A → Exec S A
lift r s = (r, s)

abbrev pub and_then : {S A B : Type 0} → Result A × S → (A → Exec S B) → Result B × S
and_then (ok a, s) f = f a s
and_then (err e, s) f = (err e, s)

infixl 5 ◌>>=◌ ◌>>◌
abbrev pub ◌>>=◌ : {S A B : Type 0} → Exec S A → (A → Exec S B) → Exec S B
◌>>=◌ m f s = and_then (m s) f

abbrev pub ◌>>◌ : {S A B : Type 0} → Exec S A → Exec S B → Exec S B
m >> k = m >>= λ _. k
