-- ===== src/Tools/PatchPath.antt =====
-- The paths and texts of tools/patch_sandbox.py: what it uses of pathlib's relative POSIX paths
-- and of str, and the checks of a patch's paths.
use Prim.Native.Char.{code}
use Prim.Native.String.{[], ◌∷◌, ◌++◌, len}
use text.Mathlib.TextPositions.{len-append}
use text.Mathlib.Text.{starts_with}
use cognitive_evolve.Prelude.{
  ℕ, zero, suc, ◌-◌, String, ◌≡◌, refl, sym, ap, ◌∙◌, ◌+◌, eq_iff, arith, Bool, true, false, not,
  ◌||◌, ◌&&◌, List, keep, contains, eqb, ◌==◌, if◌then◌else◌,
}

-- raw.split("/"): the first piece and those after it.
split_slash : String → String × List String
split_slash [] = ("", List.[])
split_slash (c ∷ s) =
    let rest = split_slash s in
    if eqb (code c) b'/' then ("", List.◌∷◌ rest.0 rest.1) else (c ∷ rest.0, rest.1)

is_part : String → Bool
is_part piece = not ((piece == "") || (piece == "."))

-- Path(raw).parts of a relative path
unfoldable pub parts : String → List String
unfolding split_slash is_part
parts raw = let pieces = split_slash raw in keep is_part (List.◌∷◌ pieces.0 pieces.1)

-- Path(raw).is_absolute()
unfoldable pub is_absolute : String → Bool
is_absolute [] = false
is_absolute (c ∷ s) = eqb (code c) b'/'

-- The parts joined by slashes, below a directory whose name ends with one.
unfoldable pub join_parts : String → List String → String
join_parts base List.[] = base
join_parts base (List.◌∷◌ part List.[]) = base ++ part
join_parts base (List.◌∷◌ part (List.◌∷◌ next rest)) =
    join_parts (base ++ part ++ "/") (List.◌∷◌ next rest)

or_dot : String → String
or_dot s = if s == "" then "." else s

-- Path(raw).as_posix() of a relative path
unfoldable pub as_posix : String → String
unfolding or_dot
as_posix raw = or_dot (join_parts "" (parts raw))

-- The directories between the root and a path, the outermost first, without the root.
unfoldable pub ancestors_between : String → List String → List String
ancestors_between base List.[] = List.[]
ancestors_between base (List.◌∷◌ part List.[]) = List.[]
ancestors_between base (List.◌∷◌ part (List.◌∷◌ next rest)) =
    List.◌∷◌ (base ++ part) (ancestors_between (base ++ part ++ "/") (List.◌∷◌ next rest))

-- not raw_path or relative.is_absolute() or ".." in relative.parts
unfoldable pub unsafe_path : String → Bool
unsafe_path raw = (raw == "") || is_absolute raw || contains (parts raw) ".."

-- any(fnmatch.fnmatchcase(normalized, pattern) for pattern in allowed_patch_scope)
unfoldable pub any_match : (String → String → Bool) → String → List String → Bool
any_match fnmatchcase path List.[] = false
any_match fnmatchcase path (List.◌∷◌ pattern rest) =
    fnmatchcase path pattern || any_match fnmatchcase path rest

unfoldable pub is_empty : List String → Bool
is_empty List.[] = true
is_empty (List.◌∷◌ s ss) = false

-- `_patch_scope_error`; an empty scope allows every path.
unfoldable pub patch_scope_error : (String → String → Bool) → String → List String → String
patch_scope_error fnmatchcase raw allowed_patch_scope =
    if unsafe_path raw
    then "unsafe patch path: " ++ raw
    else if not (is_empty allowed_patch_scope)
        && not (any_match fnmatchcase (as_posix raw) allowed_patch_scope)
    then "patch path outside allowed_patch_scope: " ++ raw
    else ""

pub append_empty : (s t : String) → ((s ++ t) == "") ≡ true → len s + len t ≡ 0
append_empty s t h = sym (len-append s t) ∙ ap len ((eq_iff (s ++ t) "").0 h)

scope_decision :
    (raw : String) (u e m : Bool)
    → ((if u
          then "unsafe patch path: " ++ raw
          else if not e && not m
          then "patch path outside allowed_patch_scope: " ++ raw
          else "")
        == "")
      ≡ true
    → (u ≡ false) × ((e || m) ≡ true)
scope_decision raw true e m h = absurd (omega (arith, append_empty "unsafe patch path: " raw h))
scope_decision raw false true m h = (refl, refl)
scope_decision raw false false true h = (refl, refl)
scope_decision raw false false false h =
    absurd (omega (arith, append_empty "patch path outside allowed_patch_scope: " raw h))

pub patch_scope_error_lem :
    (fnmatchcase : String → String → Bool) (raw : String) (scope : List String)
    → (patch_scope_error fnmatchcase raw scope == "") ≡ true
    → (unsafe_path raw ≡ false)
      × ((is_empty scope || any_match fnmatchcase (as_posix raw) scope) ≡ true)
unfolding patch_scope_error
patch_scope_error_lem fnmatchcase raw scope h =
    scope_decision raw (unsafe_path raw) (is_empty scope)
      (any_match fnmatchcase (as_posix raw) scope) h

-- old in text
unfoldable pub occurs_in : String → String → Bool
occurs_in old [] = old == ""
occurs_in old (c ∷ s) = starts_with (c ∷ s) old || occurs_in old s

chars : String → ℕ
chars [] = 0
chars (c ∷ s) = suc (chars s)

-- The text with `new` for each occurrence of `old`, a text that is not empty, from the left;
-- the first `skip` characters belong to an occurrence that was replaced.
replace_from : (old new : String) → (skip : ℕ) → String → String
unfolding chars
replace_from old new skip [] = []
replace_from old new (suc skip) (c ∷ s) = replace_from old new skip s
replace_from old new zero (c ∷ s) = elim (starts_with (c ∷ s) old) [
  | true ↦ new ++ replace_from old new (chars old - 1) s
  | false ↦ c ∷ replace_from old new zero s
]

interleave : String → String → String
interleave new [] = new
interleave new (c ∷ s) = new ++ (c ∷ interleave new s)

-- text.replace(old, new)
unfoldable pub replace_text : (old new : String) → String → String
unfolding replace_from interleave
replace_text old new text =
    if old == "" then interleave new text else replace_from old new zero text

line_feed : String → String
line_feed [] = []
line_feed (c ∷ s) = if eqb (code c) 10 then s else c ∷ s

-- What read_text gives of a file's text: "\r\n" and "\r" are read as "\n".
unfoldable pub universal_newlines : String → String
unfolding line_feed
universal_newlines [] = []
universal_newlines (c ∷ s) =
    let rest = universal_newlines s in
    if eqb (code c) 13
    then "\n"
      ++ (elim s [ [] ↦ rest | next ∷ after ↦ if eqb (code next) 10 then line_feed rest else rest ])
    else c ∷ rest
