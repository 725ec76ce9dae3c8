-- ===== src/Durable/Paths.antt =====
-- The directory of a step: `CheckpointStore.step_dir` and `_safe_component` of
-- durable/checkpoint_store.py.
use Prim.Native.Char.{Char, code}
use Prim.Native.String.{[], ◌∷◌, ◌++◌}
use cognitive_evolve.Prelude.{ℕ, zero, suc, String, ◌||◌, ◌&&◌, eqb, ◌==◌, if◌then◌else◌}
use cognitive_evolve.Json.{Python}

module _ (py : Python) where
  drop_space : String → String
  drop_space [] = []
  drop_space (c ∷ s) = let rest = drop_space s in if py.is_space (code c) then rest else c ∷ s

  drop_space_end : String → String
  drop_space_end [] = []
  drop_space_end (c ∷ s) =
      let rest = drop_space_end s in if py.is_space (code c) && (rest == "") then [] else c ∷ rest

  -- raw.strip()
  unfoldable pub strip : String → String
  unfolding drop_space drop_space_end
  strip s = drop_space_end (drop_space s)

  safe_char : Char → Char
  safe_char c = if py.is_alnum (code c) || eqb (code c) b'-' || eqb (code c) b'_' then c else "_"

  safe_chars : String → String
  unfolding safe_char
  safe_chars [] = []
  safe_chars (c ∷ s) = safe_char c ∷ safe_chars s

-- out[:n]
take_chars : ℕ → String → String
take_chars zero s = []
take_chars (suc n) [] = []
take_chars (suc n) (c ∷ s) = c ∷ take_chars n s

or_x : String → String
or_x s = if s == "" then "x" else s

unfoldable pub safe_component : Python → String → String
unfolding strip safe_chars take_chars or_x
safe_component py value = or_x (take_chars 80 (safe_chars py (strip py (or_x value))))

unfoldable pub step_dir : Python → (round_id step_id step_name : String) → String
unfolding safe_component
step_dir py round_id step_id step_name =
    ".rounds/"
    ++ safe_component py round_id
    ++ "/steps/"
    ++ safe_component py step_id
    ++ "_"
    ++ safe_component py (if step_name == "" then step_id else step_name)
