-- ===== src/Llm/Governor/Tokens.antt =====
-- The tokens of a minute in llm/governor.py.
use cognitive_evolve.Prelude.{
  ℕ, ◌+◌, ◌≤◌, ◌<◌, max, ◌≡◌, refl, Option, none, some, List, [], ◌∷◌, ◌++◌, length, arith,
  Option-cases, ◌⊎◌, inl, inr,
}
use cognitive_evolve.Llm.Governor.{
  Governor, Limits, new_governor, prune_tokens, prune, request_wait, token_wait, used_tokens,
  shortest, admit, attempt, turns, wait_or_admit,
}

-- The tokens of the window are within the limit, or a single request holds them all.
unfoldable pub IsWithin : Limits → Governor → Type 0
IsWithin l g = (used_tokens g.token_events ≤ l.tpm) ⊎ (length g.token_events ≤ 1)

length-prune_tokens : (now : ℕ) (es : List (ℕ × ℕ)) → length (prune_tokens now es) ≤ length es
unfolding prune_tokens
length-prune_tokens now [] = omega arith
length-prune_tokens now ((t, n) ∷ es) = ground (arith, length-prune_tokens now es)

used-prune_tokens :
    (now : ℕ) (es : List (ℕ × ℕ)) → used_tokens (prune_tokens now es) ≤ used_tokens es
unfolding prune_tokens used_tokens
used-prune_tokens now [] = omega arith
used-prune_tokens now ((t, n) ∷ es) = ground (arith, used-prune_tokens now es)

prune-IsWithin : (l : Limits) (now : ℕ) (g : Governor) → IsWithin l g → IsWithin l (prune now g)
unfolding IsWithin prune
prune-IsWithin l now g (inl h) = inl (omega (arith, h, used-prune_tokens now g.token_events))
prune-IsWithin l now g (inr h) = inr (omega (arith, h, length-prune_tokens now g.token_events))

used-append : (es : List (ℕ × ℕ)) (t n : ℕ) → used_tokens (es ++ ((t, n) ∷ [])) ≡ used_tokens es + n
unfolding used_tokens
used-append [] t n = omega arith
used-append ((u, m) ∷ es) t n = omega (arith, used-append es t n)

shortest-none : (a b : Option ℕ) → shortest a b ≡ none → b ≡ none
unfolding shortest
shortest-none none b h = h
shortest-none (some m) none h = refl
shortest-none (some m) (some n) h = cc

-- No wait for tokens: none are held, or the request fits.
no_wait :
    (l : Limits) (now estimated : ℕ) (es : List (ℕ × ℕ)) (a : Option ℕ)
    → 0 < l.tpm
    → shortest a (token_wait l now estimated es) ≡ none
    → (es ≡ []) ⊎ (used_tokens es + estimated ≤ l.tpm)
unfolding token_wait
no_wait l now estimated [] a p h = inl refl
no_wait l now estimated ((t, n) ∷ es) a p h =
    let free = shortest-none a (token_wait l now estimated ((t, n) ∷ es)) h in inr (ground arith)

admit-IsWithin :
    (l : Limits) (now estimated : ℕ) (g : Governor)
    → 0 < l.tpm
    → (g.token_events ≡ []) ⊎ (used_tokens g.token_events + estimated ≤ l.tpm)
    → IsWithin l (admit l now estimated g)
unfolding IsWithin admit
admit-IsWithin l now estimated g p (inl e) = inr (ground arith)
admit-IsWithin l now estimated g p (inr h) =
    inl (ground (arith, used-append g.token_events now estimated))

attempt-IsWithin :
    (l : Limits) (now tokens : ℕ) (g : Governor)
    → 0 < l.tpm
    → IsWithin l g
    → IsWithin l (attempt l now tokens g).1
unfolding attempt wait_or_admit
attempt-IsWithin l now tokens g p h =
    let pruned = prune now g in
    let wait =
      shortest (request_wait l now pruned.request_times)
        (token_wait l now (max 1 tokens) pruned.token_events) in
    elim (Option-cases wait) [
      | inl e ↦ rw e (
          admit-IsWithin l now (max 1 tokens) pruned p (
            no_wait l now (max 1 tokens) pruned.token_events
              (request_wait l now pruned.request_times) p e))
      | inr (n, e) ↦ rw e (prune-IsWithin l now g h)
    ]

turns-IsWithin :
    (l : Limits) (ts : List (ℕ × ℕ)) (g : Governor)
    → 0 < l.tpm
    → IsWithin l g
    → IsWithin l (turns l ts g).1
unfolding turns
turns-IsWithin l [] g p h = h
turns-IsWithin l ((t, tokens) ∷ rest) g p h =
    turns-IsWithin l rest (attempt l t tokens g).1 p (attempt-IsWithin l t tokens g p h)

-- With a limit, the tokens held in the window never exceed it, unless one request alone is larger
-- than the limit: then it is the only one in the window.
pub tokens-IsWithin :
    (l : Limits) (ts : List (ℕ × ℕ)) → 0 < l.tpm → IsWithin l (turns l ts new_governor).1
unfolding IsWithin
tokens-IsWithin l ts p = turns-IsWithin l ts new_governor p (inr (omega arith))
