-- ===== src/Llm/Governor/Tests.antt =====
-- Two requests a minute, of ten tokens in all.
use cognitive_evolve.Prelude.{ℕ, ◌≤◌, ◌≡◌, refl, List, [], ◌∷◌, arith, length, keep}
use cognitive_evolve.Llm.Governor.{
  Limits, new_governor, turns, attempt, prune, prune_requests, prune_tokens, is_old, request_wait,
  token_wait, used_tokens, shortest, admit, is_admitted,
}
use cognitive_evolve.Llm.Governor.Window.{is_recent, end_time, admitted_in_minute}
use cognitive_evolve.Llm.Governor.Tokens.{IsWithin, tokens-IsWithin}

abbrev limits : Limits
limits = record { rpm = 2; tpm = 10 }

abbrev requests : List (ℕ × ℕ)
requests = (1000, 3) ∷ (2000, 3) ∷ (3000, 3) ∷ (61000, 3) ∷ (61001, 3) ∷ []

program : Unit {0}
unfolding turns attempt prune prune_requests prune_tokens is_old request_wait token_wait used_tokens
    shortest admit is_admitted is_recent end_time
program = tt

-- The third request waits, until the first one is a minute old.
admitted_times : (turns limits requests new_governor).0 ≡ (1000 ∷ 2000 ∷ 61000 ∷ [])
unfolding program
admitted_times = refl

admitted_in_minute_example :
    length (keep (is_recent 61001) (turns limits requests new_governor).0) ≤ 2
unfolding program
admitted_in_minute_example =
    admitted_in_minute limits requests (omega arith)
      (omega arith, (omega arith, (omega arith, (omega arith, (omega arith, tt)))))

tokens-IsWithin_example : IsWithin limits (turns limits requests new_governor).1
tokens-IsWithin_example = tokens-IsWithin limits requests (omega arith)
