-- ===== src/Verification/Minimax.antt =====
-- verification/minimax_budget.py: the adversarial budget, shared out among the candidates by
-- their strengths. A negative number of the source's arguments acts as zero, so they are naturals.
pub mod Shares
pub mod Total
pub mod Budget
pub mod Floor
mod Tests
use cognitive_evolve.Prelude.{
  ℕ, suc, ◌+◌, ◌-◌, ◌*◌, ◌/◌, max, String, Bool, true, false, not, Option, none, some, List, [],
  ◌∷◌, map, length, take, sum, leb, eqb, ◌==◌, Dict, put, if◌then◌else◌,
}
use cognitive_evolve.Verification.Ladder.{VerificationStrength, rank}

-- A candidate, with its `candidate_verification_strength`.
pub record Candidate : Type 0 where
  pub id : String
  pub strength : VerificationStrength

-- The key that orders the shares: the fraction of num / den, the score and the id.
pub record ShareKey : Type 0 where
  pub num : ℕ
  pub den : ℕ
  pub score : ℕ
  pub cid : String

-- What the source takes from floats and from the order of texts: `int(a / b)`, and the two orders
-- that `sorted` uses.
pub record Numbers : Type 0 where
  pub int_div : ℕ → ℕ → ℕ
  pub key_less : ShareKey → ShareKey → Bool
  pub text_less : String → String → Bool

insert {ℓ} : {A : Type ℓ} → (A → A → Bool) → A → List A → List A
insert before x [] = x ∷ []
insert before x (y ∷ ys) =
    let rest = insert before x ys in if before y x then y ∷ rest else x ∷ y ∷ ys

-- `sorted`: an item goes before its equals to the right.
unfoldable pub sorted {ℓ} : {A : Type ℓ} → (A → A → Bool) → List A → List A
unfolding insert
sorted before [] = []
sorted before (x ∷ xs) = insert before x (sorted before xs)

-- out[cid] += 1
unfoldable pub bump : String → Dict ℕ → Dict ℕ
bump k [] = []
bump k ((j, n) ∷ d) = if j == k then (j, n + 1) ∷ d else (j, n) ∷ bump k d

unfoldable pub bump_all : List String → Dict ℕ → Dict ℕ
bump_all [] d = d
bump_all (k ∷ ks) d = bump_all ks (bump k d)

unfoldable pub values : Dict ℕ → List ℕ
values [] = []
values ((j, n) ∷ d) = n ∷ values d

unfoldable pub keys : Dict ℕ → List String
keys [] = []
keys ((j, n) ∷ d) = j ∷ keys d

-- [candidate for candidate in candidates if candidate.id]
unfoldable pub with_id : List Candidate → List Candidate
with_id [] = []
with_id (c ∷ cs) = let rest = with_id cs in if c.id == "" then rest else c ∷ rest

-- A dictionary comprehension: a repeated key keeps its place and takes the later value.
unfoldable pub collect : Dict ℕ → Dict ℕ → Dict ℕ
collect [] d = d
collect ((k, v) ∷ ps) d = collect ps (put d k v)

unfoldable pub ids_of : List Candidate → List String
ids_of [] = []
ids_of (c ∷ cs) = c.id ∷ ids_of cs

unfoldable pub strengths : List Candidate → Dict ℕ
strengths [] = []
strengths (c ∷ cs) = (c.id, rank c.strength) ∷ strengths cs

-- {candidate.id: int(strength) for candidate in ordered}
unfoldable pub scores_of : List Candidate → Dict ℕ
scores_of cs = collect (strengths cs) []

unfoldable pub constants : ℕ → List String → Dict ℕ
constants base [] = []
constants base (k ∷ ks) = (k, base) ∷ constants base ks

unfoldable pub uniform_budget : Numbers → List String → (total floor : ℕ) → Dict ℕ
uniform_budget py [] total floor = []
uniform_budget py (k ∷ ks) total floor =
    let ids = k ∷ ks in
    let base = max floor (total / length ids) in
    let out = collect (constants base ids) [] in
    bump_all (take (total - sum (values out)) (sorted py.text_less ids)) out

-- order[:total - used], where a negative end counts from the end
unfoldable pub slice_to {ℓ} : {A : Type ℓ} → (total used : ℕ) → List A → List A
slice_to total used xs =
    if leb used total then take (total - used) xs else take (length xs - (used - total)) xs

-- {cid: floor + int(raw[cid]) for cid in scores}
unfoldable pub base_shares : Numbers → (floor remaining score_sum : ℕ) → Dict ℕ → Dict ℕ
base_shares py floor remaining score_sum [] = []
base_shares py floor remaining score_sum ((k, value) ∷ d) =
    (k, floor + py.int_div (remaining * value) score_sum)
    ∷ base_shares py floor remaining score_sum d

share_keys : (remaining score_sum : ℕ) → Dict ℕ → List ShareKey
share_keys remaining score_sum [] = []
share_keys remaining score_sum ((k, value) ∷ d) =
    record { num = remaining * value; den = score_sum; score = value; cid = k }
    ∷ share_keys remaining score_sum d

key_ids : List ShareKey → List String
key_ids [] = []
key_ids (k ∷ ks) = k.cid ∷ key_ids ks

-- sorted(scores, key=..., reverse=True)
unfoldable pub share_order : Numbers → (remaining score_sum : ℕ) → Dict ℕ → List String
unfolding share_keys key_ids
share_order py remaining score_sum d =
    key_ids (sorted (λ x y. py.key_less y x) (share_keys remaining score_sum d))

unfoldable pub weighted_budget : Numbers → (total base_total floor : ℕ) → Dict ℕ → Dict ℕ
weighted_budget py total base_total floor scores =
    let remaining = total - base_total in
    let score_sum = sum (values scores) in
    let out = base_shares py floor remaining score_sum scores in
    bump_all (slice_to total (sum (values out)) (share_order py remaining score_sum scores)) out

unfoldable pub allocated_total : ℕ → ℕ → Option ℕ → ℕ → ℕ
allocated_total floor base_budget none n = max (max floor base_budget * n) (floor * n)
allocated_total floor base_budget (some t) n = max t (floor * n)

-- The rest of `_allocate_adversarial_budget`, for candidates that have an id each.
unfoldable pub share_out : Numbers → List Candidate → (total floor : ℕ) → Dict ℕ
share_out py ordered total floor =
    let scores = scores_of ordered in
    if eqb (sum (values scores)) 0
    then uniform_budget py (ids_of ordered) total floor
    else weighted_budget py total (floor * length ordered) floor scores

-- `_allocate_adversarial_budget`
unfoldable pub allocate_adversarial_budget :
    Numbers
    → List Candidate
    → (base_budget min_budget_per_candidate : ℕ) → (total_override : Option ℕ) → Dict ℕ
allocate_adversarial_budget py candidates base_budget floor total_override =
    let ordered = with_id candidates in
    share_out py ordered (allocated_total floor base_budget total_override (length ordered)) floor
