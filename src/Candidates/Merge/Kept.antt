-- ===== src/Candidates/Merge/Kept.antt =====
-- Which operations candidates/patch_merge.py lets stand beside each other.
use cognitive_evolve.Prelude.{
  String, ◌≡◌, refl, sym, ◌∙◌, subst, Bool, true, false, inl, inr, Option, none, some, List, [],
  ◌∷◌, ◌++◌, get, put, get-put, ◌==◌, eq_iff, arith, if◌then◌else◌, if_cases, ap, Bool-cases,
  Option-cases,
}
use mathlib.Core.List.{append_assoc, append-nil}
use cognitive_evolve.Json.{Fields}
use cognitive_evolve.Candidates.Merge.{
  PatchOperation, Merging, both, add, add_first, add_conflict, same_operation, compatible,
  merge_known, merge_found, merge_one, merge_all, merge_patch_sets,
}

-- The first operation on a path.
unfoldable pub first_at : List PatchOperation → String → Option PatchOperation
first_at [] p = none
first_at (op ∷ ops) p = if op.path == p then some op else first_at ops p

-- After the operations `earlier`, an operation is the first one on its path, or appends after an
-- append that was the first, or replaces another text than the first, which replaces too.
pub data Placed (earlier : List PatchOperation) (op : PatchOperation) : Type 0 where
  new : first_at earlier op.path ≡ none → Placed earlier op
  append :
      {first : PatchOperation}
      → first_at earlier op.path ≡ some first
      → both "append" first op ≡ true
      → Placed earlier op
  replace :
      {first : PatchOperation}
      → first_at earlier op.path ≡ some first
      → both "replace" first op ≡ true
      → (first.old_text == op.old_text) ≡ false
      → Placed earlier op

-- Each operation of the list is placed after `earlier` and the ones before it in the list.
unfoldable pub AllPlaced : (earlier ops : List PatchOperation) → Type 0
AllPlaced earlier [] = Unit
AllPlaced earlier (op ∷ ops) = Placed earlier op × AllPlaced (earlier ++ (op ∷ [])) ops

AllPlaced-append :
    (earlier ops : List PatchOperation) (op : PatchOperation)
    → AllPlaced earlier ops
    → Placed (earlier ++ ops) op
    → AllPlaced earlier (ops ++ (op ∷ []))
unfolding AllPlaced
AllPlaced-append earlier [] op h p = (subst (λ l. Placed l op) (append-nil earlier) p, tt)
AllPlaced-append earlier (o ∷ ops) op h p = (
  h.0,
  AllPlaced-append (earlier ++ (o ∷ [])) ops op h.1
      (subst (λ l. Placed l op) (sym (append_assoc earlier (o ∷ []) ops)) p),
)

or_found : Option PatchOperation → Option PatchOperation → Option PatchOperation
or_found (some f) o = some f
or_found none o = o

first_at-both :
    (xs ys : List PatchOperation) (p : String)
    → first_at (xs ++ ys) p ≡ or_found (first_at xs p) (first_at ys p)
unfolding first_at or_found
first_at-both [] ys p = refl
first_at-both (x ∷ xs) ys p = elim (Bool-cases (x.path == p)) [
  | inl e ↦ rw e refl
  | inr e ↦ rw e (first_at-both xs ys p)
]

first_at-append :
    (ops : List PatchOperation) (op : PatchOperation) (p : String)
    → first_at (ops ++ (op ∷ [])) p
      ≡ elim (first_at ops p) [ some f ↦ some f | none ↦ (if op.path == p then some op else none) ]
unfolding first_at
first_at-append [] op p = refl
first_at-append (o ∷ ops) op p = elim (Bool-cases (o.path == p)) [
  | inl e ↦ rw e refl
  | inr e ↦ rw e (first_at-append ops op p)
]

first_at-some :
    (ops : List PatchOperation) (op f : PatchOperation) (p : String)
    → first_at ops p ≡ some f
    → first_at (ops ++ (op ∷ [])) p ≡ some f
first_at-some ops op f p e = first_at-append ops op p ∙ rw e refl

-- The dictionary has the first merged operation on each path, and all merged ones are placed.
record Inv (m : Merging) : Type 0 where
  firsts : (p : String) → get m.by_path p ≡ first_at m.merged p
  placed : AllPlaced [] m.merged

known_first :
    (m : Merging) (first op : PatchOperation) (p : String)
    → Inv m
    → get m.by_path op.path ≡ some first
    → get m.by_path p ≡ first_at (m.merged ++ (op ∷ [])) p
known_first m first op p inv e = elim (Option-cases (first_at m.merged p)) [
  | inr (f, found) ↦ inv.firsts p ∙ found ∙ sym (first_at-some m.merged op f p found)
  | inl missing ↦
      rw (first_at-append, missing)
        (elim (Bool-cases (op.path == p)) [
          | inl same ↦
              let here = (eq_iff op.path p).0 same in let gone = inv.firsts p ∙ missing in cc
          | inr other ↦ rw other (inv.firsts p ∙ missing)
        ])
]

Inv-add :
    (m : Merging) (first op : PatchOperation)
    → Inv m
    → get m.by_path op.path ≡ some first
    → Placed m.merged op
    → Inv (add op m)
unfolding add
Inv-add m first op inv e fits = record {
  firsts = λ p. known_first m first op p inv e;
  placed = AllPlaced-append [] m.merged op inv.placed fits;
}

missing_at :
    (m : Merging) (op : PatchOperation)
    → Inv m
    → get m.by_path op.path ≡ none
    → first_at m.merged op.path ≡ none
missing_at m op inv e = sym (inv.firsts op.path) ∙ e

new_first :
    (m : Merging) (op : PatchOperation) (p : String)
    → Inv m
    → get m.by_path op.path ≡ none
    → get (put m.by_path op.path op) p ≡ first_at (m.merged ++ (op ∷ [])) p
new_first m op p inv e =
    rw (get-put, first_at-append)
      (elim (Bool-cases (op.path == p)) [
        | inl same ↦
            let there : first_at m.merged p ≡ none =
              subst (λ q. first_at m.merged q ≡ none) ((eq_iff op.path p).0 same)
                (missing_at m op inv e) in
            rw there (rw same refl)
        | inr other ↦ elim (Option-cases (first_at m.merged p)) [
          | inl missing ↦ rw missing (rw other (inv.firsts p ∙ missing))
          | inr (f, found) ↦ rw found (rw other (inv.firsts p ∙ found))
        ]
      ])

Inv-first :
    (m : Merging) (op : PatchOperation)
    → Inv m
    → get m.by_path op.path ≡ none
    → Inv (add_first op m)
unfolding add_first
Inv-first m op inv e = record {
  firsts = λ p. new_first m op p inv e;
  placed = AllPlaced-append [] m.merged op inv.placed (new (missing_at m op inv e));
}

module _ (same_dict : Fields → Fields → Bool) where
  replaced :
      (a b : PatchOperation)
      → compatible same_dict a b ≡ true
      → both "append" a b ≡ false
      → same_operation same_dict a b ≡ false
      → (both "replace" a b ≡ true) × ((a.old_text == b.old_text) ≡ false)
  unfolding compatible
  replaced a b c n d = (ground arith, ground arith)

  merge_known-Inv :
      (existing op : PatchOperation) (m : Merging)
      → Inv m
      → get m.by_path op.path ≡ some existing
      → Inv (merge_known same_dict existing op m)
  unfolding merge_known add_conflict
  merge_known-Inv existing op m inv e =
      let found = sym (inv.firsts op.path) ∙ e in
      elim (Bool-cases (compatible same_dict existing op)) [
        | inr refused ↦ rw refused (record { firsts = inv.firsts; placed = inv.placed })
        | inl c ↦ rw c (elim (Bool-cases (both "append" existing op)) [
          | inl appended ↦ rw appended (Inv-add m existing op inv e (append found appended))
          | inr n ↦ rw n (elim (Bool-cases (same_operation same_dict existing op)) [
            | inl again ↦ rw again inv
            | inr d ↦
                let (r, t) = replaced existing op c n d in
                rw d (Inv-add m existing op inv e (replace found r t))
          ])
        ])
      ]

  merge_one-Inv : (op : PatchOperation) (m : Merging) → Inv m → Inv (merge_one same_dict op m)
  unfolding merge_one merge_found
  merge_one-Inv op m inv = elim (Option-cases (get m.by_path op.path)) [
    | inl e ↦ rw e (Inv-first m op inv e)
    | inr (existing, e) ↦ rw e (merge_known-Inv existing op m inv e)
  ]

  merge_all-Inv :
      (ops : List PatchOperation) (m : Merging) → Inv m → Inv (merge_all same_dict ops m)
  unfolding merge_all
  merge_all-Inv [] m inv = inv
  merge_all-Inv (op ∷ ops) m inv =
      merge_all-Inv ops (merge_one same_dict op m) (merge_one-Inv op m inv)

  merge_known_kept :
      (existing op : PatchOperation) (m : Merging) (p : String)
      → Inv m
      → get m.by_path op.path ≡ some existing
      → first_at (merge_known same_dict existing op m).merged p ≡ first_at (m.merged ++ (op ∷ [])) p
  unfolding merge_known add_conflict add
  merge_known_kept existing op m p inv e =
      let unchanged = sym (inv.firsts p) ∙ known_first m existing op p inv e in
      if_cases {A = Merging} (λ r. first_at r.merged p ≡ first_at (m.merged ++ (op ∷ [])) p)
        (compatible same_dict existing op) _ _
        (λ c.
          if_cases {A = Merging} (λ r. first_at r.merged p ≡ first_at (m.merged ++ (op ∷ [])) p)
            (both "append" existing op) _ _ (λ h. refl)
            (λ h.
              if_cases {A = Merging} (λ r. first_at r.merged p ≡ first_at (m.merged ++ (op ∷ [])) p)
                (same_operation same_dict existing op) _ _ (λ d. unchanged) (λ d. refl)))
        (λ c. unchanged)

  merge_one_kept :
      (op : PatchOperation) (m : Merging) (p : String)
      → Inv m
      → first_at (merge_one same_dict op m).merged p ≡ first_at (m.merged ++ (op ∷ [])) p
  unfolding merge_one merge_found add_first add
  merge_one_kept op m p inv = elim (Option-cases (get m.by_path op.path)) [
    | inl e ↦ rw e refl
    | inr (existing, e) ↦ rw e (merge_known_kept existing op m p inv e)
  ]

  merge_all_kept :
      (ops : List PatchOperation) (m : Merging) (p : String)
      → Inv m
      → first_at (merge_all same_dict ops m).merged p ≡ first_at (m.merged ++ ops) p
  unfolding merge_all
  merge_all_kept [] m p inv = ap (λ l. first_at l p) (sym (append-nil m.merged))
  merge_all_kept (op ∷ ops) m p inv =
      let after = merge_one same_dict op m in
      merge_all_kept ops after p (merge_one-Inv op m inv)
      ∙ first_at-both after.merged ops p
      ∙ ap (λ o. or_found o (first_at ops p)) (merge_one_kept op m p inv)
      ∙ sym (first_at-both (m.merged ++ (op ∷ [])) ops p)
      ∙ ap (λ l. first_at l p) (append_assoc m.merged (op ∷ []) ops)

  -- In a merged patch set each operation is the first one on its path, or appends after a first one
  -- that appends, or replaces another text than a first one that replaces. So an operation that
  -- deletes or writes a file never follows another one on its path, not even an equal one. And the
  -- first operation of the two sets on each path is kept as the first one on that path.
  pub merge_patch_sets-AllPlaced :
      (left right : List PatchOperation)
      → let merged = (merge_patch_sets same_dict left right).patch_set in
        AllPlaced [] merged × ((p : String) → first_at merged p ≡ first_at (left ++ right) p)
  unfolding merge_patch_sets first_at get AllPlaced
  merge_patch_sets-AllPlaced left right =
      let start : Inv (record { merged = []; conflicts = []; by_path = [] }) = record {
        firsts = λ p. refl;
        placed = tt;
      } in
      (
        (merge_all-Inv (left ++ right) _ start).placed,
        λ p. merge_all_kept (left ++ right) _ p start,
      )
