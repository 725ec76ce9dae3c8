-- ===== src/Persistence/Snapshot/Calm.antt =====
-- Changes that leave what a reader finds as it is.
use cognitive_evolve.Prelude.{
  ℕ, zero, suc, String, ◌≡◌, refl, ◌∙◌, arith, eq_iff, false, Dict, get, put, get-put, Option, none,
  some, List, [], ◌∷◌, ◌++◌, All, ◌==◌, if◌then◌else◌,
}
use cognitive_evolve.Persistence.Snapshot.{
  Disk, resolve, drop_key, files_in, Change, make_directory, write_file, rename, publish_current,
  link, remove_file, remove_directory, apply_change, apply_changes, crash, remove_tree, StagedFile,
  write_changes, clear_staging, staging_name, staging_changes,
}

-- A change elsewhere than in the generation that CURRENT names.
unfoldable pub Misses : Option String → String → Type 0
Misses none name = Unit
Misses (some id) name = (name == id) ≡ false

unfoldable pub Quiet : Option String → Change → Type 0
unfolding Misses
Quiet o (make_directory name) = Misses o name
Quiet o (write_file name target content) = Misses o name
Quiet o (rename staging name) = Misses o staging × Misses o name
Quiet o (publish_current name) = ⊥
Quiet none (link path) = ⊥
Quiet (some id) (link path) = Unit
Quiet o (remove_file name target) = Misses o name
Quiet o (remove_directory name) = Misses o name

get-drop_key {ℓ} :
    {V : Type ℓ} (d : Dict V) (k j : String)
    → get (drop_key d k) j ≡ (if k == j then none else get d j)
unfolding get drop_key
get-drop_key [] k j = ground (arith, eq_iff k j)
get-drop_key ((i, v) ∷ d) k j =
    ground (arith, eq_iff i j, eq_iff i k, eq_iff k j, get-drop_key d k j)

get-put_other {ℓ} :
    {V : Type ℓ} (d : Dict V) (k j : String) (v : V)
    → (k == j) ≡ false
    → get (put d k v) j ≡ get d j
get-put_other d k j v h = rw (get-put d k j v, h) refl

get-drop_other {ℓ} :
    {V : Type ℓ} (d : Dict V) (k j : String) → (k == j) ≡ false → get (drop_key d k) j ≡ get d j
get-drop_other d k j h = rw (get-drop_key d k j, h) refl

-- What a reader finds is the same after quiet changes.
unfoldable pub Same : Option String → Disk → Disk → Type 0
Same none d e = (e.current ≡ none) × (e.flat ≡ d.flat)
Same (some id) d e = (e.current ≡ some id) × (get e.generations id ≡ get d.generations id)

pub Same-resolve :
    (o : Option String) (d e : Disk) → d.current ≡ o → Same o d e → resolve e ≡ resolve d
unfolding Same resolve
Same-resolve none d e h g = rw (g.0, h, g.1) refl
Same-resolve (some id) d e h g = rw (g.0, h, g.1) refl

pub Same-current : (o : Option String) (d e : Disk) → Same o d e → e.current ≡ o
unfolding Same
Same-current none d e h = h.0
Same-current (some id) d e h = h.0

pub Same-trans : (o : Option String) (a b c : Disk) → Same o a b → Same o b c → Same o a c
unfolding Same
Same-trans none a b c h g = (g.0, g.1 ∙ h.1)
Same-trans (some id) a b c h g = (g.0, g.1 ∙ h.1)

pub Same-refl : (o : Option String) (d : Disk) → d.current ≡ o → Same o d d
unfolding Same
Same-refl none d h = (h, refl)
Same-refl (some id) d h = (h, refl)

pub apply_change-Same :
    (o : Option String) (c : Change) (d : Disk)
    → d.current ≡ o
    → Quiet o c
    → Same o d (apply_change c d)
unfolding Quiet Misses apply_change Same
apply_change-Same none (make_directory name) d h q = (h, refl)
apply_change-Same none (write_file name target content) d h q = (h, refl)
apply_change-Same none (rename staging name) d h q = (h, refl)
apply_change-Same none (publish_current name) d h q = absurd q
apply_change-Same none (link path) d h q = absurd q
apply_change-Same none (remove_file name target) d h q = (h, refl)
apply_change-Same none (remove_directory name) d h q = (h, refl)
apply_change-Same (some id) (make_directory name) d h q =
    (h, get-put_other d.generations name id [] q)
apply_change-Same (some id) (write_file name target content) d h q =
    (h, get-put_other d.generations name id (put (files_in d.generations name) target content) q)
apply_change-Same (some id) (rename staging name) d h q = (
  h,
  get-put_other (drop_key d.generations staging) name id (files_in d.generations staging) q.1
      ∙ get-drop_other d.generations staging id q.0,
)
apply_change-Same (some id) (publish_current name) d h q = absurd q
apply_change-Same (some id) (link path) d h q = (h, refl)
apply_change-Same (some id) (remove_file name target) d h q =
    (h, get-put_other d.generations name id (drop_key (files_in d.generations name) target) q)
apply_change-Same (some id) (remove_directory name) d h q =
    (h, get-drop_other d.generations name id q)

pub crash-Same :
    (o : Option String) (n : ℕ) (cs : List Change) (d : Disk)
    → d.current ≡ o
    → All (Quiet o) cs
    → Same o d (crash n cs d)
unfolding crash
crash-Same o zero cs d h q = Same-refl o d h
crash-Same o (suc n) [] d h q = Same-refl o d h
crash-Same o (suc n) (c ∷ cs) d h q =
    let s = apply_change-Same o c d h q.0 in
    Same-trans o d (apply_change c d) (crash n cs (apply_change c d)) s
      (crash-Same o n cs (apply_change c d) (Same-current o d (apply_change c d) s) q.1)

pub apply_changes-Same :
    (o : Option String) (cs : List Change) (d : Disk)
    → d.current ≡ o
    → All (Quiet o) cs
    → Same o d (apply_changes cs d)
unfolding apply_changes
apply_changes-Same o [] d h q = Same-refl o d h
apply_changes-Same o (c ∷ cs) d h q =
    let s = apply_change-Same o c d h q.0 in
    Same-trans o d (apply_change c d) (apply_changes cs (apply_change c d)) s
      (apply_changes-Same o cs (apply_change c d) (Same-current o d (apply_change c d) s) q.1)

-- A crash in two lists of changes comes in the first one, or in the second one after it.
pub crash-append :
    (P : Disk → Type 0) (n : ℕ) (xs ys : List Change) (d : Disk)
    → ((m : ℕ) → P (crash m xs d))
    → ((m : ℕ) → P (crash m ys (apply_changes xs d)))
    → P (crash n (xs ++ ys) d)
unfolding crash apply_changes
crash-append P zero xs ys d h g = h zero
crash-append P (suc n) [] ys d h g = g (suc n)
crash-append P (suc n) (x ∷ xs) ys d h g =
    crash-append P n xs ys (apply_change x d) (λ m. h (suc m)) g

pub apply_changes-append :
    (xs ys : List Change) (d : Disk)
    → apply_changes (xs ++ ys) d ≡ apply_changes ys (apply_changes xs d)
unfolding apply_changes
apply_changes-append [] ys d = refl
apply_changes-append (x ∷ xs) ys d = apply_changes-append xs ys (apply_change x d)

pub All-append :
    (P : Change → Type 0) (xs ys : List Change) → All P xs → All P ys → All P (xs ++ ys)
All-append P [] ys h g = g
All-append P (x ∷ xs) ys h g = (h.0, All-append P xs ys h.1 g)

pub remove_tree-Quiet :
    (o : Option String) (name : String) (files : Dict String)
    → Misses o name
    → All (Quiet o) (remove_tree name files)
unfolding remove_tree Quiet
remove_tree-Quiet none name [] h = (h, tt)
remove_tree-Quiet (some id) name [] h = (h, tt)
remove_tree-Quiet none name ((target, content) ∷ files) h = (h, remove_tree-Quiet none name files h)
remove_tree-Quiet (some id) name ((target, content) ∷ files) h =
    (h, remove_tree-Quiet (some id) name files h)

clear_staging-Quiet :
    (o : Option String) (name : String) (found : Option (Dict String))
    → Misses o name
    → All (Quiet o) (clear_staging name found)
unfolding clear_staging
clear_staging-Quiet o name none h = tt
clear_staging-Quiet o name (some files) h = remove_tree-Quiet o name files h

write_changes-Quiet :
    (o : Option String) (name : String) (fs : List StagedFile)
    → Misses o name
    → All (Quiet o) (write_changes name fs)
unfolding write_changes Quiet
write_changes-Quiet o name [] h = tt
write_changes-Quiet none name (f ∷ fs) h = (h, write_changes-Quiet none name fs h)
write_changes-Quiet (some id) name (f ∷ fs) h = (h, write_changes-Quiet (some id) name fs h)

make_directory-Quiet :
    (o : Option String) (name : String) → Misses o name → Quiet o (make_directory name)
unfolding Quiet
make_directory-Quiet none name h = h
make_directory-Quiet (some id) name h = h

pub staging_changes-Quiet :
    (o : Option String) (d : Disk) (id : String) (fs : List StagedFile)
    → Misses o (staging_name id)
    → All (Quiet o) (staging_changes d id fs)
unfolding staging_changes
staging_changes-Quiet o d id fs h =
    All-append (Quiet o) (clear_staging (staging_name id) (get d.generations (staging_name id)))
      (make_directory (staging_name id) ∷ write_changes (staging_name id) fs)
      (clear_staging-Quiet o (staging_name id) (get d.generations (staging_name id)) h)
      (make_directory-Quiet o (staging_name id) h, write_changes-Quiet o (staging_name id) fs h)
