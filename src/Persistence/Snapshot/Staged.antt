-- ===== src/Persistence/Snapshot/Staged.antt =====
-- What a commit stages, publishes and prunes.
use cognitive_evolve.Prelude.{
  ℕ, zero, suc, String, ◌≡◌, ◌⊎◌, refl, sym, ◌∙◌, ap, subst, arith, eq_refl, Bool, true, false, not,
  ◌&&◌, ◌||◌, inl, inr, Dict, get, put, get-put, Option, none, some, List, [], ◌∷◌, ◌++◌, map, All,
  ◌==◌, if_cases,
}
use package.text.Mathlib.Text.{starts_with}
use cognitive_evolve.Persistence.Snapshot.{
  Disk, generation, resolve, drop_key, files_in, Change, make_directory, write_file, rename,
  publish_current, link, apply_change, apply_changes, crash, remove_tree, StagedFile, put_files,
  write_changes, clear_staging, prune_generations, staging_name, staging_changes, closing_changes,
  previous_id, or_no_content,
}
use cognitive_evolve.Persistence.Snapshot.Calm.{
  Misses, Quiet, Same, Same-resolve, Same-current, Same-trans, apply_change-Same, crash-Same,
  apply_changes-append, All-append, remove_tree-Quiet,
}

kept : (a b c : Bool) → (a && not (b || c)) ≡ true → b ≡ false
kept a true c h = ground (arith, h)
kept a false c h = refl

misses : (o : Option String) (name id : String) → o ≡ some id → (name == id) ≡ false → Misses o name
unfolding Misses
misses none name id e h = tt
misses (some i) name id e h = subst (λ o. Misses o name) (sym e) h

put_self {ℓ} : {V : Type ℓ} (d : Dict V) (k : String) (v : V) → get (put d k v) k ≡ some v
put_self d k v = rw (get-put d k k v, eq_refl k) refl

links-Quiet : (id : String) (paths : List String) → All (Quiet (some id)) (map link paths)
unfolding Quiet
links-Quiet id [] = tt
links-Quiet id (path ∷ paths) = (tt, links-Quiet id paths)

-- The new generation is not pruned.
pruned_other :
    (name id previous : String)
    → (starts_with name "txn-" && not ((name == id) || (name == previous))) ≡ true
    → (name == id) ≡ false
pruned_other name id previous h = kept (starts_with name "txn-") (name == id) (name == previous) h

prune_generations-Quiet :
    (id previous : String) (d : Dict (Dict String))
    → All (Quiet (some id)) (prune_generations id previous d)
unfolding prune_generations
prune_generations-Quiet id previous [] = tt
prune_generations-Quiet id previous ((name, files) ∷ d) =
    let rest = prune_generations id previous d in
    if_cases (All (Quiet (some id)))
      (starts_with name "txn-" && not ((name == id) || (name == previous)))
      (remove_tree name files ++ rest) rest
      (λ h.
        All-append (Quiet (some id)) (remove_tree name files) rest
          (remove_tree-Quiet (some id) name files
            (misses (some id) name id refl (pruned_other name id previous h)))
          (prune_generations-Quiet id previous d))
      (λ h. prune_generations-Quiet id previous d)

pub closing_changes-Quiet :
    (d : Disk) (id : String) (paths : List String)
    → All (Quiet (some id)) (closing_changes d id paths)
unfolding closing_changes
closing_changes-Quiet d id paths =
    All-append (Quiet (some id)) (map link paths)
      (prune_generations id (previous_id d.current) d.generations) (links-Quiet id paths)
      (prune_generations-Quiet id (previous_id d.current) d.generations)

-- What the staging directory holds after the writes.
write_changes-files :
    (name : String) (fs : List StagedFile) (d : Disk) (files : Dict String)
    → get d.generations name ≡ some files
    → get (apply_changes (write_changes name fs) d).generations name ≡ some (put_files fs files)
unfolding apply_changes apply_change write_changes put_files files_in or_no_content
write_changes-files name [] d files h = h
write_changes-files name (f ∷ fs) d files h =
    write_changes-files name fs (apply_change (write_file name f.target f.content) d)
      (put files f.target f.content)
      (put_self d.generations name (put (files_in d.generations name) f.target f.content)
        ∙ ap (λ o. some (put (or_no_content o) f.target f.content)) h)

pub staging_changes-files :
    (d : Disk) (id : String) (fs : List StagedFile)
    → get (apply_changes (staging_changes d id fs) d).generations (staging_name id)
      ≡ some (put_files fs [])
unfolding staging_changes apply_changes apply_change
staging_changes-files d id fs =
    let name = staging_name id in
    let cleared = clear_staging name (get d.generations name) in
    let made = make_directory name ∷ write_changes name fs in
    ap (λ (e : Disk). get e.generations name) (apply_changes-append cleared made d)
    ∙ write_changes-files name fs (apply_change (make_directory name) (apply_changes cleared d)) []
        (put_self ((apply_changes cleared d).generations) name [])

-- What a reader finds: what was there before, or the new generation with all its files.
unfoldable pub Intact : Disk → Dict String → Disk → Type 0
Intact d files e = (resolve e ≡ resolve d) ⊎ (resolve e ≡ generation (some files))

rename-Quiet :
    (o : Option String) (staging name : String)
    → Misses o staging
    → Misses o name
    → Quiet o (rename staging name)
unfolding Quiet
rename-Quiet none staging name h g = (h, g)
rename-Quiet (some id) staging name h g = (h, g)

pub renamed :
    (d : Disk) (staging name : String) (files : Dict String)
    → get d.generations staging ≡ some files
    → get ((apply_change (rename staging name) d).generations) name ≡ some files
unfolding apply_change files_in or_no_content
renamed d staging name files h =
    put_self (drop_key d.generations staging) name (files_in d.generations staging)
    ∙ ap (λ o. some (or_no_content o)) h

pub resolve-generation :
    (d : Disk) (id : String) (files : Dict String)
    → starts_with id "txn-" ≡ true
    → d.current ≡ some id
    → get d.generations id ≡ some files
    → resolve d ≡ generation (some files)
unfolding resolve
resolve-generation d id files t h g = rw (h, t, g) refl

-- From the staged files on.
pub publish-Intact :
    (d s : Disk) (staging name : String) (files : Dict String) (closing : List Change) (n : ℕ)
    → Same d.current d s
    → get s.generations staging ≡ some files
    → Misses d.current staging
    → Misses d.current name
    → starts_with name "txn-" ≡ true
    → All (Quiet (some name)) closing
    → Intact d files (crash n (rename staging name ∷ publish_current name ∷ closing) s)
unfolding crash Intact apply_change
publish-Intact d s staging name files closing zero same h m k t q =
    inl (Same-resolve d.current d s refl same)
publish-Intact d s staging name files closing (suc zero) same h m k t q =
    let r = apply_change (rename staging name) s in
    inl (
      Same-resolve d.current d r refl (
        Same-trans d.current d s r same (
          apply_change-Same d.current (rename staging name) s (Same-current d.current d s same)
            (rename-Quiet d.current staging name m k))))
publish-Intact d s staging name files closing (suc (suc n)) same h m k t q =
    let r = apply_change (rename staging name) s in
    let p = apply_change (publish_current name) r in
    inr (
      Same-resolve (some name) p (crash n closing p) refl
        (crash-Same (some name) n closing p refl q)
      ∙ resolve-generation p name files t refl (renamed s staging name files h))
