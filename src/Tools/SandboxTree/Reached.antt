-- ===== src/Tools/SandboxTree/Reached.antt =====
-- What the guards of a patch's target leave of a tree, and what its changes are to its files.
use Prim.Native.String.{◌++◌}
use cognitive_evolve.Prelude.{
  String, ◌≡◌, refl, ◌∙◌, arith, eq_iff, if_cases, Option, none, some, List, [], ◌∷◌, get, put,
  get-put, ◌==◌, if◌then◌else◌,
}
use cognitive_evolve.Tools.PatchPath.{as_posix, ancestors_between, parts, unsafe_path}
use cognitive_evolve.Tools.SandboxTree.{
  Node, file, folder, symlink, Tree, remove, node_text, file_at, Target, unsafe, raises, safe, Mode,
  existing, create_parent, make_parents, with_parent, unlinked, below_parent, located, make_parent,
  safe_patch_target, parent_within, links_on_way, is_link,
}

get-remove : (t : Tree) (k j : String) → get (remove t k) j ≡ (if k == j then none else get t j)
unfolding get remove
get-remove [] k j = ground (arith, eq_iff k j)
get-remove ((i, e) ∷ t) k j = ground (arith, eq_iff i j, eq_iff i k, eq_iff k j, get-remove t k j)

pub file_at-put_file :
    (t : Tree) (k j content : String)
    → file_at (put t k (file content)) j ≡ (if k == j then some content else file_at t j)
unfolding file_at node_text
file_at-put_file t k j content = ground (arith, get-put t k j (file content))

pub file_at-remove :
    (t : Tree) (k j : String) → file_at (remove t k) j ≡ (if k == j then none else file_at t j)
unfolding file_at node_text
file_at-remove t k j = ground (arith, get-remove t k j)

unfoldable pub SameFiles : Tree → Tree → Type 0
SameFiles made t = (j : String) → file_at made j ≡ file_at t j

pub SameFiles-refl : (t : Tree) → SameFiles t t
unfolding SameFiles
SameFiles-refl t j = refl

Makes : Tree → Option Tree → Type 0
Makes t none = Unit
Makes t (some made) = SameFiles made t

-- A target that may be opened has the files of the tree.
unfoldable pub Reaches : Tree → Target → Type 0
unfolding SameFiles
Reaches t (safe made) = SameFiles made t
Reaches t _ = Unit

file_at-put_folder : (t : Tree) (k : String) → get t k ≡ none → SameFiles (put t k folder) t
unfolding SameFiles file_at node_text
file_at-put_folder t k h j = ground (arith, get-put t k j folder, eq_iff k j)

SameFiles-trans : (a b c : Tree) → SameFiles a b → SameFiles b c → SameFiles a c
unfolding SameFiles
SameFiles-trans a b c h g j = h j ∙ g j

make_parent-Makes :
    (t made : Tree) (k : String) (o : Option Node)
    → get made k ≡ o
    → SameFiles made t
    → Makes t (make_parent made k o)
unfolding Makes make_parent
make_parent-Makes t made k none e h =
    SameFiles-trans (put made k folder) made t (file_at-put_folder made k e) h
make_parent-Makes t made k (some folder) e h = h
make_parent-Makes t made k (some (file content)) e h = tt
make_parent-Makes t made k (some (symlink inside)) e h = tt

make_parents-Makes :
    (t : Tree) (o : Option Tree) (ks : List String) → Makes t o → Makes t (make_parents o ks)
unfolding Makes make_parents
make_parents-Makes t none ks h = tt
make_parents-Makes t (some made) [] h = h
make_parents-Makes t (some made) (k ∷ ks) h =
    make_parents-Makes t (make_parent made k (get made k)) ks
      (make_parent-Makes t made k (get made k) refl h)

module _ (os_message : (call path : String) → String) where
  raised_or_made-Reaches :
      (t : Tree) (raw : String) (o : Option Tree)
      → Makes t o
      → Reaches t (elim o [ none ↦ raises (os_message "mkdir" raw) | some made ↦ safe made ])
  unfolding Reaches Makes
  raised_or_made-Reaches t raw none h = tt
  raised_or_made-Reaches t raw (some made) h = h

  with_parent-Reaches :
      (mode : Mode) (raw : String) (t : Tree) (ks : List String)
      → Reaches t (with_parent os_message mode raw t ks)
  unfolding Reaches with_parent SameFiles Makes
  with_parent-Reaches existing raw t ks = λ j. refl
  with_parent-Reaches create_parent raw t ks =
      raised_or_made-Reaches t raw (make_parents (some t) ks)
        (make_parents-Makes t (some t) ks (λ j. refl))

  unlinked-Reaches :
      (t : Tree) (raw : String) (target : Target)
      → Reaches t target
      → Reaches t (unlinked os_message raw target)
  unfolding Reaches unlinked
  unlinked-Reaches t raw (unsafe e) h = tt
  unlinked-Reaches t raw (raises e) h = tt
  unlinked-Reaches t raw (safe made) h =
      if_cases (Reaches t) (is_link (get made (as_posix raw)))
        (unsafe ("unsafe symlink patch target: " ++ raw)) (safe made) (λ e. tt) (λ e. h)

  located-Reaches :
      (mode : Mode) (t : Tree) (raw : String) (ps : List String)
      → Reaches t (located os_message mode t raw ps)
  unfolding Reaches located below_parent
  located-Reaches mode t raw [] = tt
  located-Reaches mode t raw (part ∷ rest) =
      let ks = ancestors_between "" (part ∷ rest) in
      let found = unlinked os_message raw (with_parent os_message mode raw t ks) in
      let linked = unsafe ("unsafe symlink ancestor in patch path: " ++ raw) in
      if_cases (Reaches t) (parent_within t ks) (if links_on_way t ks then linked else found)
        (unsafe ("unsafe patch parent outside sandbox: " ++ raw))
        (λ e.
          if_cases (Reaches t) (links_on_way t ks) linked found (λ f. tt)
            (λ f.
              unlinked-Reaches t raw (with_parent os_message mode raw t ks)
                (with_parent-Reaches mode raw t ks)))
        (λ e. tt)

  pub safe_patch_target-Reaches :
      (mode : Mode) (t : Tree) (raw : String) → Reaches t (safe_patch_target os_message mode t raw)
  unfolding safe_patch_target Reaches
  safe_patch_target-Reaches mode t raw =
      if_cases (Reaches t) (unsafe_path raw) (unsafe ("unsafe patch path: " ++ raw))
        (located os_message mode t raw (parts raw)) (λ e. tt)
        (λ e. located-Reaches mode t raw (parts raw))
