-- ===== src/Tools/SandboxTree.antt =====
-- tools/patch_sandbox.py: the tree of a sandbox, and the guards of a patch's target in it.
-- A tree is an association list from relative POSIX paths to what stands there. A link is live:
-- what it points at exists, within the sandbox or not; `prepare` copies no link, and no operation
-- makes one. Files hold text. `os_message` is the text of the operating system for a call that
-- fails on a path.
pub mod Reached
use Prim.Native.String.{◌++◌}
use cognitive_evolve.Prelude.{
  String, Bool, true, false, Option, none, some, List, [], ◌∷◌, Dict, get, put, ◌==◌, if◌then◌else◌,
}
use cognitive_evolve.Tools.PatchPath.{parts, as_posix, join_parts, ancestors_between, unsafe_path}

pub data Node : Type 0 where
  file : (content : String) → Node
  folder : Node
  symlink : (inside : Bool) → Node

abbrev pub Tree : Type 0
Tree = Dict Node

-- path.unlink()
unfoldable pub remove : Tree → String → Tree
remove [] k = []
remove ((j, entry) ∷ t) k = let rest = remove t k in if j == k then rest else (j, entry) ∷ rest

unfoldable pub node_text : Option Node → Option String
node_text (some (file text)) = some text
node_text _ = none

-- The text of the file at a path.
unfoldable pub file_at : Tree → String → Option String
unfolding node_text
file_at t path = node_text (get t path)

-- What the guards of a target answer: an error, an OSError that is raised, or the tree in which the
-- target may be opened.
pub data Target : Type 0 where
  unsafe : (guard_error : String) → Target
  raises : (message : String) → Target
  safe : Tree → Target

leads_out : Option Node → Bool
leads_out (some (symlink false)) = true
leads_out _ = false

-- _path_within(parent, sandbox_root), of the directories of the parent
unfoldable pub parent_within : Tree → List String → Bool
unfolding leads_out
parent_within t [] = true
parent_within t (k ∷ ks) = if leads_out (get t k) then false else parent_within t ks

unfoldable pub is_link : Option Node → Bool
is_link (some (symlink inside)) = true
is_link _ = false

-- The loop over the ancestors: true if one is a link. Below directories that are none, an ancestor
-- is within the sandbox.
unfoldable pub links_on_way : Tree → List String → Bool
unfolding is_link
links_on_way t [] = false
links_on_way t (k ∷ ks) = if is_link (get t k) then true else links_on_way t ks

-- parent.mkdir(parents=True, exist_ok=True), from the outermost missing directory on; none if a
-- file stands where a directory should.
make_parent : Tree → String → Option Node → Option Tree
make_parent t k none = some (put t k folder)
make_parent t k (some folder) = some t
make_parent t k (some entry) = none

unfoldable pub make_parents : Option Tree → List String → Option Tree
unfolding make_parent
make_parents none ks = none
make_parents (some t) [] = some t
make_parents (some t) (k ∷ ks) = make_parents (make_parent t k (get t k)) ks

-- The mode of the call: `create_parent`, or `allow_missing`, which the body does not tell from the
-- default.
pub data Mode : Type 0 where
  existing : Mode
  create_parent : Mode

module _ (os_message : (call path : String) → String) where
  -- if create_parent: ..., for the directories of the parent
  with_parent : Mode → String → Tree → List String → Target
  with_parent existing raw t ks = safe t
  with_parent create_parent raw t ks = elim (make_parents (some t) ks) [
    | none ↦ raises (os_message "mkdir" raw)
    | some made ↦ safe made
  ]

  unlinked : String → Target → Target
  unfolding is_link
  unlinked raw (safe t) =
      if is_link (get t (as_posix raw))
      then unsafe ("unsafe symlink patch target: " ++ raw)
      else safe t
  unlinked raw target = target

  below_parent : Mode → Tree → String → List String → Target
  unfolding with_parent unlinked
  below_parent mode t raw ks =
      if parent_within t ks
      then if links_on_way t ks
        then unsafe ("unsafe symlink ancestor in patch path: " ++ raw)
        else unlinked raw (with_parent mode raw t ks)
      else unsafe ("unsafe patch parent outside sandbox: " ++ raw)

  -- A path without parts is the sandbox itself, whose parent is outside.
  located : Mode → Tree → String → List String → Target
  unfolding below_parent
  located mode t raw [] = unsafe ("unsafe patch parent outside sandbox: " ++ raw)
  located mode t raw (part ∷ rest) = below_parent mode t raw (ancestors_between "" (part ∷ rest))

  -- `_safe_patch_target`
  unfoldable pub safe_patch_target : Mode → Tree → String → Target
  unfolding located
  safe_patch_target mode t raw =
      if unsafe_path raw
      then unsafe ("unsafe patch path: " ++ raw)
      else located mode t raw (parts raw)

-- The walk of `_source_path_uses_symlink` over the paths that lead to a file.
meets_link : Tree → List String → Bool
meets_link source [] = false
meets_link source (k ∷ ks) = elim (get source k) [
  | none ↦ false
  | some entry ↦ elim entry [ symlink inside ↦ true | _ ↦ meets_link source ks ]
]

-- The paths that lead to a file, its own the last.
way : String → List String → List String
way base [] = []
way base (part ∷ []) = (base ++ part) ∷ []
way base (part ∷ next ∷ rest) = (base ++ part) ∷ way (base ++ part ++ "/") (next ∷ rest)

-- `_source_path_uses_symlink`
unfoldable pub source_path_uses_symlink : Tree → String → Bool
unfolding meets_link way
source_path_uses_symlink source raw =
    if unsafe_path raw then false else meets_link source (way "" (parts raw))
