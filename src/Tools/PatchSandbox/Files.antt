-- ===== src/Tools/PatchSandbox/Files.antt =====
-- The operations of a patch set as edits of a function from paths to texts.
use Prim.Native.String.{◌++◌}
use cognitive_evolve.Prelude.{
  String, ◌≡◌, refl, Option, none, some, List, [], ◌∷◌, ◌==◌, if◌then◌else◌,
}
use cognitive_evolve.Candidates.Merge.{PatchOperation}
use cognitive_evolve.Tools.PatchPath.{as_posix, replace_text, universal_newlines}

-- What the files of a tree are to its user.
abbrev pub Files : Type 0
Files = String → Option String

unfoldable pub append_content : String → Option String → Option String
append_content content none = some content
append_content content (some text) = some (text ++ content)

unfoldable pub replace_content : PatchOperation → Option String → Option String
replace_content op none = none
replace_content op (some text) =
    some (replace_text op.old_text op.new_text (universal_newlines text))

-- What an operation means for the file at its path.
unfoldable pub edited : PatchOperation → Option String → Option String
edited op text =
    if op.operation == "delete"
    then none
    else if op.operation == "write"
    then some op.content
    else if op.operation == "append"
    then append_content op.content text
    else replace_content op text

-- An operation changes the file at its path, and no other.
unfoldable pub edit : PatchOperation → Files → Files
edit op files path = if as_posix op.path == path then edited op (files path) else files path

unfoldable pub replay : List PatchOperation → Files → Files
replay [] files = files
replay (op ∷ ops) files = replay ops (edit op files)

pub edit-agrees :
    (op : PatchOperation) (f g : Files) (j : String)
    → ((i : String) → f i ≡ g i)
    → edit op f j ≡ edit op g j
unfolding edit
edit-agrees op f g j h = rw (h j) refl

pub replay-agrees :
    (ops : List PatchOperation) (f g : Files) (j : String)
    → ((i : String) → f i ≡ g i)
    → replay ops f j ≡ replay ops g j
unfolding replay
replay-agrees [] f g j h = h j
replay-agrees (op ∷ ops) f g j h =
    replay-agrees ops (edit op f) (edit op g) j (λ i. edit-agrees op f g i h)
