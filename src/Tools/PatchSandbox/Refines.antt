-- ===== src/Tools/PatchSandbox/Refines.antt =====
-- The operations of a patch set refine the edits of its files.
use Prim.Native.String.{◌++◌ as ◌⧺◌}
use cognitive_evolve.Prelude.{
  String, ◌≡◌, refl, sym, arith, eq_iff, true, false, if_cases, Option, none, some, get, put, ◌==◌,
  if◌then◌else◌,
}
use cognitive_evolve.Candidates.Merge.{PatchOperation}
use cognitive_evolve.Tools.PatchPath.{as_posix, occurs_in, replace_text, universal_newlines}
use cognitive_evolve.Tools.SandboxTree.{
  Node, file, folder, symlink, Tree, file_at, node_text, Target, unsafe, raises, safe, existing,
  create_parent, safe_patch_target,
}
use cognitive_evolve.Tools.SandboxTree.Reached.{
  SameFiles, SameFiles-refl, Reaches, safe_patch_target-Reaches, file_at-put_file, file_at-remove,
}
use cognitive_evolve.Tools.PatchSandbox.{
  Performed, fails, performs, on_target, perform, delete_in, write_in, append_in, replace_in,
  delete_at, write_at, append_at, replace_at, replace_read,
}
use cognitive_evolve.Tools.PatchSandbox.Files.{edited, edit, append_content, replace_content}

-- The files after an operation: edited if it was done, as they were if not.
unfoldable pub Refines : PatchOperation → Tree → Performed → Type 0
Refines op t p =
    (j : String) → file_at p.tree j ≡ (if p.done then edit op (file_at t) j else file_at t j)

pub fails-Refines :
    (op : PatchOperation) (t made : Tree) (message : String)
    → SameFiles made t
    → Refines op t (fails made message)
unfolding Refines SameFiles
fails-Refines op t made message h j = h j

-- A tree that holds a text for the operation's path.
put-Refines :
    (op : PatchOperation) (t made : Tree) (content message : String)
    → SameFiles made t
    → edited op (file_at t (as_posix op.path)) ≡ some content
    → Refines op t (performs (put made (as_posix op.path) (file content)) message)
unfolding Refines SameFiles edit
put-Refines op t made content message h e j =
    ground (
      arith,
      file_at-put_file made (as_posix op.path) j content,
      h j,
      e,
      eq_iff (as_posix op.path) j,
    )

pub on_target-Refines :
    (os_message : (call path : String) → String) (op : PatchOperation) (t : Tree)
    (f : Tree → Performed) (target : Target)
    → Reaches t target
    → ((made : Tree) → SameFiles made t → Refines op t (f made))
    → Refines op t (on_target os_message f t target)
unfolding Reaches on_target SameFiles
on_target-Refines os_message op t f (unsafe e) h g = fails-Refines op t t e (λ j. refl)
on_target-Refines os_message op t f (raises e) h g = fails-Refines op t t e (λ j. refl)
on_target-Refines os_message op t f (safe made) h g = g made h

module _ (os_message : (call path : String) → String) (op : PatchOperation) (t : Tree) where
  delete_at-Refines :
      (made : Tree) (o : Option Node)
      → get made (as_posix op.path) ≡ o
      → SameFiles made t
      → (op.operation == "delete") ≡ true
      → Refines op t (delete_at os_message op made o)
  unfolding Refines SameFiles delete_at edit edited file_at node_text
  delete_at-Refines made none e h d j = ground (arith, h j, e, d, eq_iff (as_posix op.path) j)
  delete_at-Refines made (some folder) e h d j = h j
  delete_at-Refines made (some (file x)) e h d j =
      ground (arith, h j, d, file_at-remove made (as_posix op.path) j)
  delete_at-Refines made (some (symlink x)) e h d j =
      ground (arith, h j, d, file_at-remove made (as_posix op.path) j)

  edited_write :
      (op.operation == "delete") ≡ false
      → (op.operation == "write") ≡ true
      → edited op (file_at t (as_posix op.path)) ≡ some op.content
  unfolding edited
  edited_write d w = ground (arith, d, w)

  edited_append :
      (made : Tree) (o : Option Node)
      → get made (as_posix op.path) ≡ o
      → SameFiles made t
      → (op.operation == "delete") ≡ false
      → (op.operation == "write") ≡ false
      → (op.operation == "append") ≡ true
      → edited op (file_at t (as_posix op.path)) ≡ append_content op.content (node_text o)
  unfolding edited SameFiles file_at
  edited_append made o e h d w a = rw (d, w, a, sym (h (as_posix op.path)), e) refl

  edited_replace :
      (made : Tree) (x : String)
      → get made (as_posix op.path) ≡ some (file x)
      → SameFiles made t
      → (op.operation == "delete") ≡ false
      → (op.operation == "write") ≡ false
      → (op.operation == "append") ≡ false
      → edited op (file_at t (as_posix op.path))
        ≡ some (replace_text op.old_text op.new_text (universal_newlines x))
  unfolding edited SameFiles file_at node_text replace_content
  edited_replace made x e h d w a = rw (d, w, a, sym (h (as_posix op.path)), e) refl

  write_at-Refines :
      (made : Tree) (o : Option Node)
      → SameFiles made t
      → (op.operation == "delete") ≡ false
      → (op.operation == "write") ≡ true
      → Refines op t (write_at os_message op made o)
  unfolding write_at
  write_at-Refines made (some folder) h d w = fails-Refines op t made (os_message "open" op.path) h
  write_at-Refines made none h d w = put-Refines op t made op.content "written" h (edited_write d w)
  write_at-Refines made (some (file x)) h d w =
      put-Refines op t made op.content "written" h (edited_write d w)
  write_at-Refines made (some (symlink x)) h d w =
      put-Refines op t made op.content "written" h (edited_write d w)

  append_at-Refines :
      (made : Tree) (o : Option Node)
      → get made (as_posix op.path) ≡ o
      → SameFiles made t
      → (op.operation == "delete") ≡ false
      → (op.operation == "write") ≡ false
      → (op.operation == "append") ≡ true
      → Refines op t (append_at os_message op made o)
  unfolding append_at append_content node_text
  append_at-Refines made (some folder) e h d w a =
      fails-Refines op t made (os_message "open" op.path) h
  append_at-Refines made none e h d w a =
      put-Refines op t made op.content "appended" h (edited_append made none e h d w a)
  append_at-Refines made (some (file x)) e h d w a =
      put-Refines op t made (x ⧺ op.content) "appended" h
        (edited_append made (some (file x)) e h d w a)
  append_at-Refines made (some (symlink x)) e h d w a =
      put-Refines op t made op.content "appended" h
        (edited_append made (some (symlink x)) e h d w a)

  replace_at-Refines :
      (made : Tree) (o : Option Node)
      → get made (as_posix op.path) ≡ o
      → SameFiles made t
      → (op.operation == "delete") ≡ false
      → (op.operation == "write") ≡ false
      → (op.operation == "append") ≡ false
      → Refines op t (replace_at os_message op made o)
  unfolding replace_at replace_read
  replace_at-Refines made none e h d w a =
      fails-Refines op t made ("replace target missing: " ⧺ op.path) h
  replace_at-Refines made (some folder) e h d w a =
      fails-Refines op t made (os_message "open" op.path) h
  replace_at-Refines made (some (symlink x)) e h d w a =
      fails-Refines op t made (os_message "open" op.path) h
  replace_at-Refines made (some (file x)) e h d w a =
      let read = universal_newlines x in
      let new = replace_text op.old_text op.new_text read in
      if_cases (Refines op t) (occurs_in op.old_text read)
        (performs (put made (as_posix op.path) (file new)) "replaced")
        (fails made ("old_text not found in " ⧺ op.path))
        (λ f. put-Refines op t made new "replaced" h (edited_replace made x e h d w a))
        (λ f. fails-Refines op t made ("old_text not found in " ⧺ op.path) h)

  delete_in-Refines : (op.operation == "delete") ≡ true → Refines op t (delete_in os_message op t)
  unfolding delete_in
  delete_in-Refines d =
      let key = as_posix op.path in
      on_target-Refines os_message op t (λ made. delete_at os_message op made (get made key))
        (safe_patch_target os_message existing t op.path)
        (safe_patch_target-Reaches os_message existing t op.path)
        (λ made h. delete_at-Refines made (get made key) refl h d)

  write_in-Refines :
      (op.operation == "delete") ≡ false
      → (op.operation == "write") ≡ true
      → Refines op t (write_in os_message op t)
  unfolding write_in
  write_in-Refines d w =
      let key = as_posix op.path in
      on_target-Refines os_message op t (λ made. write_at os_message op made (get made key))
        (safe_patch_target os_message create_parent t op.path)
        (safe_patch_target-Reaches os_message create_parent t op.path)
        (λ made h. write_at-Refines made (get made key) h d w)

  append_in-Refines :
      (op.operation == "delete") ≡ false
      → (op.operation == "write") ≡ false
      → (op.operation == "append") ≡ true
      → Refines op t (append_in os_message op t)
  unfolding append_in
  append_in-Refines d w a =
      let key = as_posix op.path in
      on_target-Refines os_message op t (λ made. append_at os_message op made (get made key))
        (safe_patch_target os_message create_parent t op.path)
        (safe_patch_target-Reaches os_message create_parent t op.path)
        (λ made h. append_at-Refines made (get made key) refl h d w a)

  replace_in-Refines :
      (op.operation == "delete") ≡ false
      → (op.operation == "write") ≡ false
      → (op.operation == "append") ≡ false
      → Refines op t (replace_in os_message op t)
  unfolding replace_in
  replace_in-Refines d w a =
      let key = as_posix op.path in
      on_target-Refines os_message op t (λ made. replace_at os_message op made (get made key))
        (safe_patch_target os_message existing t op.path)
        (safe_patch_target-Reaches os_message existing t op.path)
        (λ made h. replace_at-Refines made (get made key) refl h d w a)

  pub perform-Refines : Refines op t (perform os_message op t)
  unfolding perform
  perform-Refines =
      let unsupported = fails t ("unsupported patch operation: " ⧺ op.operation) in
      let replaced = replace_in os_message op t in
      let last = if op.operation == "replace" then replaced else unsupported in
      let appended = append_in os_message op t in
      let third = if op.operation == "append" then appended else last in
      let written = write_in os_message op t in
      let second = if op.operation == "write" then written else third in
      if_cases (Refines op t) (op.operation == "delete") (delete_in os_message op t) second
        delete_in-Refines
        (λ d.
          if_cases (Refines op t) (op.operation == "write") written third (write_in-Refines d) (λ w.
            if_cases (Refines op t) (op.operation == "append") appended last (append_in-Refines d w)
              (λ a.
                if_cases (Refines op t) (op.operation == "replace") replaced unsupported
                  (λ r. replace_in-Refines d w a)
                  (λ r.
                    fails-Refines op t t ("unsupported patch operation: " ⧺ op.operation)
                      (SameFiles-refl t)))))
