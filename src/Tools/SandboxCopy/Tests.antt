-- ===== src/Tools/SandboxCopy/Tests.antt =====
-- Copies of small trees.
use cognitive_evolve.Prelude.{
  String, ◌≡◌, refl, Bool, true, false, some, [], ◌∷◌, get, contains, ◌==◌,
}
use cognitive_evolve.Tools.PatchPath.{parts, ancestors_between}
use cognitive_evolve.Tools.SandboxTree.{is_link, file, folder, symlink, Tree}
use cognitive_evolve.Tools.SandboxCopy.{
  ignore_dirs, sandbox_sensitive_names, meets, last_part, suffix, sandbox_copy_ignored, ignored,
  left_out, prepare_sandbox,
}
use cognitive_evolve.Tools.SandboxCopy.Copied.{get-prepare_sandbox}

abbrev same_text : String → String → Bool
same_text path pattern = path == pattern

abbrev keep_case : String → String
keep_case name = name

abbrev source : Tree
source =
    ("src", folder)
    ∷ ("src/a.py", file "a")
    ∷ ("src/a.pyc", file "b")
    ∷ ("src/.env", file "KEY")
    ∷ (".git", folder)
    ∷ (".git/config", file "c")
    ∷ ("link", symlink true)
    ∷ ("box", folder)
    ∷ ("box/c1", folder)
    ∷ []

program : Unit {0}
unfolding get parts ancestors_between meets last_part suffix is_link sandbox_copy_ignored ignored
    left_out prepare_sandbox
program = tt

prepared_source :
    prepare_sandbox same_text keep_case source "box"
    ≡ (("src", folder) ∷ ("src/a.py", file "a") ∷ [])
unfolding program
prepared_source = refl

suffixes : (suffix ".env" ≡ "") × (suffix "a.tar.gz" ≡ ".gz") × (suffix "a." ≡ "")
unfolding program
suffixes = (refl, refl, refl)

kept : get (prepare_sandbox same_text keep_case source "box") "src/a.py" ≡ some (file "a")
unfolding program
kept = refl

get-prepare_sandbox_example :
    (get source "src/a.py" ≡ some (file "a"))
    × (is_link (some (file "a")) ≡ false)
    × (contains sandbox_sensitive_names (last_part (parts "src/a.py")) ≡ false)
    × (meets (parts "src/a.py") ignore_dirs ≡ false)
get-prepare_sandbox_example =
    get-prepare_sandbox same_text keep_case source "box" "src/a.py" (file "a") kept
