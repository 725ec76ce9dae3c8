-- ===== src/Tools/SandboxCopy.antt =====
-- tools/patch_sandbox.py: which entries of the source tree `prepare` copies, with the names that
-- inputs/project_snapshot.py ignores. `matches` is fnmatch.fnmatch and `lower` str.lower.
pub mod Copied
mod Tests
use Prim.Native.Char.{code}
use Prim.Native.String
use cognitive_evolve.Prelude.{
  String, Bool, true, false, not, ◌||◌, ◌&&◌, Option, none, some, List, [], ◌∷◌, get, contains, eqb,
  ◌==◌, if◌then◌else◌,
}
use cognitive_evolve.Tools.PatchPath.{parts, ancestors_between}
use cognitive_evolve.Tools.SandboxTree.{is_link, Tree}

-- IGNORE_DIRS
abbrev pub ignore_dirs : List String
ignore_dirs =
    ".git" ∷ "__pycache__" ∷ ".pytest_cache" ∷ ".mypy_cache" ∷ ".ruff_cache" ∷ "node_modules"
    ∷ "dist" ∷ "build" ∷ ".venv" ∷ "venv" ∷ "api-runs" ∷ "runs" ∷ []

-- GENERATED_SUFFIXES
abbrev generated_suffixes : List String
generated_suffixes = ".pyc" ∷ ".pyo" ∷ ".so" ∷ ".dll" ∷ ".dylib" ∷ ".class" ∷ ".o" ∷ []

-- _SANDBOX_SENSITIVE_NAMES, with SENSITIVE_FILE_NAMES
abbrev pub sandbox_sensitive_names : List String
sandbox_sensitive_names =
    ".env" ∷ ".netrc" ∷ ".npmrc" ∷ ".pypirc" ∷ "id_rsa" ∷ "id_dsa" ∷ "id_ecdsa" ∷ "id_ed25519"
    ∷ "known_hosts" ∷ ".env.development" ∷ ".env.local" ∷ ".env.production" ∷ ".env.test"
    ∷ "access-token.txt" ∷ "credentials.json" ∷ "secrets.json" ∷ "service-account.json"
    ∷ "service-secret.json" ∷ []

-- _SANDBOX_SENSITIVE_PATTERNS
abbrev sandbox_sensitive_patterns : List String
sandbox_sensitive_patterns =
    ".env.*.local" ∷ "*.crt" ∷ "*.key" ∷ "*.kubeconfig" ∷ "*.p12" ∷ "*.pem" ∷ "*.pfx" ∷ "*key*.json"
    ∷ "*keys*" ∷ []

unfoldable pub meets : List String → List String → Bool
meets [] names = false
meets (part ∷ rest) names = contains names part || meets rest names

-- path.name
unfoldable pub last_part : List String → String
last_part [] = ""
last_part (part ∷ []) = part
last_part (part ∷ next ∷ rest) = last_part (next ∷ rest)

-- The name from its last point on, none if it has no point.
from_last_point : String → Option String
from_last_point String.[] = none
from_last_point (String.◌∷◌ c s) = elim (from_last_point s) [
  | some found ↦ some found
  | none ↦ if eqb (code c) b'.' then some (String.◌∷◌ c s) else none
]

or_no_suffix : Option String → String
or_no_suffix none = ""
or_no_suffix (some s) = if s == "." then "" else s

-- path.suffix: none if the name's last point is its first character or its last.
unfoldable pub suffix : String → String
unfolding from_last_point or_no_suffix
suffix String.[] = ""
suffix (String.◌∷◌ c s) = or_no_suffix (from_last_point s)

module _ (matches : String → String → Bool) (lower : String → String) where
  match_any : String → String → List String → Bool
  match_any name relative [] = false
  match_any name relative (pattern ∷ rest) =
      matches name pattern || matches relative pattern || match_any name relative rest

  -- `_sandbox_copy_ignored`, of a path below the source root
  unfoldable pub sandbox_copy_ignored : Tree → String → Bool
  unfolding match_any
  sandbox_copy_ignored source path =
      is_link (get source path)
      || meets (parts path) ignore_dirs
      || contains sandbox_sensitive_names (last_part (parts path))
      || match_any (last_part (parts path)) path sandbox_sensitive_patterns
      || contains generated_suffixes (lower (suffix (last_part (parts path))))

  -- `_sandbox_copy_ignore` for one name; `sandbox_root` is the path of the sandboxes below the
  -- source root, empty if they are elsewhere. What lies below an ignored path is not walked.
  unfoldable pub ignored : Tree → (sandbox_root : String) → String → Bool
  ignored source sandbox_root path =
      sandbox_copy_ignored source path || (not (sandbox_root == "") && (path == sandbox_root))

  any_ignored : Tree → (sandbox_root : String) → List String → Bool
  any_ignored source sandbox_root [] = false
  any_ignored source sandbox_root (path ∷ rest) =
      ignored source sandbox_root path || any_ignored source sandbox_root rest

  -- Whether copytree leaves a path out.
  unfoldable pub left_out : Tree → (sandbox_root : String) → String → Bool
  unfolding any_ignored
  left_out source sandbox_root path =
      any_ignored source sandbox_root (ancestors_between "" (parts path))
      || ignored source sandbox_root path

  copy_entries : Tree → (sandbox_root : String) → Tree → Tree
  copy_entries source sandbox_root [] = []
  copy_entries source sandbox_root (entry ∷ rest) =
      let copied = copy_entries source sandbox_root rest in
      if left_out source sandbox_root entry.0 then copied else (entry ∷ copied)

  -- The tree that `prepare` leaves of a candidate's sandbox.
  unfoldable pub prepare_sandbox : Tree → (sandbox_root : String) → Tree
  unfolding copy_entries
  prepare_sandbox source sandbox_root = copy_entries source sandbox_root source
