-- ===== src/Config/Project.antt =====
-- `load_project_config` of agent_project.py. The TOML file, parsed, is an argument, whose values
-- are given as JSON values; `str.casefold` is a parameter.
pub mod Safe
use Prim.Native.String.{◌++◌ as text_append}
use tgent.Prelude.{
  ℕ, suc, String, Bool, true, false, not, ◌&&◌, ◌||◌, Option, none, some, List, [], ◌∷◌, ◌++◌, map,
  any, decimal, nat_eq, if◌then◌else◌, ◌==◌,
}
use tgent.Result.{Result, ok, err, project_error, ◌>>=◌, ◌>>◌, raise_if}
use tgent.Json.{
  Json, int, str, arr, obj, bool, null, float, Items, nil, cons, Fields, end, pos, get, keys,
}
use tgent.Protocol.Ids.{mem_text}
use tgent.Paths.{
  FilePath, Host, path_of, path_text, path_eq, path_mem, join, parent, is_absolute, relative_to,
  split_on, join_texts, sort_by, text_leb,
}
use tgent.Sandbox.Requests.{is_special, has_unsafe_char}

pub record ProjectConfig : Type 0 where
  pub root : FilePath
  pub home_read_only : List FilePath
  pub home_read_write : List FilePath

-- `_SENSITIVE_COMPONENTS | _SENSITIVE_FILENAMES`
abbrev pub sensitive : List String
sensitive =
    ".aws" ∷ ".azure" ∷ ".gnupg" ∷ ".kube" ∷ ".ssh" ∷ ".terraform.d" ∷ "credentials" ∷ "secrets"
    ∷ ".netrc" ∷ ".npmrc" ∷ ".pypirc" ∷ "id_dsa" ∷ "id_ecdsa" ∷ "id_ed25519" ∷ "id_rsa" ∷ []

-- two neighbours are `.config` and `gcloud`
unfoldable pub has_gcloud : List String → Bool
has_gcloud [] = false
has_gcloud (part ∷ parts) =
    elim parts [ [] ↦ false | next ∷ _ ↦ part == ".config" && next == "gcloud" ] || has_gcloud parts

-- the test on the parts of a resolved path below the home directory
unfoldable pub is_sensitive : (String → String) → List String → Bool
unfolding has_gcloud mem_text
is_sensitive casefold parts =
    any (λ part. mem_text part sensitive) (map casefold parts) || has_gcloud (map casefold parts)

-- `set(value) - allowed`
unfoldable pub unknown_keys : List String → List String → List String
unfolding mem_text
unknown_keys [] allowed = []
unknown_keys (k ∷ ks) allowed =
    let rest = unknown_keys ks allowed in if mem_text k allowed then rest else k ∷ rest

abbrev refuse_unknown : String → List String → Result (Unit {0})
refuse_unknown section [] = ok tt
refuse_unknown section (k ∷ ks) = err (
    project_error (
      text_append "Unknown key(s) in "
        (text_append section (text_append ": " (join_texts ", " (k ∷ ks))))))

-- `_require_keys`
unfoldable pub require_keys : Fields → List String → String → Result (Unit {0})
unfolding unknown_keys
require_keys fs allowed section =
    refuse_unknown section (sort_by (λ k. k) (unknown_keys (keys fs) allowed))

-- a path and its parents
unfoldable pub prefixes : List String → List (List String)
prefixes [] = [] ∷ []
prefixes (part ∷ parts) = [] ∷ map (λ prefix. part ∷ prefix) (prefixes parts)

abbrev pub with_parents : FilePath → List FilePath
with_parents p = map (λ parts. record { root = p.root; parts = parts }) (prefixes p.parts)

-- `f"{setting}[{index}]{text}"`
abbrev at : String → ℕ → String → String
at setting index text =
    text_append setting (text_append "[" (text_append (decimal index) (text_append "]" text)))

abbrev pub or_outside : String → ℕ → Option (List String) → Result (List String)
or_outside setting index none =
    err (project_error (at setting index " resolves outside the home directory"))
or_outside setting index (some parts) = ok parts

abbrev pub text_item : String → ℕ → Json → Result String
text_item setting index (str item) =
    if item == ""
    then err (
        project_error (
          at setting index
            " must be a non-empty string representing a normalized home-relative path"))
    else ok item
text_item setting index _ = err (
    project_error
      (at setting index " must be a non-empty string representing a normalized home-relative path"))

module _ (h : Host) (casefold : String → String) (home_root : FilePath) where
  open h use {resolve, is_file, is_dir, is_symlink, exists}

  -- a link on the way to a path, the parent of the home directory left out
  abbrev pub has_link : FilePath → Bool
  has_link p = any (λ q. is_symlink q && not (path_eq q (parent home_root))) (with_parents p)

  -- the tests on one path, with the resolved paths seen so far
  unfoldable pub check_item : String → ℕ → String → List FilePath → Result FilePath
  unfolding is_sensitive
  check_item setting index item seen = do
    raise_if
        (is_absolute (path_of item)
          || (has_unsafe_char item || any is_special (split_on b'/' item)))
        (project_error (at setting index " must be a normalized home-relative path"))
    let unresolved = join home_root (path_of item)
    raise_if (has_link unresolved)
        (project_error (at setting index (text_append " must not contain symlinks: " item)))
    parts ← or_outside setting index (relative_to (resolve unresolved) home_root)
    raise_if (is_sensitive casefold parts)
        (project_error (at setting index (text_append " requests a sensitive home path: " item)))
    raise_if (not (exists (resolve unresolved)))
        (project_error (at setting index (text_append " does not exist: " item)))
    raise_if (not (is_file (resolve unresolved) || is_dir (resolve unresolved))) (
        project_error
          (at setting index (text_append " must be a regular file or directory: " item)))
    raise_if (path_mem (resolve unresolved) seen)
        (project_error (text_append setting (text_append " contains a duplicate path: " item)))
    ok (path_of item)

  -- `for index, item in enumerate(value)`
  unfoldable pub check_items : String → ℕ → Items → List FilePath → Result (List FilePath)
  unfolding check_item
  check_items setting index nil seen = ok []
  check_items setting index (cons v vs) seen = do
    item ← text_item setting index v
    requested ← check_item setting index item seen
    rest ← check_items setting (suc index) vs (resolve (join home_root requested) ∷ seen)
    ok (requested ∷ rest)

  -- `_requested_paths`
  unfoldable pub requested_paths : Json → String → Result (List FilePath)
  unfolding check_items
  requested_paths (arr items) setting = check_items setting 0 items []
  requested_paths _ setting =
      err (project_error (text_append setting " must be an array of home-relative paths"))

-- How the reading of the file ends.
pub data Loaded : Type 0 where
  missing : Loaded
  refused : String → Loaded
  parsed : Fields → Loaded

abbrev pub get_or : String → Json → Fields → Json
get_or key default fs = elim (get key fs) [ none ↦ default | some v ↦ v ]

abbrev pub is_version : Json → Bool
is_version (int (pos n)) = nat_eq n 1
is_version _ = false

abbrev pub table_of : FilePath → Json → Result Fields
table_of config_path (obj fs) = ok fs
table_of config_path _ =
    err (project_error (text_append (path_text config_path) ": [home] must be a table"))

-- `p <= q` for paths: the order of their parts
unfoldable pub parts_leb : List String → List String → Bool
parts_leb [] ys = true
parts_leb (x ∷ xs) [] = false
parts_leb (x ∷ xs) (y ∷ ys) = let rest = parts_leb xs ys in if x == y then rest else text_leb x y

-- `sorted(p, *ps)[0]`
unfoldable pub least : FilePath → List FilePath → FilePath
unfolding parts_leb
least p [] = p
least p (q ∷ qs) = least (if parts_leb p.parts q.parts then p else q) qs

abbrev pub refuse_overlap : List FilePath → Result (Unit {0})
refuse_overlap [] = ok tt
refuse_overlap (p ∷ ps) = err (
    project_error (
      text_append "Home path requested with conflicting read-only and read-write permissions: "
        (path_text (least p ps))))

unfoldable pub intersection : List FilePath → List FilePath → List FilePath
intersection [] qs = []
intersection (p ∷ ps) qs = let rest = intersection ps qs in if path_mem p qs then p ∷ rest else rest

module _ (h : Host) (casefold : String → String) (root config_path home_root : FilePath) where
  -- the configuration in a parsed file
  unfoldable pub config_of : Fields → Result ProjectConfig
  unfolding require_keys requested_paths intersection
  config_of fs = do
    require_keys fs ("version" ∷ "home" ∷ []) "top level"
    raise_if (not (is_version (get_or "version" null fs)))
        (project_error (text_append (path_text config_path) ": version must be 1"))
    table ← table_of config_path (get_or "home" (obj end) fs)
    require_keys table ("read_only" ∷ "read_write" ∷ []) "[home]"
    read_only ←
        requested_paths h casefold home_root (get_or "read_only" (arr nil) table) "home.read_only"
    read_write ←
        requested_paths h casefold home_root (get_or "read_write" (arr nil) table) "home.read_write"
    refuse_overlap (intersection read_only read_write)
    ok (record { root = root; home_read_only = read_only; home_read_write = read_write })

  abbrev pub config_or : Loaded → Result ProjectConfig
  config_or missing = ok (record { root = root; home_read_only = []; home_read_write = [] })
  config_or (refused reason) = err (project_error reason)
  config_or (parsed fs) = config_of fs

-- `load_project_config`: `read` brings the parsed file at a path
unfoldable pub load_project_config :
    Host → (String → String) → (FilePath → Loaded) → FilePath → FilePath → Result ProjectConfig
unfolding config_of
load_project_config h casefold read project_root home =
    let root = h.resolve (h.expanduser project_root) in
    let config_path = join root (path_of ".agent-sandbox.toml") in
    config_or h casefold root config_path (h.resolve (h.expanduser home)) (read config_path)
