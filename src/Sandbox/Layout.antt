-- ===== src/Sandbox/Layout.antt =====
-- `RuntimeMount`, `SandboxRuntimeLayout` and `build_runtime_layout`.
use Prim.Native.String.{◌++◌ as text_append}
use tgent.Prelude.{
  String, Bool, not, Option, none, some, List, [], ◌∷◌, ◌++◌, any, if◌then◌else◌, ◌==◌,
}
use tgent.Result.{Result, ok, err, sandbox_error, ◌>>=◌, ◌>>◌, raise_if}
use tgent.Paths.{FilePath, Host, path_of, path_text, child, name_of}
use tgent.Paths.Within.{path_is_within}

pub record RuntimeMount : Type 0 where
  pub source : FilePath
  pub target : FilePath

-- `SandboxRuntimeLayout`; a symbolic link is its path and the text that it holds
pub record RuntimeLayout : Type 0 where
  pub mounts : List RuntimeMount
  pub symlinks : List (FilePath × String)

-- `_SYSTEM_DIRS`
abbrev pub system_dirs : List String
system_dirs = "/usr" ∷ "/lib" ∷ "/lib64" ∷ "/bin" ∷ "/sbin" ∷ []

-- `_SYSTEM_SYMLINKS.get(name)`
unfoldable pub system_symlink : String → Option String
system_symlink name =
    if name == "/bin"
    then some "usr/bin"
    else if name == "/sbin"
    then some "usr/sbin"
    else if name == "/lib"
    then some "usr/lib"
    else if name == "/lib64"
    then some "usr/lib64"
    else none

-- `x in names`
abbrev pub text_mem : String → List String → Bool
text_mem x ys = any (λ y. y == x) ys

module _ (h : Host) where
  open h use {resolve_strict, expanduser, is_file, is_dir, is_symlink}

  abbrev linked : FilePath → String → Option String → RuntimeLayout → Result RuntimeLayout
  linked source raw none layout =
      err (sandbox_error (text_append "Unsupported system mount symlink: " raw))
  linked source raw (some target) layout =
      ok (record layout { symlinks = layout.symlinks ++ (source, target) ∷ [] })

  abbrev mounted : RuntimeMount → RuntimeLayout → RuntimeLayout
  mounted mount layout = record layout { mounts = layout.mounts ++ mount ∷ [] }

  abbrev system_dir : String → RuntimeLayout → Result RuntimeLayout
  system_dir raw layout =
      let source = path_of raw in
      if is_symlink source
      then linked source raw (system_symlink raw) layout
      else ok (
          if is_dir source
          then mounted (record { source = source; target = source }) layout
          else layout)

  -- `for raw_system_dir in _SYSTEM_DIRS`
  unfoldable pub add_system_dirs : List String → RuntimeLayout → Result RuntimeLayout
  add_system_dirs [] layout = ok layout
  add_system_dirs (raw ∷ raws) layout = do
    layout' ← system_dir raw layout
    add_system_dirs raws layout'

  abbrev unless_system : FilePath → RuntimeLayout → RuntimeLayout
  unless_system source layout =
      if any (λ system. path_is_within source (path_of system)) system_dirs
      then layout
      else mounted (record { source = source; target = source }) layout

  -- `for raw_dir in runtime_dirs`
  unfoldable pub add_runtime_dirs : List FilePath → RuntimeLayout → Result RuntimeLayout
  add_runtime_dirs [] layout = ok layout
  add_runtime_dirs (raw ∷ raws) layout = do
    source ← resolve_strict (expanduser raw)
    raise_if (not (is_dir source)) (
        sandbox_error
          (text_append "Trusted runtime directory is not a directory: " (path_text source)))
    add_runtime_dirs raws (unless_system source layout)

  -- the bundle of certificates, where the host has one
  unfoldable pub add_certificates : RuntimeLayout → Result RuntimeLayout
  add_certificates layout =
      let bundle = path_of "/etc/ssl/certs/ca-certificates.crt" in
      if is_file bundle
      then (do
        source ← resolve_strict bundle
        ok (mounted (record { source = source; target = bundle }) layout))
      else ok layout

  -- `for raw_file in runtime_files`, with `names`
  unfoldable pub add_runtime_files :
      List FilePath → List String → RuntimeLayout → Result RuntimeLayout
  add_runtime_files [] names layout = ok layout
  add_runtime_files (raw ∷ raws) names layout = do
    source ← resolve_strict (expanduser raw)
    raise_if (not (is_file source)) (
        sandbox_error
          (text_append "Trusted runtime entry is not a regular file: " (path_text source)))
    raise_if (text_mem (name_of source) names) (
        sandbox_error
          (text_append "Trusted runtime files have duplicate basenames: " (name_of source)))
    add_runtime_files raws (name_of source ∷ names) (
        mounted
          (record {
            source = source;
            target = child (path_of "/opt/agent-runtime") (name_of source);
          })
          layout)

  -- `build_runtime_layout`
  unfoldable pub build_runtime_layout : List FilePath → List FilePath → Result RuntimeLayout
  unfolding add_system_dirs add_runtime_dirs add_certificates add_runtime_files
  build_runtime_layout runtime_dirs runtime_files = do
    layout ← add_system_dirs system_dirs (record { mounts = []; symlinks = [] })
    layout' ← add_runtime_dirs runtime_dirs layout
    layout'' ← add_certificates layout'
    add_runtime_files runtime_files [] layout''
