-- ===== src/Sandbox/Mounts.antt =====
-- The tests of `build_sandbox_command` on every place that is mounted: the project, the runtime
-- mounts and links, and the home mounts.
use Prim.Native.String.{◌++◌ as text_append}
use tgent.Prelude.{String, Bool, not, ◌&&◌, ◌||◌, List, [], ◌∷◌, ◌++◌, map, any, ◌==◌}
use tgent.Result.{Result, ok, sandbox_error, ◌>>=◌, ◌>>◌, raise_if}
use tgent.Paths.{FilePath, Host, path_of, path_text, path_eq, path_mem, is_absolute, anchor, join}
use tgent.Paths.Within.{path_is_within}
use tgent.Sandbox.Layout.{RuntimeMount, system_dirs}

-- A home mount: its resolved source, its target and whether it is read-only.
pub record HomeMount : Type 0 where
  pub source : FilePath
  pub target : FilePath
  pub read_only : Bool

-- one of two places is inside the other
abbrev pub overlap : FilePath → FilePath → Bool
overlap p q = path_is_within p q || path_is_within q p

-- `protected_targets`
abbrev pub protected_targets : List FilePath
protected_targets = map path_of (system_dirs ++ ("/etc" ∷ "/dev" ∷ "/proc" ∷ "/tmp" ∷ "/run" ∷ []))

-- a project below /tmp is safe
abbrev pub endangers : FilePath → FilePath → Bool
endangers project_target protected =
    let inside = path_is_within project_target protected in
    let is_private_tmp = path_eq protected (path_of "/tmp") && inside in
    path_is_within protected project_target || (inside && not is_private_tmp)

-- `for protected in protected_targets`
unfoldable pub check_protected : FilePath → Result (Unit {0})
check_protected project_target =
    raise_if (any (endangers project_target) protected_targets)
      (sandbox_error "Project mount overlaps a protected sandbox system path")

module _ (h : Host) (project_target : FilePath) where
  open h use {resolve, resolve_strict, expanduser, is_file, is_dir, is_symlink, exists}

  -- the body of `for mount in runtime_layout.mounts`, with `runtime_targets`
  unfoldable pub check_mount : RuntimeMount → List FilePath → Result RuntimeMount
  check_mount mount targets = do
    source ← resolve_strict (expanduser mount.source)
    raise_if (not (is_absolute mount.target) || path_eq mount.target (anchor mount.target)) (
        sandbox_error
          (text_append "Invalid sandbox runtime mount target: " (path_text mount.target)))
    raise_if (not (is_file source) && not (is_dir source)) (
        sandbox_error (
          text_append "Trusted runtime source is not a regular file or directory: "
            (path_text source)))
    raise_if (path_eq source (anchor source))
        (sandbox_error "Refusing to mount the filesystem root as a runtime source")
    raise_if
        (is_dir source
          && (path_eq mount.target project_target || path_is_within project_target mount.target))
        (sandbox_error (
          text_append "Trusted runtime directory contains or replaces project mount: "
            (path_text mount.target)))
    raise_if (any (overlap mount.target) targets) (
        sandbox_error
          (text_append "Overlapping sandbox runtime mount targets: " (path_text mount.target)))
    ok (record { source = source; target = mount.target })

  -- `for mount in runtime_layout.mounts`
  unfoldable pub check_runtime : List RuntimeMount → List FilePath → Result (List RuntimeMount)
  unfolding check_mount
  check_runtime [] targets = ok []
  check_runtime (mount ∷ mounts) targets = do
    checked ← check_mount mount targets
    rest ← check_runtime mounts (mount.target ∷ targets)
    ok (checked ∷ rest)

  -- the body of `for relative, read_only in [...]`
  unfoldable pub check_one : FilePath → FilePath → FilePath → Bool → Result HomeMount
  check_one home_root home_target relative read_only = do
    let source = join home_root relative
    raise_if (is_symlink source || (not (exists source) || not (is_file source || is_dir source))) (
        sandbox_error (
          text_append "Authorized home mount is missing or not a regular file/directory: "
            (path_text source)))
    raise_if (not (path_is_within (resolve source) home_root)) (
        sandbox_error (
          text_append "Authorized home mount resolves outside home directory: " (path_text source)))
    raise_if (overlap (join home_target relative) project_target)
        (sandbox_error "Home mount overlaps the project mount")
    ok (record {
      source = resolve source;
      target = join home_target relative;
      read_only = read_only;
    })

  -- `for relative, read_only in [...]`
  unfoldable pub check_home : FilePath → FilePath → List (FilePath × Bool) → Result (List HomeMount)
  unfolding check_one
  check_home home_root home_target [] = ok []
  check_home home_root home_target ((relative, read_only) ∷ requests) = do
    mount ← check_one home_root home_target relative read_only
    checked ← check_home home_root home_target requests
    ok (mount ∷ checked)

-- `for target, link_target in runtime_layout.symlinks`, with `symlink_targets`
unfoldable pub check_links :
    List FilePath → List (FilePath × String) → List FilePath → Result (Unit {0})
check_links runtime_targets [] seen = ok tt
check_links runtime_targets ((target, link_target) ∷ links) seen = do
  raise_if (not (is_absolute target) || (path_eq target (anchor target) || link_target == ""))
      (sandbox_error (text_append "Invalid sandbox runtime symlink: " (path_text target)))
  raise_if (path_mem target seen || any (overlap target) runtime_targets) (
      sandbox_error (
        text_append "Sandbox runtime symlink overlaps another runtime target: " (path_text target)))
  check_links runtime_targets links (target ∷ seen)

abbrev apart_from : HomeMount → List HomeMount → Result (Unit {0})
apart_from m [] = ok tt
apart_from m (n ∷ ms) = do
  raise_if (overlap m.target n.target) (
      sandbox_error (
        text_append "Overlapping home mount targets: "
          (text_append (path_text m.target) (text_append " and " (path_text n.target)))))
  apart_from m ms

-- the pairs of home mounts
unfoldable pub check_apart : List HomeMount → Result (Unit {0})
check_apart [] = ok tt
check_apart (m ∷ ms) = do apart_from m ms; check_apart ms

-- the pairs of a runtime mount and a home mount
unfoldable pub check_runtime_apart : List RuntimeMount → List HomeMount → Result (Unit {0})
check_runtime_apart [] homes = ok tt
check_runtime_apart (m ∷ ms) homes = do
  raise_if (any (λ (home : HomeMount). overlap m.target home.target) homes) (
      sandbox_error (
        text_append "Trusted runtime mount overlaps an authorized home mount: "
          (path_text m.target)))
  check_runtime_apart ms homes
