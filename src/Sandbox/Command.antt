-- ===== src/Sandbox/Command.antt =====
-- `build_sandbox_command`. Its arguments have the types that its signature names.
pub mod Reader
pub mod Kept
pub mod Granted
pub mod Confined
use Prim.Native.String.{◌++◌ as text_append}
use tgent.Prelude.{
  String, Bool, true, false, not, ◌&&◌, ◌||◌, Option, none, some, List, [], ◌∷◌, ◌++◌, map, any,
  any_char, nat_eq, if◌then◌else◌, ◌==◌,
}
use tgent.Result.{Result, ok, err, message, sandbox_error, ◌>>=◌, ◌>>◌, raise_if}
use tgent.Dict.{Dict}
use tgent.Paths.{
  FilePath, Host, path_of, path_text, path_eq, path_mem, anchor, child, parent, relative_to,
  sort_by,
}
use tgent.Paths.Within.{path_is_within}
use tgent.Sandbox.Arguments.{
  Argument, die_with_parent, new_session, unshare_all, clearenv, share_net, dir, tmpfs, dev, proc,
  chdir, symlink, bind, ro_bind, setenv, all_words,
}
use tgent.Sandbox.Layout.{RuntimeMount, RuntimeLayout, build_runtime_layout}
use tgent.Sandbox.Requests.{Policy, relative_paths, authorize}
use tgent.Sandbox.Mounts.{
  HomeMount, check_protected, check_runtime, check_links, check_home, check_apart,
  check_runtime_apart,
}

-- the arguments
pub record Request : Type 0 where
  pub snapshot_project : FilePath
  pub project_root : FilePath
  pub home_read_only : List FilePath
  pub home_read_write : List FilePath
  pub policy : Policy
  pub command : List String
  pub bwrap : String
  pub home : Option FilePath
  pub controller_socket : Option FilePath
  pub runtime_home : Option FilePath
  pub worker_env : Dict String
  pub runtime_files : List FilePath
  pub runtime_dirs : List FilePath
  pub runtime_layout : Option RuntimeLayout

pub record SandboxCommand : Type 0 where
  pub argv : List String
  pub project_path : FilePath
  pub home_path : FilePath

-- `argv` and `created_dirs`
pub record Builder : Type 0 where
  pub arguments : List Argument
  pub created : List FilePath

abbrev pub add : List Argument → Builder → Builder
add new b = record b { arguments = b.arguments ++ new }

abbrev is_empty {ℓ} : {A : Type ℓ} → List A → Bool
is_empty [] = true
is_empty (x ∷ xs) = false

-- the loop of `_add_parent_dirs`
unfoldable pub make_dirs : FilePath → List String → Builder → Builder
make_dirs current [] b = b
make_dirs current (component ∷ components) b = make_dirs (child current component) components (
    if path_mem (child current component) b.created then b else record {
      arguments = b.arguments ++ dir (path_text (child current component)) ∷ [];
      created = child current component ∷ b.created;
    })

abbrev pub below : FilePath → FilePath → Option (List String) → Builder → Result Builder
below target stop none b = err (
    sandbox_error (
      text_append "Mount target is outside sandbox base "
        (text_append (path_text stop) (text_append ": " (path_text target)))))
below target stop (some components) b = ok (make_dirs stop components b)

-- `_add_parent_dirs`
unfoldable pub add_parent_dirs : FilePath → FilePath → Builder → Result Builder
unfolding make_dirs
add_parent_dirs target stop b = below target stop (relative_to (parent target) stop) b

-- the links, the runtime mounts and the home mounts, each behind its parent directories
unfoldable pub add_links : List (FilePath × String) → Builder → Result Builder
add_links [] b = ok b
add_links ((target, link_target) ∷ links) b = do
  b' ← add_parent_dirs target (anchor target) b
  add_links links (add (symlink link_target (path_text target) ∷ []) b')

unfoldable pub add_runtime : List RuntimeMount → Builder → Result Builder
add_runtime [] b = ok b
add_runtime (mount ∷ mounts) b = do
  b' ← add_parent_dirs mount.target (anchor mount.target) b
  add_runtime mounts (add (ro_bind (path_text mount.source) (path_text mount.target) ∷ []) b')

abbrev pub home_argument : HomeMount → Argument
home_argument m =
    if m.read_only
    then ro_bind (path_text m.source) (path_text m.target)
    else bind (path_text m.source) (path_text m.target)

unfoldable pub add_home : FilePath → List HomeMount → Builder → Result Builder
add_home home_target [] b = ok b
add_home home_target (mount ∷ mounts) b = do
  b' ← add_parent_dirs mount.target home_target b
  add_home home_target mounts (add (home_argument mount ∷ []) b')

-- the tests on a variable of the worker's environment
unfoldable pub check_variable : String → String → Result (Unit {0})
check_variable name value = do
  raise_if (not (name == "AGENT_ID" || (name == "AGENT_BASE_COMMIT" || name == "PYTHONPATH")))
      (sandbox_error (text_append "Refusing unsafe worker environment variable: " name))
  raise_if (any_char (λ c. nat_eq c 0) value)
      (sandbox_error (text_append "Invalid worker environment value for " name))

-- the environment of the worker
unfoldable pub add_env : Dict String → Builder → Result Builder
unfolding check_variable
add_env [] b = ok b
add_env ((name, value) ∷ env) b = do
  check_variable name value
  add_env env (add (setenv name value ∷ []) b)

abbrev or_missing : String → Option String → Result String
or_missing name none = err (sandbox_error (text_append "Bubblewrap executable not found: " name))
or_missing name (some path) = ok path

abbrev inspected : FilePath → Result Bool → Result Bool
inspected socket (ok is_sock) = ok is_sock
inspected socket (err e) = err (
    sandbox_error (
      text_append "Cannot inspect controller socket "
        (text_append (path_text socket) (text_append ": " (message e)))))

abbrev given : Option FilePath → FilePath → FilePath
given none default = default
given (some p) default = p

abbrev pub with_flag : Bool → FilePath → FilePath × Bool
with_flag flag p = (p, flag)

module _ (h : Host) (r : Request) where
  open h use {resolve, expanduser, absolute, is_dir, is_socket, which}

  abbrev pub project_target : FilePath
  project_target = resolve r.project_root

  abbrev pub snapshot_project : FilePath
  snapshot_project = resolve r.snapshot_project

  abbrev pub home_root : FilePath
  home_root = resolve (expanduser (given r.home h.home))

  abbrev pub home_target : FilePath
  home_target = absolute (expanduser (given r.runtime_home home_root))

  -- the tests on the command and on the places of the project and of the home directory
  unfoldable pub check_places : Result String
  unfolding check_protected
  check_places = do
    raise_if (is_empty r.command || any (λ part. part == "") r.command)
        (sandbox_error "Worker command must be a non-empty argument vector")
    bwrap_path ← or_missing r.bwrap (which r.bwrap)
    raise_if (not (is_dir snapshot_project)) (
        sandbox_error
          (text_append "Snapshot project directory does not exist: " (path_text snapshot_project)))
    raise_if (path_eq project_target (anchor project_target))
        (sandbox_error "Refusing to mount a project at the filesystem root")
    raise_if (path_eq home_root (anchor home_root))
        (sandbox_error "Refusing to use the filesystem root as sandbox HOME")
    raise_if (not (path_eq home_target home_root))
        (sandbox_error "Sandbox HOME must match the host home path for path-preserving mounts")
    raise_if (path_eq project_target home_root)
        (sandbox_error "Project root cannot be the home directory itself")
    raise_if (path_is_within home_root project_target)
        (sandbox_error "Sandbox HOME cannot be inside the project mount")
    check_protected project_target
    ok bwrap_path

  abbrev layout_or : Option RuntimeLayout → Result RuntimeLayout
  layout_or none = build_runtime_layout h r.runtime_dirs r.runtime_files
  layout_or (some layout) =
      if not (is_empty r.runtime_dirs) || not (is_empty r.runtime_files)
      then err (sandbox_error "Specify runtime_layout or runtime_dirs/runtime_files, not both")
      else ok layout

  -- the runtime layout that is used
  unfoldable pub chosen_layout : Result RuntimeLayout
  chosen_layout = layout_or r.runtime_layout

  -- the socket of the controller, and what is found there
  abbrev pub bind_found : FilePath → Result Bool → Builder → Result Builder
  bind_found socket found b = do
    is_sock ← inspected socket found
    raise_if (not is_sock) (
        sandbox_error (text_append "Controller endpoint is not a Unix socket: " (path_text socket)))
    ok (add (bind (path_text socket) "/run/agent-controller.sock" ∷ []) b)

  abbrev pub socket_bind : Option FilePath → Builder → Result Builder
  socket_bind none b = ok b
  socket_bind (some socket) b =
      bind_found (absolute (expanduser socket)) (is_socket (absolute (expanduser socket))) b

  abbrev pub socket_variable : Option FilePath → List Argument
  socket_variable none = []
  socket_variable (some socket) = setenv "AGENT_CONTROLLER_SOCKET" "/run/agent-controller.sock" ∷ []

  abbrev pub first_arguments : List Argument
  first_arguments =
      (die_with_parent ∷ new_session ∷ unshare_all ∷ clearenv ∷ [])
      ++ (if r.policy.network then share_net ∷ [] else [])

  abbrev pub base_arguments : List Argument
  base_arguments = dev "/dev" ∷ proc "/proc" ∷ tmpfs "/tmp" ∷ tmpfs "/run" ∷ dir "/etc" ∷ []

  abbrev pub make_home : Builder → Builder
  make_home b = record {
    arguments = b.arguments ++ tmpfs (path_text home_root) ∷ [];
    created = home_root ∷ b.created;
  }

  -- all options, in their order
  unfoldable pub build_arguments :
      RuntimeLayout → List RuntimeMount → List HomeMount → Result Builder
  unfolding add_links add_parent_dirs add_runtime add_home add_env
  build_arguments layout runtime_mounts mounts = do
    b1 ← add_links layout.symlinks (record { arguments = first_arguments; created = [] })
    b2 ← add_parent_dirs home_root (anchor home_root) (add base_arguments b1)
    b3 ← add_parent_dirs project_target (anchor project_target) (make_home b2)
    b4 ←
        add_runtime (sort_by (λ (m : RuntimeMount). path_text m.target) runtime_mounts)
          (add (bind (path_text snapshot_project) (path_text project_target) ∷ []) b3)
    b5 ← add_home home_target (sort_by (λ (m : HomeMount). path_text m.target) mounts) b4
    b6 ← socket_bind r.controller_socket b5
    b7 ← add_env r.worker_env (
        add
          (setenv "HOME" (path_text home_target)
            ∷ (setenv "PATH" "/usr/local/bin:/usr/bin:/bin" ∷ socket_variable r.controller_socket))
          b6)
    ok (add (chdir (path_text project_target) ∷ []) b7)

  -- the options of the command line
  unfoldable pub sandbox_arguments : Result (List Argument)
  unfolding chosen_layout build_arguments
  sandbox_arguments = do
    requested_ro ← relative_paths r.home_read_only
    requested_rw ← relative_paths r.home_read_write
    allowed_ro ← relative_paths r.policy.home_read_only
    allowed_rw ← relative_paths r.policy.home_read_write
    authorize requested_ro requested_rw allowed_ro allowed_rw
    layout ← chosen_layout
    runtime_mounts ← check_runtime h project_target layout.mounts []
    check_links (map (λ (m : RuntimeMount). m.target) runtime_mounts) layout.symlinks []
    mounts ←
        check_home h project_target home_root home_target
          (map (with_flag true) requested_ro ++ map (with_flag false) requested_rw)
    check_apart mounts
    check_runtime_apart runtime_mounts mounts
    b ← build_arguments layout runtime_mounts mounts
    ok b.arguments

  -- `build_sandbox_command`
  unfoldable pub build_sandbox_command : Result SandboxCommand
  unfolding check_places sandbox_arguments
  build_sandbox_command = do
    bwrap_path ← check_places
    arguments ← sandbox_arguments
    ok (record {
      argv = bwrap_path ∷ all_words arguments ++ "--" ∷ r.command;
      project_path = project_target;
      home_path = home_target;
    })
