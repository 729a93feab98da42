-- ===== src/Tests/Sandboxes.antt =====
-- A sandbox, the configuration of a project and uploads at concrete inputs.
use tgent.Prelude.{String, true, false, ◌≡◌, refl, none, some, List, [], ◌∷◌, All, any_char}
use tgent.Result.{ok}
use tgent.Paths.{
  FilePath, Host, path_of, path_text, path_eq, path_mem, relative_to, sort_by, texts_eq,
  strip_parts, split_on, kept, components, anchor_of, join_texts, text_leb,
}
use tgent.Paths.Within.{path_is_within}
use tgent.Sandbox.Arguments.{Argument, words, all_words}
use tgent.Sandbox.Requests.{relative_home_path, relative_paths, difference, authorize}
use tgent.Sandbox.Mounts.{
  check_protected, check_mount, check_runtime, check_one, check_home, check_links, check_apart,
  check_runtime_apart,
}
use tgent.Sandbox.Command.{
  Request, SandboxCommand, make_dirs, add_parent_dirs, add_links, add_runtime, add_home,
  check_variable, add_env, check_places, chosen_layout, build_arguments, sandbox_arguments,
  build_sandbox_command,
}
use tgent.Sandbox.Command.Reader.{read_command_line}
use tgent.Sandbox.Command.Confined.{IsIsolated, IsAllowed, build_sandbox_command-IsAllowed}

-- A host on which every path is a directory and no path is a link.
abbrev pub host : Host
host = record {
  resolve = λ p. p;
  resolve_strict = λ p. ok p;
  expanduser = λ p. p;
  absolute = λ p. p;
  is_file = λ p. false;
  is_dir = λ p. true;
  is_symlink = λ p. false;
  exists = λ p. true;
  is_socket = λ p. ok true;
  which = λ name. some "/usr/bin/bwrap";
  home = record { root = "/"; parts = "home" ∷ "u" ∷ [] };
}

abbrev cache : FilePath
cache = record { root = ""; parts = ".cache" ∷ [] }

abbrev usr : FilePath
usr = record { root = "/"; parts = "usr" ∷ [] }

abbrev request : Request
request = record {
  snapshot_project = record { root = "/"; parts = "snap" ∷ "p" ∷ [] };
  project_root = record { root = "/"; parts = "home" ∷ "u" ∷ "p" ∷ [] };
  home_read_only = [];
  home_read_write = cache ∷ [];
  policy = record { home_read_only = []; home_read_write = cache ∷ []; network = false };
  command = "python" ∷ [];
  bwrap = "bwrap";
  home = none;
  controller_socket = some (record { root = "/"; parts = "c.sock" ∷ [] });
  runtime_home = none;
  worker_env = ("AGENT_ID", "a1") ∷ [];
  runtime_files = [];
  runtime_dirs = [];
  runtime_layout = some (record {
    mounts = record { source = usr; target = usr } ∷ [];
    symlinks = (record { root = "/"; parts = "bin" ∷ [] }, "usr/bin") ∷ [];
  });
}

abbrev command_line : List String
command_line =
    "/usr/bin/bwrap" ∷ "--die-with-parent" ∷ "--new-session" ∷ "--unshare-all" ∷ "--clearenv"
    ∷ "--symlink" ∷ "usr/bin" ∷ "/bin" ∷ "--dev" ∷ "/dev" ∷ "--proc" ∷ "/proc" ∷ "--tmpfs" ∷ "/tmp"
    ∷ "--tmpfs" ∷ "/run" ∷ "--dir" ∷ "/etc" ∷ "--dir" ∷ "/home" ∷ "--tmpfs" ∷ "/home/u" ∷ "--bind"
    ∷ "/snap/p" ∷ "/home/u/p" ∷ "--ro-bind" ∷ "/usr" ∷ "/usr" ∷ "--bind" ∷ "/home/u/.cache"
    ∷ "/home/u/.cache" ∷ "--bind" ∷ "/c.sock" ∷ "/run/agent-controller.sock" ∷ "--setenv" ∷ "HOME"
    ∷ "/home/u" ∷ "--setenv" ∷ "PATH" ∷ "/usr/local/bin:/usr/bin:/bin" ∷ "--setenv"
    ∷ "AGENT_CONTROLLER_SOCKET" ∷ "/run/agent-controller.sock" ∷ "--setenv" ∷ "AGENT_ID" ∷ "a1"
    ∷ "--chdir" ∷ "/home/u/p" ∷ "--" ∷ "python" ∷ []

abbrev command : SandboxCommand
command = record {
  argv = command_line;
  project_path = record { root = "/"; parts = "home" ∷ "u" ∷ "p" ∷ [] };
  home_path = record { root = "/"; parts = "home" ∷ "u" ∷ [] };
}

command_built : build_sandbox_command host request ≡ ok command
unfolding build_sandbox_command check_places sandbox_arguments relative_paths relative_home_path
    difference authorize sort_by path_mem path_eq texts_eq path_text join_texts any_char
    check_protected path_is_within relative_to strip_parts path_of anchor_of components split_on
    kept chosen_layout check_runtime check_mount check_links check_home check_one check_apart
    check_runtime_apart build_arguments add_links add_parent_dirs make_dirs add_runtime add_home
    add_env check_variable all_words words text_leb
command_built = refl

build_sandbox_command-IsAllowed_example :
    (as' : List Argument) × (read_command_line command_line ≡ some (as', "python" ∷ []))
    × IsIsolated host request as'
    × All (IsAllowed host request) as'
build_sandbox_command-IsAllowed_example = build_sandbox_command-IsAllowed host request command_built
