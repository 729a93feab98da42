-- ===== src/Config/Remote.antt =====
-- `RemoteAgentConfig` and `load_remote_agent_config`. The TOML file, parsed, is an argument; its
-- values are given as JSON values.
use Prim.Native.String.{◌++◌ as text_append}
use tgent.Prelude.{
  ℕ, String, Bool, not, ◌||◌, [], ◌∷◌, any, all_chars, any_char, head_char, is_alnum, ltb, nat_eq,
  if◌then◌else◌, ◌==◌,
}
use tgent.Result.{Result, ok, err, config_error, ◌>>◌, raise_if}
use tgent.Json.{Json, str, obj, keys, get_value}
use tgent.Protocol.Ids.{same_set}
use tgent.Paths.{FilePath, path_of, path_text, path_eq, child, split_on}

pub record RemoteAgentConfig : Type 0 where
  pub ssh_host : String
  pub remote_base_dir : FilePath

abbrev pub is_host_start : ℕ → Bool
is_host_start c = is_alnum c || nat_eq c b'_'

-- `_HOST_CHARACTERS`
abbrev pub is_host_char : ℕ → Bool
is_host_char c =
    is_alnum c || (nat_eq c b'_' || (nat_eq c b'.' || (nat_eq c b'@' || nat_eq c b'-')))

-- `ord(char) < 32 or ord(char) == 127`; a null character is one of them
abbrev pub is_control : ℕ → Bool
is_control c = ltb c 32 || nat_eq c 127

-- `part in {".", ".."}`
abbrev pub is_dots : String → Bool
is_dots part = part == "." || part == ".."

abbrev pub starts_with_slash : String → Bool
starts_with_slash text = head_char (λ c. nat_eq c b'/') text

-- `__post_init__`
unfoldable pub post_init : String → FilePath → Result RemoteAgentConfig
post_init ssh_host base = do
  raise_if (not (head_char is_host_start ssh_host) || not (all_chars is_host_char ssh_host))
      (config_error "ssh_host must be a valid SSH host alias or user@host")
  raise_if (not (starts_with_slash (path_text base)))
      (config_error "remote_base_dir must be an absolute POSIX path")
  raise_if (any_char is_control (path_text base))
      (config_error "remote_base_dir contains invalid control characters")
  raise_if (any is_dots (split_on b'/' (path_text base)))
      (config_error "remote_base_dir must not contain '.' or '..' components")
  raise_if (path_eq (path_of (path_text base)) (path_of "/"))
      (config_error "remote_base_dir must not be the filesystem root")
  ok (record { ssh_host = ssh_host; remote_base_dir = path_of (path_text base) })

-- the managed directories
abbrev pub runtime_dir : RemoteAgentConfig → FilePath
runtime_dir c = child c.remote_base_dir "runtime"

abbrev pub uploads_dir : RemoteAgentConfig → FilePath
uploads_dir c = child c.remote_base_dir "uploads"

abbrev pub state_dir : RemoteAgentConfig → FilePath
state_dir c = child c.remote_base_dir "state"

abbrev pub snapshots_dir : RemoteAgentConfig → FilePath
snapshots_dir c = child c.remote_base_dir "snapshots"

abbrev pub logs_dir : RemoteAgentConfig → FilePath
logs_dir c = child c.remote_base_dir "logs"

abbrev pub patches_dir : RemoteAgentConfig → FilePath
patches_dir c = child c.remote_base_dir "patches"

-- How the reading of the file ends.
pub data Loaded : Type 0 where
  missing : Loaded
  unreadable : String → Loaded
  parsed : Json → Loaded

abbrev of_texts : Json → Json → Result RemoteAgentConfig
of_texts (str host) (str base) = post_init host (path_of base)
of_texts _ _ = err (config_error "ssh_host and remote_base_dir must be strings")

abbrev exactly : Result RemoteAgentConfig
exactly =
    err (config_error "Remote agent config must contain exactly 'ssh_host' and 'remote_base_dir'")

abbrev of_value : Json → Result RemoteAgentConfig
of_value (obj fs) =
    if not (same_set (keys fs) ("ssh_host" ∷ "remote_base_dir" ∷ []))
    then exactly
    else of_texts (get_value "ssh_host" fs) (get_value "remote_base_dir" fs)
of_value _ = exactly

-- `load_remote_agent_config`
unfoldable pub load_remote_agent_config : String → Loaded → Result RemoteAgentConfig
unfolding post_init
load_remote_agent_config path missing =
    err (config_error (text_append "Remote agent config does not exist: " path))
load_remote_agent_config path (unreadable reason) = err (
    config_error
      (text_append "Cannot read remote agent config " (text_append path (text_append ": " reason))))
load_remote_agent_config path (parsed value) = of_value value
