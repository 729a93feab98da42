-- ===== src/Store/Files.antt =====
-- The operations of `AgentStore`.
pub mod Laws
use Prim.Native.String.{◌++◌ as text_append}
use tgent.Prelude.{
  ℕ, String, Bool, true, false, not, ◌&&◌, ◌||◌, Option, none, some, List, [], ◌∷◌, ◌++◌, leb, len,
  head_char, all_chars, is_alnum, nat_eq, if◌then◌else◌,
}
use tgent.Result.{Result, ok, err, Error, store_error, os_error, ◌>>=◌, ◌>>◌, raise_if}
use tgent.Json.{Fields}
use tgent.Dict.{Dict, lookup, insert, erase}
use tgent.Protocol.Ids.{is_word_char}
use tgent.Store.Metadata.{Metadata}

-- `st_mtime_ns` and `st_size` of the history file
abbrev pub Version : Type 0
Version = ℕ × ℕ

-- The files of one agent's directory: metadata.json, history.json with its version, and
-- history_summary.json, if it is there, with the version that it was written for.
pub record Stored : Type 0 where
  pub metadata : Metadata
  pub history : List Fields
  pub version : Version
  pub summary : Option (Version × String)

abbrev pub Store : Type 0
Store = Dict Stored

-- `AGENT_ID_RE`
unfoldable pub is_agent_id : String → Bool
is_agent_id s = head_char is_alnum s && (all_chars is_word_char s && leb (len s) 80)

unfoldable pub validate_agent_id : String → Result String
validate_agent_id s = if is_agent_id s then ok s else err (store_error "Invalid agent_id")

abbrev or_unknown {ℓ} : {A : Type ℓ} → Option A → String → Result A
or_unknown none text = err (store_error text)
or_unknown (some a) text = ok a

-- the directory of an agent, if its metadata can be read
abbrev pub is_some {ℓ} : {A : Type ℓ} → Option A → Bool
is_some none = false
is_some (some a) = true

unfoldable pub find : String → Store → Result Stored
unfolding validate_agent_id
find agent_id store = do
  id ← validate_agent_id agent_id
  or_unknown (lookup id store) "Unknown agent (metadata not found)"

unfoldable pub get_metadata : String → Store → Result Metadata
unfolding find
get_metadata agent_id store = do stored ← find agent_id store; ok stored.metadata

-- `update_metadata`: the update is given as a function, and the time is noted
unfoldable pub update_metadata :
    String → (Metadata → Metadata) → ℕ → Store → Result (Metadata × Store)
unfolding find
update_metadata agent_id updates now store = do
  stored ← find agent_id store
  let metadata = record (updates stored.metadata) { updated_at = now }
  ok (metadata, insert agent_id (record stored { metadata = metadata }) store)

unfoldable pub get_history : String → Store → Result (List Fields)
unfolding validate_agent_id
get_history agent_id store = do
  id ← validate_agent_id agent_id
  stored ← or_unknown (lookup id store) (text_append "Unknown agent: " agent_id)
  ok stored.history

-- `append_history`, where the write succeeds: it gives the history file a new version, and the
-- summary is unlinked
unfoldable pub append_history :
    String → List Fields → Version → Store → Result (List Fields × Store)
unfolding validate_agent_id
append_history agent_id messages version store = do
  id ← validate_agent_id agent_id
  stored ← or_unknown (lookup id store) (text_append "Unknown agent: " agent_id)
  let history = stored.history ++ messages
  ok (
    history,
    insert id (record stored { history = history; version = version; summary = none }) store,
  )

-- The directory of an agent that is being created, with the files that it holds so far, and the
-- directories: those of the agents, and those that hold only a part of an agent's files.
pub record Directory : Type 0 where
  pub metadata : Option Metadata
  pub history : Option (List Fields × Version)

pub record Disk : Type 0 where
  pub agents : Store
  pub incomplete : Dict Directory

abbrev empty_directory : Directory
empty_directory = record { metadata = none; history = none }

-- `agent_dir.exists()`
unfoldable pub exists : String → Disk → Bool
exists id disk = is_some (lookup id disk.agents) || is_some (lookup id disk.incomplete)

-- the two writes, given their outcomes; the second is tried only after the first has succeeded
unfoldable pub write_files :
    Metadata
    → List Fields
    → Version
    → Result (Unit {0})
    → Result (Unit {0})
    → Directory
    → Result (Unit {0}) × Directory
write_files m history version (err e) written directory = (err e, directory)
write_files m history version (ok done) (err e) directory =
    (err e, record directory { metadata = some m })
write_files m history version (ok done) (ok written) directory =
    (ok tt, record directory { metadata = some m; history = some (history, version) })

-- `child.unlink(missing_ok=True)` of every child
unfoldable pub unlink_children : Directory → Directory
unlink_children directory = record directory { metadata = none; history = none }

-- The directory stays on the disk with the files that it holds.
unfoldable pub place :
    String → Directory → Option Metadata → Option (List Fields × Version) → Disk → Disk
place id directory (some m) (some (history, version)) disk = record disk {
  agents =
      insert id (record { metadata = m; history = history; version = version; summary = none })
        disk.agents;
}
place id directory _ _ disk = record disk { incomplete = insert id directory disk.incomplete }

-- `agent_dir.rmdir()`, which a file in the directory prevents, and the `raise` behind it
unfoldable pub remove_directory :
    String
    → Error
    → Directory
    → Option Metadata
    → Option (List Fields × Version)
    → Disk
    → Result (Unit {0}) × Disk
remove_directory id e directory none none disk = (err e, disk)
remove_directory id e directory metadata history disk =
    (err (os_error "Directory not empty"), place id directory metadata history disk)

-- the end of the `try` and its handler
unfoldable pub finish_create :
    String → Result (Unit {0}) × Directory → Disk → Result (Unit {0}) × Disk
unfolding place unlink_children remove_directory
finish_create id (ok done, directory) disk =
    (ok tt, place id directory directory.metadata directory.history disk)
finish_create id (err e, directory) disk =
    let left = unlink_children directory in
    remove_directory id e left left.metadata left.history disk

-- `create`: `made`, `first` and `second` are the outcomes of making the directory and of the two
-- writes
unfoldable pub create :
    String
    → Metadata
    → List Fields
    → Version
    → Result (Unit {0})
    → Result (Unit {0})
    → Result (Unit {0})
    → Disk
    → Result (Unit {0}) × Disk
unfolding validate_agent_id exists write_files finish_create
create agent_id metadata history version made first second disk =
    elim (do
      id ← validate_agent_id agent_id
      raise_if (exists id disk) (store_error (text_append "Agent already exists: " agent_id))
      made
      ok id) [
        | err e ↦ (err e, disk)
        | ok id ↦
            finish_create id (write_files metadata history version first second empty_directory)
              disk
      ]

unfoldable pub remove : String → Store → Result Store
unfolding validate_agent_id
remove agent_id store = do
  id ← validate_agent_id agent_id
  or_unknown (lookup id store)
      (text_append "Refusing to remove invalid agent state directory: " agent_id)
  ok (erase id store)

same_version : Version → Version → Bool
same_version (t, n) (t', n') = nat_eq t t' && nat_eq n n'

-- the cached summary, if it was written for the history as it is now
abbrev current : Option (Version × String) → Version → Option String
current none v = none
current (some (w, s)) v = if same_version w v then some s else none

abbrev summary_of : Option Stored → Option String
summary_of none = none
summary_of (some stored) = current stored.summary stored.version

-- `get_cached_summary`: an agent that is unknown has none
unfoldable pub get_cached_summary : String → Store → Result (Option String)
unfolding validate_agent_id same_version
get_cached_summary agent_id store = do
  id ← validate_agent_id agent_id
  ok (summary_of (lookup id store))

-- `self.history_path(agent_id).stat()`, for the version
abbrev or_missing {ℓ} : {A : Type ℓ} → Option A → Result A
or_missing none = err (os_error "No such file or directory")
or_missing (some a) = ok a

unfoldable pub cache_summary : String → String → Store → Result Store
unfolding validate_agent_id
cache_summary agent_id summary store = do
  id ← validate_agent_id agent_id
  stored ← or_missing (lookup id store)
  ok (insert id (record stored { summary = some (stored.version, summary) }) store)
