-- ===== src/Upload/Manager.antt =====
-- `RemoteUploadManager`: the entries of its three directories, and its operations on them. What
-- Git, the hash and the start of an agent answer, and the times, are arguments. The operations run
-- one at a time, under the publication lock or the start lock. A directory in the managed storage
-- resolves to itself.
pub mod Reached
pub mod Sound
use tgent.Prelude.{
  ℕ, ◌-◌, String, Bool, true, false, not, ◌&&◌, ◌||◌, Option, none, some, List, [], ◌∷◌, ◌++◌, ltb,
  leb, nat_eq, if◌then◌else◌, ◌==◌,
}
use tgent.Result.{Result, ok, err, Error, upload_error, os_error}
use tgent.Dict.{Dict, lookup, insert, erase}
use tgent.Json.{Json, int, str, obj, Fields, pos, get_value}
use tgent.Protocol.Ids.{is_valid_id, mem_text}

-- What `lstat` tells of an entry, and whether a directory has entries.
pub record Entry : Type 0 where
  pub is_directory : Bool
  pub is_link : Bool
  pub empty : Bool
  pub mtime : ℕ

-- The bundle of a continuation: `None` before it has been transferred.
pub record Bundle : Type 0 where
  pub regular : Bool
  pub size : ℕ
  pub digest : String

-- A directory below `sync`.
pub record Sync : Type 0 where
  pub agent_id : String
  pub bundle : Option Bundle

pub record Uploads : Type 0 where
  pub incoming : Dict Entry
  pub completed : Dict Entry
  pub sync : Dict Sync

-- A new directory.
abbrev pub fresh : ℕ → Entry
fresh now = record { is_directory = true; is_link = false; empty = true; mtime = now }

abbrev pub has {ℓ} : {V : Type ℓ} → String → Dict V → Bool
has k d = elim (lookup k d) [ none ↦ false | some _ ↦ true ]

abbrev pub refuse {ℓ} : {A : Type ℓ} → String → Uploads → Result A × Uploads
refuse text u = (err (upload_error text), u)

-- `create_incoming`
unfoldable pub create_incoming : String → ℕ → Uploads → Result String × Uploads
create_incoming upload_id now u =
    if not (is_valid_id upload_id)
    then refuse "Invalid upload identifier" u
    else if has upload_id u.completed || has upload_id u.incoming
    then refuse "Upload identifier already exists" u
    else (ok upload_id, record u { incoming = insert upload_id (fresh now) u.incoming })

-- `prepare_upload_handler`
unfoldable pub prepare_upload : Json → ℕ → Uploads → Result String × Uploads
unfolding create_incoming
prepare_upload (str upload_id) now u = create_incoming upload_id now u
prepare_upload _ now u = refuse "Invalid validated upload request" u

-- the move of an entry to `completed`
abbrev pub seal : String → Option Entry → Uploads → Result String × Uploads
seal upload_id none u = refuse "Upload directory does not exist" u
seal upload_id (some entry) u =
    if not entry.is_directory || entry.empty
    then refuse "Upload must be a non-empty real directory" u
    else (
      ok upload_id,
      record u {
        incoming = erase upload_id u.incoming;
        completed = insert upload_id entry u.completed;
      },
    )

abbrev pub finalize : String → Uploads → Result String × Uploads
finalize upload_id u =
    if not (is_valid_id upload_id)
    then refuse "Invalid upload identifier" u
    else if has upload_id u.completed
    then refuse "Upload is already finalized" u
    else seal upload_id (lookup upload_id u.incoming) u

-- `finalize_upload_handler`
unfoldable pub finalize_upload : Json → Uploads → Result String × Uploads
finalize_upload (str upload_id) u = finalize upload_id u
finalize_upload _ u = refuse "Invalid validated upload request" u

module _ {A : Type 0} where
  -- the upload is removed only when the agent has been started
  abbrev pub consumed : String → Result A → Uploads → Result A × Uploads
  consumed upload_id (ok a) u = (ok a, record u { completed = erase upload_id u.completed })
  consumed upload_id (err e) u = (err e, u)

  abbrev pub start_entry :
      String → (String → Result A) → Option Entry → Uploads → Result A × Uploads
  start_entry upload_id start_agent none u = refuse "Upload directory does not exist" u
  start_entry upload_id start_agent (some entry) u =
      if not entry.is_directory
      then refuse "Upload path must be a real directory" u
      else if entry.empty
      then refuse "Upload directory is empty" u
      else consumed upload_id (start_agent upload_id) u

  -- `publish_and_snapshot`: an `incoming` entry that is a link refuses too
  unfoldable pub publish_and_snapshot : String → (String → Result A) → Uploads → Result A × Uploads
  publish_and_snapshot upload_id create_snapshot u =
      if not (is_valid_id upload_id)
      then refuse "Invalid upload identifier" u
      else if elim (lookup upload_id u.incoming) [ none ↦ false | some entry ↦ entry.is_link ]
      then refuse "Upload path must be a real directory" u
      else start_entry upload_id create_snapshot (lookup upload_id u.completed) u

  -- `start_handler`
  unfoldable pub start : Json → Json → (Fields → String → Result A) → Uploads → Result A × Uploads
  unfolding publish_and_snapshot
  start (str upload_id) (obj request) start_agent u =
      publish_and_snapshot upload_id (start_agent request) u
  start _ _ start_agent u = refuse "Invalid validated start request" u

  abbrev pub start_checked : String → (String → Result A) → Uploads → Result A × Uploads
  start_checked upload_id start_agent u =
      if not (is_valid_id upload_id)
      then refuse "Invalid upload identifier" u
      else start_entry upload_id start_agent (lookup upload_id u.completed) u

  -- `start_async_handler`
  unfoldable pub start_async :
      Json → Json → (Fields → String → Result A) → Uploads → Result A × Uploads
  start_async (str upload_id) (obj request) start_agent u =
      start_checked upload_id (start_agent request) u
  start_async _ _ start_agent u = refuse "Invalid validated start request" u

-- the entries that are kept, and the names of those that are removed
unfoldable pub sweep : ℕ → Dict Entry → Dict Entry × List String
sweep cutoff [] = ([], [])
sweep cutoff ((name, entry) ∷ entries) =
    let (kept, removed) = sweep cutoff entries in
    if not entry.is_directory || ltb cutoff entry.mtime
    then ((name, entry) ∷ kept, removed)
    else (kept, name ∷ removed)

abbrev bad_age : Uploads → Result (List String) × Uploads
bad_age u = refuse "older_than_seconds must be an integer of at least 60" u

-- `cleanup_abandoned`, at a time that is not before the age
unfoldable pub cleanup_abandoned : Json → ℕ → Uploads → Result (List String) × Uploads
unfolding sweep
cleanup_abandoned (int (pos age)) now u =
    if ltb age 60
    then bad_age u
    else let (incoming, removed) = sweep (now - age) u.incoming in
      let (completed, removed') = sweep (now - age) u.completed in
      (ok (removed ++ removed'), record u { incoming = incoming; completed = completed })
cleanup_abandoned _ now u = bad_age u

-- `prepare_sync`
unfoldable pub prepare_sync : String → String → Uploads → Result String × Uploads
prepare_sync agent_id sync_id u =
    if not (is_valid_id agent_id) || not (is_valid_id sync_id)
    then refuse "Invalid upload identifier" u
    else if has sync_id u.sync
    then (err (os_error "File exists"), u)
    else (
      ok sync_id,
      record u { sync = insert sync_id (record { agent_id = agent_id; bundle = none }) u.sync },
    )

-- What Git and the file system tell of a repository and a bundle: whether the path is a directory,
-- how `git bundle verify` ends, and the first words of the lines of `git bundle list-heads`.
pub record Checked : Type 0 where
  pub is_directory : Bool
  pub verified : Result (Unit {0})
  pub heads : Result (List String)

abbrev has_head : String → Result (List String) → Result (Unit {0})
has_head base_commit (err e) = err e
has_head base_commit (ok heads) =
    if mem_text base_commit heads
    then ok tt
    else err (upload_error "Bundle does not contain the declared base commit")

abbrev repository_tests : String → Checked → Result (Unit {0})
repository_tests base_commit c =
    if not c.is_directory
    then err (upload_error "Continuation verification path is not a Git repository directory")
    else elim c.verified [ ok _ ↦ has_head base_commit c.heads | err e ↦ err e ]

abbrev sync_bundle : ℕ → String → Option Bundle → Result (Unit {0})
sync_bundle size digest none = err (os_error "No such file or directory")
sync_bundle size digest (some bundle) =
    if not bundle.regular || (not (nat_eq bundle.size size) || not (bundle.digest == digest))
    then err (upload_error "Continuation bundle size or digest mismatch")
    else ok tt

-- the tests of `finalize_sync`
abbrev pub sync_tests : String → ℕ → String → String → Checked → Option Sync → Result (Unit {0})
sync_tests agent_id size digest base_commit c none = err (os_error "No such file or directory")
sync_tests agent_id size digest base_commit c (some s) =
    if not (s.agent_id == agent_id)
    then err (upload_error "Invalid continuation sync directory")
    else elim (sync_bundle size digest s.bundle) [
      | ok _ ↦ repository_tests base_commit c
      | err e ↦ err e
    ]

abbrev pub sync_end : String → String → Result (Unit {0}) → Uploads → Result String × Uploads
sync_end sync_id base_commit (ok _) u = (ok base_commit, u)
sync_end sync_id base_commit (err e) u = (err e, record u { sync = erase sync_id u.sync })

-- `finalize_sync`: the directory is removed where a test fails
unfoldable pub finalize_sync :
    String → String → ℕ → String → String → Checked → Uploads → Result String × Uploads
unfolding mem_text
finalize_sync agent_id sync_id size digest base_commit c u =
    if not (is_valid_id agent_id) || not (is_valid_id sync_id)
    then refuse "Invalid upload identifier" u
    else sync_end sync_id base_commit
        (sync_tests agent_id size digest base_commit c (lookup sync_id u.sync)) u
