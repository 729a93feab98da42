-- ===== src/Upload/Manager/Reached.antt =====
-- The uploads that the operations and the clients' transfers can lead to.
use tgent.Prelude.{ℕ, String, true, ◌≡◌, []}
use tgent.Result.{Result}
use tgent.Dict.{insert}
use tgent.Json.{Json, Fields}
use tgent.Upload.Manager.{
  Entry, Sync, Uploads, Checked, has, prepare_upload, finalize_upload, publish_and_snapshot, start,
  start_async, cleanup_abandoned, prepare_sync, finalize_sync,
}

-- One operation of the manager, or one transfer of a client into a directory that is there.
pub data Step (u : Uploads) : Uploads → Type 0 where
  prepared : (upload_id : Json) (now : ℕ) → Step u (prepare_upload upload_id now u).1
  transferred :
      (upload_id : String) (entry : Entry)
      → has upload_id u.incoming ≡ true
      → Step u (record u { incoming = insert upload_id entry u.incoming })
  finalized : (upload_id : Json) → Step u (finalize_upload upload_id u).1
  published :
      (upload_id : String) (create_snapshot : String → Result Json)
      → Step u (publish_and_snapshot upload_id create_snapshot u).1
  started :
      (upload_id request : Json) (start_agent : Fields → String → Result Json)
      → Step u (start_async upload_id request start_agent u).1
  served :
      (upload_id request : Json) (start_agent : Fields → String → Result Json)
      → Step u (start upload_id request start_agent u).1
  cleaned : (age : Json) (now : ℕ) → Step u (cleanup_abandoned age now u).1
  sync_prepared : (agent_id sync_id : String) → Step u (prepare_sync agent_id sync_id u).1
  bundled : (sync_id : String) (s : Sync) → Step u (record u { sync = insert sync_id s u.sync })
  sync_finalized :
      (agent_id sync_id : String) (size : ℕ) (digest base_commit : String) (c : Checked)
      → Step u (finalize_sync agent_id sync_id size digest base_commit c u).1

pub data Reached : Uploads → Type 0 where
  empty : Reached (record { incoming = []; completed = []; sync = [] })
  next : {u v : Uploads} → Reached u → Step u v → Reached v
