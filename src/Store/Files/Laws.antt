-- ===== src/Store/Files/Laws.antt =====
-- What the operations of the store do to the record of an agent, and to the others.
use Prim.Native.String.{◌++◌ as text_append}
use tgent.Prelude.{
  ℕ, String, true, false, refl, ◌≡◌, ◌≢◌, none, some, List, ◌++◌, arith, eq_iff, eq_refl,
  nat_eq_refl,
}
use tgent.Result.{Result, ok, err, Error, store_error}
use tgent.Json.{Fields}
use tgent.Dict.{lookup, insert, erase, lookup-insert}
use tgent.Store.Metadata.{Metadata}
use tgent.Store.Files.{
  Store, Stored, Version, is_agent_id, get_metadata, update_metadata, get_history, append_history,
  Disk, exists, create, remove, get_cached_summary, cache_summary,
}

-- The store holds the record under a valid id.
pub record Holds (agent_id : String) (s : Stored) (store : Store) : Type 0 where
  pub valid : is_agent_id agent_id ≡ true
  pub found : lookup agent_id store ≡ some s

module _ (agent_id : String) (s : Stored) (store : Store) (h : Holds agent_id s store) where
  pub get_metadata-Holds : get_metadata agent_id store ≡ ok s.metadata
  unfolding get_metadata
  get_metadata-Holds = rw (h.valid, h.found)

  pub update_metadata-Holds :
      (f : Metadata → Metadata) (now : ℕ)
      → let m = record (f s.metadata) { updated_at = now } in
        update_metadata agent_id f now store
        ≡ ok (m, insert agent_id (record s { metadata = m }) store)
  unfolding update_metadata
  update_metadata-Holds f now = rw (h.valid, h.found)

  pub insert-Holds : (t : Stored) → Holds agent_id t (insert agent_id t store)
  insert-Holds t = record { valid = h.valid; found = rw lookup-insert (rw eq_refl) }

-- The records of the other agents are as they were.
abbrev pub SameOthers : String → Store → Store → Type 0
SameOthers agent_id old new = (j : String) → agent_id ≢ j → lookup j new ≡ lookup j old

insert-SameOthers :
    (agent_id : String) (t : Stored) (store : Store)
    → SameOthers agent_id store (insert agent_id t store)
insert-SameOthers agent_id t store j ne = rw lookup-insert (ground (arith, eq_iff agent_id j))

module _ (agent_id : String) (s : Stored) (store : Store) (h : Holds agent_id s store) where
  -- Appended messages stand behind the history that there was, the cached summary is gone, and the
  -- records of the other agents are as they were.
  pub append_history_lem :
      (messages : List Fields) (version : Version)
      → (store' : Store) × (append_history agent_id messages version store
          ≡ ok (s.history ++ messages, store'))
        × (get_history agent_id store' ≡ ok (s.history ++ messages))
        × (get_cached_summary agent_id store' ≡ ok none)
        × SameOthers agent_id store store'
  unfolding append_history get_history get_cached_summary
  append_history_lem messages version =
      let t : Stored = record s {
        history = s.history ++ messages;
        version = version;
        summary = none;
      } in
      let held = insert-Holds agent_id s store h t in
      (
        insert agent_id t store,
        rw (h.valid, h.found),
        rw (h.valid, held.found),
        rw (h.valid, held.found),
        insert-SameOthers agent_id t store,
      )

  -- A summary that has just been cached is the one that is read, and the history is untouched.
  cache_summary_lem :
      (summary : String)
      → (store' : Store) × (cache_summary agent_id summary store ≡ ok store')
        × (get_cached_summary agent_id store' ≡ ok (some summary))
        × (get_history agent_id store' ≡ ok s.history)
        × SameOthers agent_id store store'
  unfolding cache_summary get_history get_cached_summary
  cache_summary_lem summary =
      let t : Stored = record s { summary = some (s.version, summary) } in
      let held = insert-Holds agent_id s store h t in
      (
        insert agent_id t store,
        rw (h.valid, h.found),
        rw (h.valid, held.found) (simp nat_eq_refl),
        rw (h.valid, held.found),
        insert-SameOthers agent_id t store,
      )

-- What creating an agent comes to, for all outcomes of its steps.
pub record IsCreated (agent_id : String) (m : Metadata) (history : List Fields) (version : Version)
    (disk : Disk) : Type 0 where
  pub created : Disk
  pub succeeds : create agent_id m history version (ok tt) (ok tt) (ok tt) disk ≡ (ok tt, created)
  pub metadata : get_metadata agent_id created.agents ≡ ok m
  pub messages : get_history agent_id created.agents ≡ ok history
  pub no_summary : get_cached_summary agent_id created.agents ≡ ok none
  pub others : SameOthers agent_id disk.agents created.agents
  pub incomplete : created.incomplete ≡ disk.incomplete
  pub not_made :
      (first second : Result (Unit {0})) (e : Error)
      → create agent_id m history version (err e) first second disk ≡ (err e, disk)
  pub no_metadata :
      (second : Result (Unit {0})) (e : Error)
      → create agent_id m history version (ok tt) (err e) second disk ≡ (err e, disk)
  pub no_history :
      (e : Error) → create agent_id m history version (ok tt) (ok tt) (err e) disk ≡ (err e, disk)
  pub not_again :
      (n : Metadata) (messages : List Fields) (w : Version) (made first second : Result (Unit {0}))
      → create agent_id n messages w made first second created
        ≡ (err (store_error (text_append "Agent already exists: " agent_id)), created)

-- A new agent is created with its metadata and its history and without a summary, and the records
-- of the others are as they were, if its directory can be made and both files can be written. If
-- one of these three steps fails its error is raised and nothing is left behind: the records are as
-- they were, and so are the directories with a part of an agent's files. An agent that has been
-- created is not created again.
pub create_lem :
    (agent_id : String) (m : Metadata) (history : List Fields) (version : Version) (disk : Disk)
    → is_agent_id agent_id ≡ true
    → exists agent_id disk ≡ false
    → IsCreated agent_id m history version disk
unfolding create get_metadata get_history get_cached_summary
create_lem agent_id m history version disk valid absent =
    let t : Stored = record {
      metadata = m;
      history = history;
      version = version;
      summary = none;
    } in
    let found : lookup agent_id (insert agent_id t disk.agents) ≡ some t =
      rw lookup-insert (rw eq_refl) in
    record {
      created = record disk { agents = insert agent_id t disk.agents };
      succeeds = rw (create, valid, absent);
      metadata = rw (valid, found);
      messages = rw (valid, found);
      no_summary = rw (valid, found);
      others = insert-SameOthers agent_id t disk.agents;
      incomplete = refl;
      not_made = λ first second e. rw (create, valid, absent);
      no_metadata = λ second e. rw (create, valid, absent);
      no_history = λ e. rw (create, valid, absent);
      not_again = λ n messages w made first second. rw (create, valid, exists, found);
    }

-- A removal that returns has erased the record.
pub remove-eq-ok :
    (agent_id : String) (store store' : Store)
    → remove agent_id store ≡ ok store'
    → store' ≡ erase agent_id store
unfolding remove
remove-eq-ok agent_id store store' e = ground (arith)
