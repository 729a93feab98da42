-- ===== src/Upload/Manager/Sound.antt =====
-- What holds of the uploads that can be reached.
use tgent.Prelude.{
  ℕ, ◌-◌, String, Bool, true, false, not, ◌||◌, ◌≡◌, refl, Option, none, some, [], ◌∷◌, arith,
  eq_iff, if-elim, if◌then◌else◌, ◌==◌, not-false, ltb,
}
use tgent.Result.{Result, ok, err}
use tgent.Dict.{Dict, lookup, insert, erase, lookup-insert, lookup-erase}
use tgent.Json.{Json, int, str, obj, Fields, pos}
use tgent.Protocol.Ids.{is_valid_id}
use tgent.Upload.Manager.{
  Entry, Sync, Uploads, Checked, has, fresh, create_incoming, prepare_upload, seal, finalize,
  finalize_upload, consumed, start_entry, publish_and_snapshot, start, start_checked, start_async,
  sweep, cleanup_abandoned, prepare_sync, finalize_sync, sync_end, sync_tests,
}
use tgent.Upload.Manager.Reached.{
  Step, prepared, transferred, finalized, published, started, served, cleaned, sync_prepared,
  bundled, sync_finalized, Reached, empty, next,
}

-- Every upload has a valid identifier, and none is both incoming and completed.
pub record IsSound (u : Uploads) : Type 0 where
  pub incoming_valid : (k : String) → has k u.incoming ≡ true → is_valid_id k ≡ true
  pub completed_valid : (k : String) → has k u.completed ≡ true → is_valid_id k ≡ true
  pub apart : (k : String) → has k u.incoming ≡ true → has k u.completed ≡ false

abbrev Sound : {A : Type 0} → Result A × Uploads → Type 0
Sound p = IsSound p.1

or-false : (a b : Bool) → (a || b) ≡ false → (a ≡ false) × (b ≡ false)
or-false true b h = cc
or-false false b h = (refl, h)

module _ {V : Type 0} where
  has-insert :
      (k j : String) (v : V) (d : Dict V)
      → has j (insert k v d) ≡ (if k == j then true else has j d)
  has-insert k j v d = ground (arith, lookup-insert k j v d)

  has-erase : (k j : String) (d : Dict V) → has j (erase k d) ≡ (if k == j then false else has j d)
  has-erase k j d = ground (arith, lookup-erase k j d)

-- What is left of a directory was there.
has-sweep :
    (cutoff : ℕ) (k : String) (d : Dict Entry) → has k (sweep cutoff d).0 ≡ true → has k d ≡ true
unfolding sweep lookup
has-sweep cutoff k [] e = e
has-sweep cutoff k ((name, entry) ∷ d) e = ground (arith, has-sweep cutoff k d)

module _ (u : Uploads) (s : IsSound u) where
  -- a directory that is created or filled
  received-IsSound :
      (k : String) (entry : Entry)
      → is_valid_id k ≡ true
      → has k u.completed ≡ false
      → IsSound (record u { incoming = insert k entry u.incoming })
  received-IsSound k entry valid new = record {
    incoming_valid =
        λ j h. ground (arith, has-insert k j entry u.incoming, eq_iff k j, s.incoming_valid j);
    completed_valid = s.completed_valid;
    apart = λ j h. ground (arith, has-insert k j entry u.incoming, eq_iff k j, s.apart j);
  }

  -- a directory that is moved
  sealed-IsSound :
      (k : String) (entry : Entry)
      → is_valid_id k ≡ true
      → IsSound (record u { incoming = erase k u.incoming; completed = insert k entry u.completed })
  sealed-IsSound k entry valid = record {
    incoming_valid = λ j h. ground (arith, has-erase k j u.incoming, s.incoming_valid j);
    completed_valid =
        λ j h. ground (arith, has-insert k j entry u.completed, eq_iff k j, s.completed_valid j);
    apart = λ j h.
        ground (arith, has-erase k j u.incoming, has-insert k j entry u.completed, s.apart j);
  }

  -- a directory that is removed
  removed-IsSound : (k : String) → IsSound (record u { completed = erase k u.completed })
  removed-IsSound k = record {
    incoming_valid = s.incoming_valid;
    completed_valid = λ j h. ground (arith, has-erase k j u.completed, s.completed_valid j);
    apart = λ j h. ground (arith, has-erase k j u.completed, s.apart j);
  }

  create_incoming-IsSound : (k : String) (now : ℕ) → IsSound (create_incoming k now u).1
  unfolding create_incoming
  create_incoming-IsSound k now =
      if-elim Sound (not (is_valid_id k)) (λ _. s)
        (λ valid.
          if-elim Sound (has k u.completed || has k u.incoming) (λ _. s)
            (λ new. received-IsSound k (fresh now) (not-false _ valid) (or-false _ _ new).0))

  prepare_upload-IsSound : (k : Json) (now : ℕ) → IsSound (prepare_upload k now u).1
  unfolding prepare_upload
  prepare_upload-IsSound (str k) now = create_incoming-IsSound k now
  prepare_upload-IsSound _ now = s

  seal-IsSound :
      (k : String) (entry : Option Entry) → is_valid_id k ≡ true → IsSound (seal k entry u).1
  seal-IsSound k none valid = s
  seal-IsSound k (some entry) valid =
      if-elim Sound (not entry.is_directory || entry.empty) (λ _. s)
        (λ _. sealed-IsSound k entry valid)

  finalize-IsSound : (k : String) → IsSound (finalize k u).1
  finalize-IsSound k =
      if-elim Sound (not (is_valid_id k)) (λ _. s)
        (λ valid.
          if-elim Sound (has k u.completed) (λ _. s)
            (λ new. seal-IsSound k (lookup k u.incoming) (not-false _ valid)))

  finalize_upload-IsSound : (k : Json) → IsSound (finalize_upload k u).1
  unfolding finalize_upload
  finalize_upload-IsSound (str k) = finalize-IsSound k
  finalize_upload-IsSound _ = s

  consumed-IsSound : (k : String) (r : Result Json) → IsSound (consumed k r u).1
  consumed-IsSound k (ok a) = removed-IsSound k
  consumed-IsSound k (err e) = s

  start_entry-IsSound :
      (k : String) (start : String → Result Json) (entry : Option Entry)
      → IsSound (start_entry k start entry u).1
  start_entry-IsSound k start none = s
  start_entry-IsSound k start (some entry) =
      if-elim Sound (not entry.is_directory) (λ _. s)
        (λ _. if-elim Sound entry.empty (λ _. s) (λ _. consumed-IsSound k (start k)))

  publish-IsSound :
      (k : String) (create : String → Result Json) → IsSound (publish_and_snapshot k create u).1
  unfolding publish_and_snapshot
  publish-IsSound k create =
      if-elim Sound (not (is_valid_id k)) (λ _. s)
        (λ _.
          if-elim Sound (elim (lookup k u.incoming) [ none ↦ false | some entry ↦ entry.is_link ])
            (λ _. s) (λ _. start_entry-IsSound k create (lookup k u.completed)))

  start_checked-IsSound :
      (k : String) (start : String → Result Json) → IsSound (start_checked k start u).1
  start_checked-IsSound k start =
      if-elim Sound (not (is_valid_id k)) (λ _. s)
        (λ _. start_entry-IsSound k start (lookup k u.completed))

  start_async-IsSound :
      (k request : Json) (start : Fields → String → Result Json)
      → IsSound (start_async k request start u).1
  unfolding start_async
  start_async-IsSound (str k) (obj request) start = start_checked-IsSound k (start request)
  start_async-IsSound _ _ start = s

  start-IsSound :
      (k request : Json) (start_agent : Fields → String → Result Json)
      → IsSound (start k request start_agent u).1
  unfolding start
  start-IsSound (str k) (obj request) start_agent = publish-IsSound k (start_agent request)
  start-IsSound _ _ start_agent = s

  swept-IsSound :
      (cutoff : ℕ)
      → IsSound (record u {
        incoming = (sweep cutoff u.incoming).0;
        completed = (sweep cutoff u.completed).0;
      })
  swept-IsSound cutoff = record {
    incoming_valid = λ j h. s.incoming_valid j (has-sweep cutoff j u.incoming h);
    completed_valid = λ j h. s.completed_valid j (has-sweep cutoff j u.completed h);
    apart = λ j h.
        ground (arith, s.apart j (has-sweep cutoff j u.incoming h), has-sweep cutoff j u.completed);
  }

  cleanup-IsSound : (age : Json) (now : ℕ) → IsSound (cleanup_abandoned age now u).1
  unfolding cleanup_abandoned
  cleanup-IsSound (int (pos age)) now =
      if-elim Sound (ltb age 60) (λ _. s) (λ _. swept-IsSound (now - age))
  cleanup-IsSound _ now = s

  sync-IsSound : (d : Dict Sync) → IsSound (record u { sync = d })
  sync-IsSound d = record {
    incoming_valid = s.incoming_valid;
    completed_valid = s.completed_valid;
    apart = s.apart;
  }

  prepare_sync-IsSound : (agent_id sync_id : String) → IsSound (prepare_sync agent_id sync_id u).1
  unfolding prepare_sync
  prepare_sync-IsSound agent_id sync_id =
      if-elim Sound (not (is_valid_id agent_id) || not (is_valid_id sync_id)) (λ _. s)
        (λ _.
          if-elim Sound (has sync_id u.sync) (λ _. s)
            (λ _.
              sync-IsSound (insert sync_id (record { agent_id = agent_id; bundle = none }) u.sync)))

  sync_end-IsSound :
      (sync_id base : String) (r : Result (Unit {0})) → IsSound (sync_end sync_id base r u).1
  sync_end-IsSound sync_id base (ok _) = s
  sync_end-IsSound sync_id base (err e) = sync-IsSound (erase sync_id u.sync)

  finalize_sync-IsSound :
      (agent_id sync_id : String) (size : ℕ) (digest base_commit : String) (c : Checked)
      → IsSound (finalize_sync agent_id sync_id size digest base_commit c u).1
  unfolding finalize_sync
  finalize_sync-IsSound agent_id sync_id size digest base_commit c =
      if-elim Sound (not (is_valid_id agent_id) || not (is_valid_id sync_id)) (λ _. s)
        (λ _.
          sync_end-IsSound sync_id base_commit
            (sync_tests agent_id size digest base_commit c (lookup sync_id u.sync)))

  transferred-IsSound :
      (k : String) (entry : Entry)
      → has k u.incoming ≡ true
      → IsSound (record u { incoming = insert k entry u.incoming })
  transferred-IsSound k entry there =
      received-IsSound k entry (s.incoming_valid k there) (s.apart k there)

Step-IsSound : {u v : Uploads} → IsSound u → Step u v → IsSound v
Step-IsSound {u} s (prepared k now) = prepare_upload-IsSound u s k now
Step-IsSound {u} s (transferred k entry there) = transferred-IsSound u s k entry there
Step-IsSound {u} s (finalized k) = finalize_upload-IsSound u s k
Step-IsSound {u} s (published k create) = publish-IsSound u s k create
Step-IsSound {u} s (started k request start) = start_async-IsSound u s k request start
Step-IsSound {u} s (served k request start_agent) = start-IsSound u s k request start_agent
Step-IsSound {u} s (cleaned age now) = cleanup-IsSound u s age now
Step-IsSound {u} s (sync_prepared a k) = prepare_sync-IsSound u s a k
Step-IsSound {u} s (bundled k d) = sync-IsSound u s (insert k d u.sync)
Step-IsSound {u} s (sync_finalized a k size digest base c) =
    finalize_sync-IsSound u s a k size digest base c

-- Whatever the operations and the transfers of the clients are, and in whatever order they come:
-- every upload has a valid identifier, and none is both incoming and completed.
pub Reached-IsSound : {u : Uploads} → Reached u → IsSound u
unfolding lookup
Reached-IsSound empty = record {
  incoming_valid = λ k h. cc;
  completed_valid = λ k h. cc;
  apart = λ k h. cc;
}
Reached-IsSound (next r step) = Step-IsSound (Reached-IsSound r) step
