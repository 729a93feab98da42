-- ===== src/Protocol/Request/Identifiers.antt =====
-- The identifiers that the branches of `validate_request` check.
use tgent.Prelude.{
  ℕ, String, Bool, true, false, not, ◌&&◌, ◌||◌, ◌≡◌, refl, ◌⊎◌, some, List, [], ◌∷◌, all, inl, inr,
  arith, eq_iff, ◌==◌,
}
use tgent.Result.{Result, ok, ◌>>◌, >>-eq-ok}
use tgent.Json.{Json, str, Fields, get_value}
use tgent.Protocol.Ids.{validate_id, is_valid_id, mem_text}
use tgent.Protocol.Ids.Safe.{validate_id-eq-ok}
use tgent.Protocol.Request.{
  expected, fields_of, check_sync, check_target, check_upload, check_agent, check_payload,
}

-- What one lookup in a table can find.
pub all-fields_of :
    (p : String → List String → Bool) (op : String) (table : List (String × List String))
    (fields : List String)
    → all (λ e. p e.0 e.1) table ≡ true
    → fields_of op table ≡ some fields
    → p op fields ≡ true
unfolding fields_of
all-fields_of p op [] fields t h = cc
all-fields_of p op ((j, fs) ∷ rest) fields t h =
    ground (arith, eq_iff j op, all-fields_of p op rest fields)

-- The member `k` is an accepted identifier.
abbrev pub HasId : String → Fields → Type 0
HasId k fs = (s : String) × (get_value k fs ≡ str s) × (is_valid_id s ≡ true)

validate_id-HasId :
    {A : Type 0} (k : String) (fs : Fields) (rest : Result A) {a : A}
    → (validate_id (get_value k fs) k >> rest) ≡ ok a
    → HasId k fs
validate_id-HasId k fs rest h =
    let (s, e, _) = >>-eq-ok _ _ h in (s, (validate_id-eq-ok _ k e).0, (validate_id-eq-ok _ k e).1)

check_sync-HasId :
    (op : String) (fs : Fields)
    → check_sync op fs ≡ ok tt
    → HasId "sync_id" fs × HasId "agent_id" fs
unfolding check_sync
check_sync-HasId op fs h =
    (validate_id-HasId "sync_id" fs _ h, validate_id-HasId "agent_id" fs _ (>>-eq-ok _ _ h).2)

-- Where an operation takes an `agent_id`, the branch that it reaches checks it.
abbrev takes_agent : String → List String → Bool
takes_agent op fields =
    not (mem_text "agent_id" fields)
    || (mem_text op ("prepare_sync" ∷ "finalize_sync" ∷ [])
        || not (
            mem_text op (
              "prepare_upload" ∷ "finalize_upload" ∷ "start" ∷ "prepare_sync" ∷ "finalize_sync"
              ∷ [])
            || (op == "review_replies"
                || mem_text op ("list_agents" ∷ "stop_agents" ∷ "pending_patches" ∷ []))))

agent_table : all (λ e. takes_agent e.0 e.1) expected ≡ true
unfolding mem_text
agent_table = refl

-- Only the two `sync` operations take a `sync_id`.
abbrev takes_sync : String → List String → Bool
takes_sync op fields =
    not (mem_text "sync_id" fields)
    || (mem_text op ("prepare_sync" ∷ "finalize_sync" ∷ [])
        && mem_text op (
            "prepare_upload" ∷ "finalize_upload" ∷ "start" ∷ "prepare_sync" ∷ "finalize_sync" ∷ []))

sync_table : all (λ e. takes_sync e.0 e.1) expected ≡ true
unfolding mem_text
sync_table = refl

-- Only the other three upload operations take an `upload_id`.
abbrev takes_upload : String → List String → Bool
takes_upload op fields =
    not (mem_text "upload_id" fields)
    || (not (mem_text op ("prepare_sync" ∷ "finalize_sync" ∷ []))
        && mem_text op (
            "prepare_upload" ∷ "finalize_upload" ∷ "start" ∷ "prepare_sync" ∷ "finalize_sync" ∷ []))

upload_table : all (λ e. takes_upload e.0 e.1) expected ≡ true
unfolding mem_text
upload_table = refl

upload-target :
    (op : String) (fs : Fields) → check_upload op fs ≡ ok tt → check_target op fs ≡ ok tt
unfolding check_upload
upload-target op fs h = (>>-eq-ok (check_target op fs) _ h).1

target-sync :
    (op : String) (fs : Fields)
    → mem_text op ("prepare_sync" ∷ "finalize_sync" ∷ []) ≡ true
    → check_target op fs ≡ ok tt
    → HasId "sync_id" fs × HasId "agent_id" fs
unfolding check_target
target-sync op fs m h = check_sync-HasId op fs (rw m at h)

target-upload :
    (op : String) (fs : Fields)
    → mem_text op ("prepare_sync" ∷ "finalize_sync" ∷ []) ≡ false
    → check_target op fs ≡ ok tt
    → HasId "upload_id" fs
unfolding check_target
target-upload op fs m h = validate_id-HasId "upload_id" fs (ok tt) (rw m at h)

module _ (json_size : Json → ℕ) where
  pub check_agent-HasId :
      (op : String) (fs : Fields) → check_agent json_size op fs ≡ ok tt → HasId "agent_id" fs
  unfolding check_agent
  check_agent-HasId op fs h = validate_id-HasId "agent_id" fs _ h

  agent_branch :
      (op : String) (fields : List String) (fs : Fields)
      → takes_agent op fields ≡ true
      → mem_text "agent_id" fields ≡ true
      → check_payload json_size op fs ≡ ok tt
      → ((mem_text op ("prepare_sync" ∷ "finalize_sync" ∷ []) ≡ true)
          × (check_upload op fs ≡ ok tt))
        ⊎ (check_agent json_size op fs ≡ ok tt)
  unfolding check_payload mem_text
  agent_branch op fields fs t m h = ground arith

  sync_branch :
      (op : String) (fields : List String) (fs : Fields)
      → takes_sync op fields ≡ true
      → mem_text "sync_id" fields ≡ true
      → check_payload json_size op fs ≡ ok tt
      → (mem_text op ("prepare_sync" ∷ "finalize_sync" ∷ []) ≡ true) × (check_upload op fs ≡ ok tt)
  unfolding check_payload mem_text
  sync_branch op fields fs t m h = ground arith

  upload_branch :
      (op : String) (fields : List String) (fs : Fields)
      → takes_upload op fields ≡ true
      → mem_text "upload_id" fields ≡ true
      → check_payload json_size op fs ≡ ok tt
      → (mem_text op ("prepare_sync" ∷ "finalize_sync" ∷ []) ≡ false) × (check_upload op fs ≡ ok tt)
  unfolding check_payload mem_text
  upload_branch op fields fs t m h = ground arith

  module _ (op : String) (fields : List String) (fs : Fields)
      (listed : fields_of op expected ≡ some fields)
      (checked : check_payload json_size op fs ≡ ok tt) where
    pub payload-agent_id : mem_text "agent_id" fields ≡ true → HasId "agent_id" fs
    payload-agent_id m =
        elim (agent_branch op fields fs
          (all-fields_of takes_agent op expected fields agent_table listed) m checked) [
            | inl (sync, h) ↦ (target-sync op fs sync (upload-target op fs h)).1
            | inr h ↦ check_agent-HasId op fs h
          ]

    pub payload-sync_id : mem_text "sync_id" fields ≡ true → HasId "sync_id" fs
    payload-sync_id m =
        let (sync, h) =
          sync_branch op fields fs (all-fields_of takes_sync op expected fields sync_table listed) m
            checked in
        (target-sync op fs sync (upload-target op fs h)).0

    pub payload-upload_id : mem_text "upload_id" fields ≡ true → HasId "upload_id" fs
    payload-upload_id m =
        let (other, h) =
          upload_branch op fields fs
            (all-fields_of takes_upload op expected fields upload_table listed) m checked in
        target-upload op fs other (upload-target op fs h)
