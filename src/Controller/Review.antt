-- ===== src/Controller/Review.antt =====
-- The operator's side: `resolve_agent_id`, the condition of `list_agents_requiring_attention`,
-- `acknowledge_submitted_patch_applied` and `reject_submitted_patch`.
pub mod Decisions
pub mod Resolved
use Prim.Native.Char.{code}
use Prim.Native.Nat.{compare, Ordering}
use Prim.Native.String
use Prim.Native.String.{◌++◌ as text_append}
use tgent.Prelude.{
  ℕ, ◌+◌, String, Bool, true, false, not, ◌&&◌, ◌||◌, Option, none, some, List, [], ◌∷◌, ◌++◌, ltb,
  leb, len, all_chars, is_hex, drop_prefix, ◌==◌, if◌then◌else◌,
}
use tgent.Result.{Result, ok, err, Error, message, controller_error, store_error, os_error}
use tgent.Json.{Json, null, str, ℤ, eq_text}
use tgent.Dict.{Dict, lookup, dict_keys}
use tgent.Store.Metadata.{
  Metadata, Decision, State, running, halted, awaiting_review, failed, stopping, stopped, reaped,
}
use tgent.Store.Files.{Store, Stored, get_metadata, validate_agent_id}
use tgent.Protocol.Ids.{mem_text}
use tgent.Controller.State.{
  Controller, Runtime, Action, pure, raise, gets, query, ◌>>=◌, ◌>>◌, modify, refuse_if, update,
  runtime_of, is_live,
}
use tgent.Controller.Lifecycle.{submitted, decides, undecided, stop_agent, reap_agent}

-- `s.lower()`, for a text of hexadecimal digits: only those of ASCII change
abbrev lower_code : ℕ → ℕ
lower_code c = if leb b'A' c && leb c b'Z' then c + 32 else c

-- `s.lower().startswith(p.lower())`, for ASCII texts
unfoldable pub starts_lower : String → String → Bool
starts_lower String.[] s = true
starts_lower (String.◌∷◌ c p) String.[] = false
starts_lower (String.◌∷◌ c p) (String.◌∷◌ d s) =
    let rest = starts_lower p s in
    elim (compare (lower_code (code c)) (lower_code (code d))) [ Ordering.eq ↦ rest | _ ↦ false ]

-- the stored agents whose id starts with the prefix
unfoldable pub matches : String → List String → List String
matches prefix [] = []
matches prefix (id ∷ ids) =
    let rest = matches prefix ids in if starts_lower prefix id then id ∷ rest else rest

abbrev pub the_match : String → List String → Result String
the_match prefix [] = err (controller_error (text_append "Unknown agent ID prefix: " prefix))
the_match prefix (id ∷ []) = ok id
the_match prefix (_ ∷ _ ∷ _) =
    err (controller_error (text_append "Ambiguous agent ID prefix: " prefix))

-- the search by prefix
unfoldable pub resolve_prefix : String → List String → Result String
resolve_prefix prefix ids =
    if ltb 0 (len prefix) && all_chars is_hex prefix
    then the_match prefix (matches prefix ids)
    else err
        (controller_error (text_append "Unknown agent ID or invalid hexadecimal prefix: " prefix))

-- `except AgentStoreError: pass`
abbrev pub or_by_prefix : String → Store → Result Metadata → Result String
or_by_prefix agent_id store (ok m) = ok agent_id
or_by_prefix agent_id store (err e) = resolve_prefix agent_id (dict_keys store)

abbrev pub resolve_valid : Store → Result String → Result String
resolve_valid store (err e) = err e
resolve_valid store (ok id) = or_by_prefix id store (get_metadata id store)

-- `resolve_agent_id`: a full id, or a unique hexadecimal prefix of one
unfoldable pub resolve_agent_id : String → Store → Result String
unfolding resolve_prefix
resolve_agent_id agent_id store = resolve_valid store (validate_agent_id agent_id)

-- `[self.resolve_agent_id(item) for item in agent_ids]`
unfoldable pub resolve_all : List String → Store → Result (List String)
resolve_all [] store = ok []
resolve_all (agent_id ∷ rest) store = elim (resolve_agent_id agent_id store) [
  | err e ↦ err e
  | ok id ↦ elim (resolve_all rest store) [ err e ↦ err e | ok ids ↦ ok (id ∷ ids) ]
]

-- an agent that waits for the operator
abbrev waiting : State → Bool
waiting awaiting_review = true
waiting halted = true
waiting _ = false

-- the condition of `list_agents_requiring_attention`
unfoldable pub requires_attention : Metadata → Bool
requires_attention m = undecided m || (waiting m.state || eq_text "awaiting_command" m.stop_reason)

-- `state in {"awaiting_review", "stopped", "halted", "failed"}`
abbrev pub is_inactive : State → Bool
is_inactive awaiting_review = true
is_inactive stopped = true
is_inactive halted = true
is_inactive failed = true
is_inactive _ = false

abbrev pub present : Option Decision → Bool
present none = false
present (some d) = true

abbrev pub acknowledged : String → ℕ → Metadata → Metadata
acknowledged head now m = record m {
  patch_applied_acknowledgement = some (record { head = head; decided_at = now; reason = none });
}

abbrev pub acknowledge_head : String → ℕ → Metadata → Option Runtime → String → Action Metadata
acknowledge_head agent_id now metadata runtime head =
    if is_live runtime
    then raise (controller_error "Stop the agent before acknowledging its submitted patch")
    else if not (is_inactive metadata.state)
    then raise (controller_error "Agent must be inactive before acknowledging its submitted patch")
    else if decides metadata.patch_applied_acknowledgement head
    then pure metadata
    else update agent_id (acknowledged head now) now

abbrev pub acknowledge_with :
    String → ℕ → Metadata → Option Runtime → Option String → Action Metadata
acknowledge_with agent_id now metadata runtime none =
    if present metadata.patch_applied_acknowledgement
    then pure metadata
    else raise (controller_error "Agent has no submitted patch to acknowledge")
acknowledge_with agent_id now metadata runtime (some head) =
    acknowledge_head agent_id now metadata runtime head

abbrev pub acknowledge_found : String → ℕ → Metadata → Action Metadata
acknowledge_found agent_id now metadata c =
    acknowledge_with agent_id now metadata (runtime_of agent_id c) (submitted metadata) c

-- `acknowledge_submitted_patch_applied`
unfoldable pub acknowledge : String → ℕ → Action Metadata
acknowledge agent_id now = query (get_metadata agent_id) >>= acknowledge_found agent_id now

abbrev reason_too_long : Option String → Bool
reason_too_long none = false
reason_too_long (some s) = ltb 4000 (len s)

-- `reject_submitted_patch`
unfoldable pub reject : String → Option String → ℕ → Action Metadata
reject agent_id reason now = do
  refuse_if (reason_too_long reason) "reason must be a string of at most 4000 characters"
  metadata ← query (get_metadata agent_id)
  runtime ← gets (runtime_of agent_id)
  elim (submitted metadata) [
    | none ↦
        if present metadata.patch_rejection
        then pure metadata
        else raise (controller_error "Agent has no submitted patch to reject")
    | some head ↦
        if is_live runtime
        then raise (controller_error "Stop the agent before rejecting its submitted patch")
        else if not (is_inactive metadata.state)
        then raise (controller_error "Agent must be inactive before rejecting its submitted patch")
        else if decides metadata.patch_rejection head
        then pure metadata
        else update agent_id
            (λ m. record m {
              patch_rejection = some (record { head = head; decided_at = now; reason = reason });
            })
            now
  ]
