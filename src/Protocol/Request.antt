-- ===== src/Protocol/Request.antt =====
-- `validate_request` of remote_agent_protocol.py.
pub mod Identifiers
pub mod Sound
pub mod Bulk
use Prim.Native.String.{◌++◌}
use tgent.Prelude.{
  ℕ, String, Bool, true, false, not, ◌&&◌, Option, none, some, List, [], ◌∷◌, len, ltb, ◌==◌,
  if◌then◌else◌, any, all, length, map, nat_eq,
}
use tgent.Result.{Result, ok, err, protocol_error, other_error, ◌>>◌, raise_if}
use tgent.Json.{
  Json, null, str, arr, obj, Fields, get_value, keys, to_list, eq_nat, is_str, is_bool, is_dict,
}
use tgent.Protocol.Ids.{
  validate_id, bounded_int, is_mcp_name, is_digest, is_base_commit, mem_text, same_set,
  has_duplicates,
}

-- `_OPERATIONS`
abbrev pub operations : List String
operations =
    "prepare_upload" ∷ "finalize_upload" ∷ "start" ∷ "status" ∷ "history" ∷ "continue" ∷ "stop"
    ∷ "stop_agents" ∷ "restart_agents" ∷ "logs" ∷ "reap" ∷ "reap_agents" ∷ "patches"
    ∷ "acknowledge_patch_applied" ∷ "nack_patch" ∷ "list_agents" ∷ "set_tools" ∷ "agent_tools"
    ∷ "summarize_history" ∷ "pending_patches" ∷ "prepare_sync" ∷ "finalize_sync" ∷ "review_replies"
    ∷ []

-- `common | {…}`
abbrev pub with_common : List String → List String
with_common fields = "schema_version" ∷ "operation" ∷ "request_id" ∷ fields

-- `expected`
abbrev pub expected : List (String × List String)
expected =
    ("prepare_upload", with_common ("upload_id" ∷ []))
    ∷ ("finalize_upload", with_common ("upload_id" ∷ []))
    ∷ ("prepare_sync", with_common ("sync_id" ∷ "agent_id" ∷ []))
    ∷ (
      "finalize_sync",
      with_common ("sync_id" ∷ "agent_id" ∷ "size" ∷ "sha256" ∷ "base_commit" ∷ []),
    )
    ∷ ("start", with_common ("upload_id" ∷ "request" ∷ []))
    ∷ ("status", with_common ("agent_id" ∷ []))
    ∷ ("history", with_common ("agent_id" ∷ "limit" ∷ []))
    ∷ ("continue", with_common ("agent_id" ∷ "messages" ∷ []))
    ∷ ("stop", with_common ("agent_id" ∷ []))
    ∷ ("stop_agents", with_common [])
    ∷ ("restart_agents", with_common ("agent_ids" ∷ []))
    ∷ ("reap_agents", with_common ("agent_ids" ∷ []))
    ∷ ("logs", with_common ("agent_id" ∷ "max_bytes" ∷ []))
    ∷ ("reap", with_common ("agent_id" ∷ []))
    ∷ ("patches", with_common ("agent_id" ∷ []))
    ∷ ("acknowledge_patch_applied", with_common ("agent_id" ∷ []))
    ∷ ("nack_patch", with_common ("agent_id" ∷ "reason" ∷ []))
    ∷ ("list_agents", with_common [])
    ∷ ("pending_patches", with_common [])
    ∷ ("set_tools", with_common ("agent_id" ∷ "tools" ∷ []))
    ∷ ("agent_tools", with_common ("agent_id" ∷ []))
    ∷ ("summarize_history", with_common ("agent_id" ∷ []))
    ∷ ("review_replies", with_common ("repo_path" ∷ "unacknowledged_only" ∷ []))
    ∷ []

-- `expected[operation]`
unfoldable pub fields_of : String → List (String × List String) → Option (List String)
fields_of k [] = none
fields_of k ((j, fs) ∷ rest) = if j == k then some fs else fields_of k rest

-- a text for which the test holds
abbrev pub text_that : (String → Bool) → Json → Bool
text_that p (str s) = p s
text_that p _ = false

-- the members that only `finalize_sync` has
unfoldable pub check_bundle : Fields → Result (Unit {0})
check_bundle fs = do
  bounded_int (get_value "size" fs) "size" 1 1073741824
  raise_if (not (text_that is_digest (get_value "sha256" fs)))
      (protocol_error "Invalid bundle digest")
  raise_if (not (text_that is_base_commit (get_value "base_commit" fs)))
      (protocol_error "Invalid base commit")

unfoldable pub check_sync : String → Fields → Result (Unit {0})
check_sync op fs = do
  validate_id (get_value "sync_id" fs) "sync_id"
  validate_id (get_value "agent_id" fs) "agent_id"
  (if op == "finalize_sync" then check_bundle fs else ok tt)

-- the identifiers of the upload operations
unfoldable pub check_target : String → Fields → Result (Unit {0})
check_target op fs =
    if mem_text op ("prepare_sync" ∷ "finalize_sync" ∷ [])
    then check_sync op fs
    else (validate_id (get_value "upload_id" fs) "upload_id" >> ok tt)

unfoldable pub check_upload : String → Fields → Result (Unit {0})
check_upload op fs = do
  check_target op fs
  raise_if (op == "start" && not (is_dict (get_value "request" fs)))
      (protocol_error "start request payload must be an object")

unfoldable pub check_replies : Fields → Result (Unit {0})
check_replies fs = do
  raise_if (not (text_that (λ s. not (ltb 4096 (len s))) (get_value "repo_path" fs)))
      (protocol_error "repo_path must be bounded text")
  raise_if (not (is_bool (get_value "unacknowledged_only" fs)))
      (protocol_error "unacknowledged_only must be boolean")

-- null, or a text of at most 4000 characters
unfoldable pub is_reason : Json → Bool
is_reason null = true
is_reason (str s) = not (ltb 4000 (len s))
is_reason _ = false

-- the texts among the values, where all of them are
abbrev pub text_of : Json → String
text_of (str s) = s
text_of _ = ""

-- a list of at most 256 distinct names of MCP modules
unfoldable pub is_tool_list : Json → Bool
is_tool_list (arr xs) =
    not (ltb 256 (length (to_list xs)))
    && (not (any (λ x. not (text_that is_mcp_name x)) (to_list xs))
        && not (has_duplicates (map text_of (to_list xs))))
is_tool_list _ = false

-- a non-empty list of at most 500 texts
unfoldable pub is_id_list : Json → Bool
is_id_list (arr xs) =
    not (nat_eq (length (to_list xs)) 0)
    && (not (ltb 500 (length (to_list xs))) && all is_str (to_list xs))
is_id_list _ = false

-- `for agent_id in ids: _validate_id(agent_id, "agent_id")`
unfoldable pub validate_ids : List Json → Result (Unit {0})
validate_ids [] = ok tt
validate_ids (x ∷ xs) = do validate_id x "agent_id"; validate_ids xs

abbrev pub items_of : Json → List Json
items_of (arr xs) = to_list xs
items_of _ = []

unfoldable pub check_bulk : String → Fields → Result (Unit {0})
check_bulk op fs =
    if mem_text op ("reap_agents" ∷ "restart_agents" ∷ [])
    then (do
      raise_if (not (is_id_list (get_value "agent_ids" fs)))
          (protocol_error "agent_ids must be a non-empty bounded array")
      validate_ids (items_of (get_value "agent_ids" fs)))
    else ok tt

-- `json_size v` is `len(json.dumps(v, ensure_ascii=False).encode("utf-8"))`.
module _ (json_size : Json → ℕ) where
  -- a list of 1 to 1000 objects of at most 100,000 bytes
  unfoldable pub is_message_list : Json → Bool
  is_message_list (arr xs) =
      not (nat_eq (length (to_list xs)) 0)
      && (not (ltb 1000 (length (to_list xs)))
          && (all is_dict (to_list xs) && not (ltb 100000 (json_size (arr xs)))))
  is_message_list _ = false

  -- the `if` and `elif` over the operations with members of their own
  unfoldable pub check_options : String → Fields → Result (Unit {0})
  check_options op fs =
      if op == "set_tools"
      then raise_if (not (is_tool_list (get_value "tools" fs)))
          (protocol_error "tools must be unique MCP module names")
      else if op == "history"
      then (bounded_int (get_value "limit" fs) "limit" 1 10000 >> ok tt)
      else if op == "logs"
      then (bounded_int (get_value "max_bytes" fs) "max_bytes" 1 1048576 >> ok tt)
      else raise_if (op == "continue" && not (is_message_list (get_value "messages" fs)))
          (protocol_error "continue messages must be a non-empty bounded array of objects")

  unfoldable pub check_agent : String → Fields → Result (Unit {0})
  check_agent op fs = do
    validate_id (get_value "agent_id" fs) "agent_id"
    raise_if (op == "nack_patch" && not (is_reason (get_value "reason" fs)))
        (protocol_error "reason must be null or a string of at most 4000 characters")
    check_options op fs

  unfoldable pub check_payload : String → Fields → Result (Unit {0})
  check_payload op fs =
      if mem_text op
        ("prepare_upload" ∷ "finalize_upload" ∷ "start" ∷ "prepare_sync" ∷ "finalize_sync" ∷ [])
      then check_upload op fs
      else if op == "review_replies"
      then check_replies fs
      else if mem_text op ("list_agents" ∷ "stop_agents" ∷ "pending_patches" ∷ [])
      then ok tt
      else check_agent op fs

  -- the checks on the members of the object
  unfoldable pub validate_fields : String → List String → Fields → Result Fields
  validate_fields op fields fs = do
    raise_if (not (same_set (keys fs) fields))
        (protocol_error ("Invalid fields for remote operation '" ++ (op ++ "'")))
    raise_if (not (eq_nat 1 (get_value "schema_version" fs)))
        (protocol_error "Unsupported remote protocol schema version")
    validate_id (get_value "request_id" fs) "request_id"
    check_payload op fs
    check_bulk op fs
    ok fs

  -- `expected[operation]` of a known operation
  unfoldable pub validate_operation : String → Fields → Result Fields
  validate_operation op fs = elim (fields_of op expected) [
    | none ↦ err (other_error op)
    | some fields ↦ validate_fields op fields fs
  ]

  unfoldable pub validate_named : Json → Fields → Result Fields
  validate_named (str op) fs =
      if mem_text op operations
      then validate_operation op fs
      else err (protocol_error "Unknown remote operation")
  validate_named _ fs = err (protocol_error "Unknown remote operation")

  unfoldable pub validate_request : Json → Result Fields
  validate_request (obj fs) = validate_named (get_value "operation" fs) fs
  validate_request _ = err (protocol_error "Remote request must be a JSON object")
