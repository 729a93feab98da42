-- ===== src/Tests/Requests.antt =====
-- One request for the status of an agent and its answers, and a bulk reap.
use tgent.Prelude.{
  len, head_char, is_alnum, all_chars, ℕ, String, true, ◌≡◌, refl, Option, some, none, [], ◌∷◌,
}
use tgent.Result.{ok, err, protocol_error, other_error, IsErr}
use tgent.Json.{
  Json, null, int, str, arr, nil, cons, obj, Fields, end, field, pos, get_value, get, keys, eq_nat,
  leb_ℤ,
}
use tgent.Protocol.Ids.{is_valid_id, is_id_char, mem_text, same_set, subset_text, validate_id}
use tgent.Protocol.Ids.Safe.{IsSafeName, is_valid_id-IsSafeName}
use tgent.Protocol.Request.{
  validate_request, validate_named, validate_operation, fields_of, validate_fields, check_payload,
  check_agent, check_bulk, is_tool_list, is_reason, check_options,
}
use tgent.Protocol.Request.Sound.{IsAccepted, validate_request-IsAccepted}
use tgent.Protocol.Request.Bulk.{bulk_refused}
use tgent.Protocol.Dispatch.{
  Handler, is_finite, dispatch_request, error_response, error_text, response,
}
use tgent.Protocol.Client.{check_response}
use tgent.Protocol.RoundTrip.{dispatch_passes, error_passes, error_raises}

abbrev status_request : Fields
status_request = field "schema_version" (int (pos 1)) (
    field "request_id" (str "r-1")
      (field "operation" (str "status") (field "agent_id" (str "a1") end)))

abbrev small : Json → ℕ
small v = 100

abbrev show : Json → String
show v = "value"

abbrev status_handler : String → Option Handler
status_handler op = some (λ fs. ok (str "stopped"))

request_valid : is_valid_id "r-1" ≡ true
unfolding is_valid_id len head_char is_alnum all_chars is_id_char
request_valid = refl

status_accepted : validate_request small (obj status_request) ≡ ok status_request
unfolding validate_request validate_named get_value mem_text validate_operation fields_of
    validate_fields same_set subset_text keys eq_nat validate_id is_valid_id len head_char is_alnum
    all_chars is_id_char check_payload check_agent check_bulk is_tool_list is_reason get leb_ℤ
    check_options
status_accepted = refl

status_answered :
    dispatch_request small (obj status_request) status_handler
    ≡ ok (response (str "r-1") true (str "stopped") null)
unfolding dispatch_request is_finite get_value
status_answered = rw status_accepted refl

validate_request-IsAccepted_example :
    (obj status_request ≡ obj status_request) × IsAccepted status_request
validate_request-IsAccepted_example =
    validate_request-IsAccepted small (obj status_request) status_request status_accepted

is_valid_id-IsSafeName_example : IsSafeName "r-1"
is_valid_id-IsSafeName_example = is_valid_id-IsSafeName "r-1" request_valid

abbrev reap_request : Fields
reap_request = field "schema_version" (int (pos 1)) (
    field "request_id" (str "r-2")
      (field "operation" (str "reap_agents") (field "agent_ids" (arr (cons (str "a1") nil)) end)))

bulk_named : get_value "operation" reap_request ≡ str "reap_agents"
unfolding get_value
bulk_named = refl

bulk_listed : mem_text "reap_agents" ("reap_agents" ∷ "restart_agents" ∷ []) ≡ true
unfolding mem_text
bulk_listed = refl

bulk_refused_example : IsErr (validate_request small (obj reap_request))
bulk_refused_example = bulk_refused small "reap_agents" reap_request bulk_listed bulk_named

dispatch_passes_example :
    let reply = response (str "r-1") true (str "stopped") null in
    (request : Fields) × (validate_request small (obj status_request) ≡ ok request)
    × (check_response show request (obj reply) ≡ ok reply)
dispatch_passes_example =
    dispatch_passes small show status_handler (obj status_request)
      (response (str "r-1") true (str "stopped") null) status_answered

status_named : get_value "request_id" status_request ≡ str "r-1"
unfolding get_value
status_named = refl

error_passes_example :
    check_response show status_request
      (obj (error_response (some "r-1") (protocol_error "no such agent")))
    ≡ ok (error_response (some "r-1") (protocol_error "no such agent"))
error_passes_example =
    error_passes show status_request "r-1" status_named (protocol_error "no such agent")
      request_valid

error_raises_example :
    check_response show status_request (obj (error_response none (other_error "boom")))
    ≡ err (protocol_error (error_text (other_error "boom")))
error_raises_example = error_raises show status_request (other_error "boom")
