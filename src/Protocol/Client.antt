-- ===== src/Protocol/Client.antt =====
-- `RemoteAgentClient.request` of remote_agent_protocol.py: the client's side of one request. The
-- SSH process, the JSON codec and `repr` are parameters.
use Prim.Native.String.{◌++◌}
use tgent.Prelude.{
  ℕ, ◌-◌, zero, String, Bool, true, false, not, ◌&&◌, Option, none, some, List, [], ◌∷◌, take_text,
  drop_text, len, ltb, ◌==◌, if◌then◌else◌,
}
use tgent.Result.{Result, ok, err, message, protocol_error, ◌>>=◌, ◌>>◌, raise_if}
use tgent.Json.{
  Json, bool, str, obj, Fields, ℤ, pos, get, get_value, keys, eq_nat, eq_text, int_text, is_bool,
  is_dict, is_null,
}
use tgent.Protocol.Ids.{same_set}
use tgent.Protocol.Request.{text_of, validate_request}

-- What `subprocess.run` returns: the exit status, the bytes of standard output and their number,
-- and standard error as text without the white space at its ends.
pub record Completed (Bytes : Type 0) : Type 0 where
  pub returncode : ℤ
  pub stdout : Bytes
  pub stderr : String

-- What the program takes from its surroundings. `dumps` is the compact `json.dumps` in UTF-8,
-- `loads` is `json.loads`, `size` counts bytes, `run` starts `ssh` with the command and the input
-- line, and raises where it cannot or where the time is up; `show` is `repr`.
pub record Endpoint : Type 1 where
  pub Bytes : Type 0
  pub size : Bytes → ℕ
  pub json_size : Json → ℕ
  pub dumps : Fields → Result Bytes
  pub loads : Bytes → Result Json
  pub run : Bytes → Result (Completed Bytes)
  pub show : Json → String

-- `str(value)`
abbrev text_or_repr : (Json → String) → Json → String
text_or_repr show (str s) = s
text_or_repr show v = show v

-- `error.get("message", "Remote endpoint rejected the request")`
abbrev message_or_default : Option Json → Json
message_or_default none = str "Remote endpoint rejected the request"
message_or_default (some v) = v

abbrev error_detail : (Json → String) → Json → String
error_detail show (obj fs) =
    take_text 500 (text_or_repr show (message_or_default (get "message" fs)))
error_detail show _ = ""

-- `response["ok"]` as a truth value; it has been checked to be a `bool`
abbrev is_ok : Json → Bool
is_ok (bool b) = b
is_ok _ = false

-- the checks on the members of a response
unfoldable pub check_members : (Json → String) → Fields → Fields → Result Fields
check_members show validated response = do
  raise_if (not (eq_nat 1 (get_value "schema_version" response)))
      (protocol_error "Remote endpoint protocol version mismatch")
  raise_if (not (is_bool (get_value "ok" response)))
      (protocol_error "Remote response has an invalid ok field")
  raise_if (is_ok (get_value "ok" response) && not (is_null (get_value "error" response)))
      (protocol_error "Successful remote response unexpectedly has an error")
  raise_if (not (is_ok (get_value "ok" response)) && not (is_dict (get_value "error" response)))
      (protocol_error "Failed remote response has no structured error")
  raise_if (not (is_ok (get_value "ok" response)) && is_null (get_value "request_id" response))
      (protocol_error (error_detail show (get_value "error" response)))
  raise_if
      (not (eq_text (text_of (get_value "request_id" validated)) (get_value "request_id" response)))
      (protocol_error (
        "Remote response request_id does not match (expected "
        ++ (show (get_value "request_id" validated)
            ++ (", got " ++ (show (get_value "request_id" response) ++ ")")))))
  ok response

abbrev response_fields : List String
response_fields = "schema_version" ∷ "request_id" ∷ "ok" ∷ "result" ∷ "error" ∷ []

unfoldable pub check_response : (Json → String) → Fields → Json → Result Fields
check_response show validated (obj response) =
    if same_set (keys response) response_fields
    then check_members show validated response
    else err (protocol_error "Remote endpoint returned an invalid response envelope")
check_response show validated _ =
    err (protocol_error "Remote endpoint returned an invalid response envelope")

-- the last 1000 characters of what the endpoint wrote to standard error
abbrev exit_message : ℤ → String → String
exit_message status detail =
    if detail == ""
    then "Remote endpoint exited with status " ++ int_text status
    else "Remote endpoint exited with status "
      ++ (int_text status ++ (": " ++ drop_text (len detail - 1000) detail))

abbrev is_zero : ℤ → Bool
is_zero (pos zero) = true
is_zero _ = false

-- `except … as err: raise RemoteProtocolError(f"{text}: {err}")`
abbrev or_raise {ℓ} : {A : Type ℓ} → Result A → String → Result A
or_raise (err e) s = err (protocol_error (s ++ (": " ++ message e)))
or_raise (ok a) s = ok a

-- `json.loads`, whose own message is not repeated
abbrev or_invalid {ℓ} : {A : Type ℓ} → Result A → Result A
or_invalid (err e) = err (protocol_error "Remote endpoint returned invalid JSON")
or_invalid (ok a) = ok a

module _ (endpoint : Endpoint) where
  open endpoint use {size, json_size, dumps, loads, run, show}

  unfoldable pub client_request : Fields → Result Fields
  client_request value = do
    validated ← validate_request json_size (obj value)
    encoded ← or_raise (dumps validated) "Request is not JSON serializable"
    raise_if (ltb 1048576 (size encoded)) (protocol_error "Remote request exceeds the size limit")
    completed ← or_raise (run encoded) "Remote SSH request failed"
    raise_if (not (is_zero completed.returncode))
        (protocol_error (exit_message completed.returncode completed.stderr))
    raise_if (ltb 4194304 (size completed.stdout))
        (protocol_error "Remote response exceeds the size limit")
    response ← or_invalid (loads completed.stdout)
    check_response show validated response
