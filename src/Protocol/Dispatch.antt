-- ===== src/Protocol/Dispatch.antt =====
-- `dispatch_request` and `error_response` of remote_agent_protocol.py: the server's side of one
-- request.
use Prim.Native.Nat.{◌/◌, ◌^◌, ◌%◌}
use Prim.Native.String.{◌++◌}
use tgent.Prelude.{
  ℕ, String, Bool, true, false, not, ◌&&◌, Option, none, some, take_text, ltb, if◌then◌else◌,
}
use tgent.Result.{Result, ok, err, Error, protocol_error, ◌>>=◌, ◌>>◌, raise_if}
use tgent.Json.{
  Json, null, bool, int, float, str, arr, obj, Items, nil, cons, Fields, end, field, pos, get_value,
}
use tgent.Protocol.Ids.{is_valid_id}
use tgent.Protocol.Request.{text_of, validate_request}

-- `json.dumps(value, allow_nan=False)` succeeds: no float in it is infinite or not a number.
unfoldable mutual
  pub is_finite : Json → Bool
  is_finite null = true
  is_finite (bool b) = true
  is_finite (int n) = true
  is_finite (float bits) = ltb (bits / 2 ^ 52 % 2048) 2047
  is_finite (str s) = true
  is_finite (arr xs) = all_finite xs
  is_finite (obj fs) = fields_finite fs

  pub all_finite : Items → Bool
  all_finite nil = true
  all_finite (cons x xs) = is_finite x && all_finite xs

  pub fields_finite : Fields → Bool
  fields_finite end = true
  fields_finite (field k v fs) = is_finite v && fields_finite fs

-- the five members of a response
unfoldable pub response : Json → Bool → Json → Json → Fields
response request_id succeeded result error = field "schema_version" (int (pos 1)) (
    field "request_id" request_id
      (field "ok" (bool succeeded) (field "result" result (field "error" error end))))

-- A handler of the daemon's map: it takes the validated request and returns or raises.
abbrev pub Handler : Type 0
Handler = Fields → Result Json

abbrev pub or_unavailable : String → Option Handler → Result Handler
or_unavailable op none = err (protocol_error ("Remote operation is unavailable: " ++ op))
or_unavailable op (some h) = ok h

unfoldable pub dispatch_request : (Json → ℕ) → Json → (String → Option Handler) → Result Fields
unfolding response
dispatch_request json_size value handlers = do
  request ← validate_request json_size value
  handler ←
      or_unavailable (text_of (get_value "operation" request))
        (handlers (text_of (get_value "operation" request)))
  result ← handler request
  raise_if (not (is_finite result)) (protocol_error "Remote operation returned a non-JSON result")
  ok (response (get_value "request_id" request) true result null)

-- the request id of an error response, where it is safe to repeat it
abbrev safe_id : Option String → Json
safe_id none = null
safe_id (some s) = if is_valid_id s then str s else null

-- only a protocol error tells what went wrong
abbrev pub error_text : Error → String
error_text (protocol_error s) = take_text 500 s
error_text _ = "Remote operation failed"

unfoldable pub error_response : Option String → Error → Fields
unfolding response
error_response request_id error =
    response (safe_id request_id) false null
      (obj (field "code" (str "request_failed") (field "message" (str (error_text error)) end)))
