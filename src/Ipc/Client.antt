-- ===== src/Ipc/Client.antt =====
-- `AgentWorkerClient.request`.
pub mod Calls
pub mod Matched
use Prim.Native.String.{◌++◌}
use tgent.Prelude.{
  ℕ, suc, String, Bool, true, false, not, ◌||◌, Option, none, some, ◌==◌, if◌then◌else◌,
}
use tgent.Result.{Result, ok, err, Error, ipc_error, ◌>>=◌, ◌>>◌, raise_if}
use tgent.Json.{
  Json, null, int, str, obj, Fields, end, field, ℤ, pos, negsuc, get, get_value, eq_nat, eq_text,
  int_text,
}
use tgent.Ipc.Messages.{Codec, encode_line, read_line}

-- `_request_id`, and whether there is an open connection.
pub record Client : Type 0 where
  pub request_id : ℕ
  pub connected : Bool

-- What comes of writing a line and waiting for the next one: the time is up, or `readline` ends.
pub data Exchange (Line : Type 0) : Type 0 where
  overdue : Exchange Line
  read : Result Line → Exchange Line

-- `error.get(key, default)`
abbrev pub or_default : Json → Option Json → Json
or_default default none = default
or_default default (some v) = v

unfoldable pub request_fields : ℕ → String → Fields → Fields
request_fields request_id method params = field "jsonrpc" (str "2.0") (
    field "id" (int (pos request_id))
      (field "method" (str method) (field "params" (obj params) end)))

-- `as_int` is `int(value)` and `as_text` is `str(value)`.
module _ (as_int : Json → Result ℤ) (as_text : Json → String) where
  -- the exception for an `error` member that is not `None`
  unfoldable pub remote_error : Json → Result Json
  remote_error (obj error) = do
    code ← as_int (or_default (int (negsuc 31999)) (get "code" error))
    err (
        ipc_error (
          "JSON-RPC error "
          ++ (int_text code
              ++ (": " ++ as_text (or_default (str "Remote error") (get "message" error))))))
  remote_error _ = err (ipc_error "Malformed JSON-RPC error response")

  abbrev pub or_result : Option Json → Result Json
  or_result none = err (ipc_error "JSON-RPC response has neither result nor error")
  or_result (some v) = ok v

  abbrev pub result_of : Json → Fields → Result Json
  result_of null response = or_result (get "result" response)
  result_of error response = remote_error error

  -- the checks of a response
  unfoldable pub check_reply : ℕ → Fields → Result Json
  unfolding remote_error
  check_reply request_id response = do
    raise_if
        (not (eq_text "2.0" (get_value "jsonrpc" response))
          || not (eq_nat request_id (get_value "id" response)))
        (ipc_error "Mismatched JSON-RPC response")
    result_of (get_value "error" response) response

  module _ (codec : Codec) (max_bytes : ℕ) where
    -- What follows the write: a client whose request is overdue is closed.
    abbrev pub finish_exchange : ℕ → String → Client → Exchange codec.Line → Result Json × Client
    finish_exchange request_id method client overdue = (
      err (
          ipc_error (
            "Request timed out: "
            ++ (method ++ "; connection closed to avoid response desynchronization"))),
      record client { connected = false },
    )
    finish_exchange request_id method client (read outcome) =
        (read_line codec max_bytes outcome >>= check_reply request_id, client)

    abbrev pub send_request :
        ℕ
        → String
        → Client
        → (codec.Line → Exchange codec.Line)
        → Result codec.Line
        → Result Json × Client
    send_request request_id method client exchange (err e) = (err e, client)
    send_request request_id method client exchange (ok line) =
        finish_exchange request_id method client (exchange line)

    -- `request`
    unfoldable pub request :
        (codec.Line → Exchange codec.Line) → String → Fields → Client → Result Json × Client
    unfolding check_reply request_fields
    request exchange method params client =
        if not client.connected
        then (err (ipc_error "Worker is not connected"), client)
        else if method == ""
        then (err (ipc_error "Method must be a non-empty string"), client)
        else send_request (suc client.request_id) method
            (record client { request_id = suc client.request_id }) exchange
            (encode_line codec max_bytes (request_fields (suc client.request_id) method params))
