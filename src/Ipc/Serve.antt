-- ===== src/Ipc/Serve.antt =====
-- `AgentControlServer`: the answers to the lines of one connection.
pub mod Answers
pub mod Runs
use tgent.Prelude.{
  ℕ, String, Bool, true, false, Option, none, some, List, [], ◌∷◌, ◌++◌, if◌then◌else◌,
}
use tgent.Result.{Result, ok, err, Error, message, ◌>>=◌}
use tgent.Json.{Json, null, int, str, obj, Fields, end, field, ℤ, negsuc, get, get_value, is_null}
use tgent.Ipc.Messages.{Codec, Request, encode_line, read_line, validate_request}

-- How a handler ends: it returns, it raises, or its time is up.
pub data Answer : Type 0 where
  returned : Json → Answer
  raised : Error → Answer
  timed_out : Answer

-- the two kinds of response
unfoldable pub result_response : Json → Json → Fields
result_response request_id result =
    field "jsonrpc" (str "2.0") (field "id" request_id (field "result" result end))

unfoldable pub error_response : Json → ℤ → String → Fields
error_response request_id code text = field "jsonrpc" (str "2.0") (
    field "id" request_id
      (field "error" (obj (field "code" (int code) (field "message" (str text) end))) end))

abbrev pub has_key : String → Fields → Bool
has_key k fs = elim (get k fs) [ none ↦ false | some v ↦ true ]

module _ (codec : Codec) (max_bytes : ℕ) where
  -- `_send_error`
  unfoldable pub send_error : Json → ℤ → String → Result codec.Line
  send_error request_id code text =
      encode_line codec max_bytes (error_response request_id code text)

  -- the response that is written, or its failure, which is reported in its place
  abbrev pub or_error : Json → Result codec.Line → Result codec.Line
  or_error request_id (ok line) = ok line
  or_error request_id (err e) = send_error request_id (negsuc 31999) (message e)

  unfoldable pub respond : Json → Answer → Result codec.Line
  unfolding send_error
  respond request_id (returned result) =
      or_error request_id (encode_line codec max_bytes (result_response request_id result))
  respond request_id (raised e) = send_error request_id (negsuc 31999) (message e)
  respond request_id timed_out = send_error request_id (negsuc 32000) "Request timed out"

  -- `handlers` may change the state `S` of the controller.
  module _ {S : Type 0} (handlers : String → Option (Fields → S → Answer × S)) where
    -- a valid request with an identifier
    abbrev pub call_handler :
        Json → Fields → Option (Fields → S → Answer × S) → S → Result codec.Line × S
    call_handler request_id params none s =
        (send_error request_id (negsuc 32600) "Method not found", s)
    call_handler request_id params (some handler) s =
        let (answer, s') = handler params s in (respond request_id answer, s')

    abbrev pub sent_one : Result codec.Line → Result (List codec.Line)
    sent_one (ok line) = ok (line ∷ [])
    sent_one (err e) = err e

    -- a valid request: a notification is ignored
    abbrev pub serve_valid : Request → S → Result (List codec.Line) × S
    serve_valid request s =
        if is_null request.request_id
        then (ok [], s)
        else (let (sent, s') =
              call_handler request.request_id request.params (handlers request.method) s in
            (sent_one sent, s'))

    abbrev pub serve_invalid : Fields → Error → S → Result (List codec.Line) × S
    serve_invalid fs e s =
        if has_key "id" fs
        then (sent_one (send_error (get_value "id" fs) (negsuc 32599) (message e)), s)
        else (err e, s)

    abbrev pub serve_checked : Fields → Result Request → S → Result (List codec.Line) × S
    serve_checked fs (ok request) s = serve_valid request s
    serve_checked fs (err e) s = serve_invalid fs e s

    -- One round of `_serve_peer`: the lines that are written; an exception ends the connection.
    unfoldable pub serve_one : Fields → S → Result (List codec.Line) × S
    serve_one fs s = serve_checked fs (validate_request fs) s

    -- `_serve_peer` over what `readline` brings, until the server closes: the lines that are
    -- written, the state, and the exception that ended the connection.
    unfoldable pub serve : List (Result codec.Line) → S → List codec.Line × S × Result (Unit {0})
    unfolding serve_one
    serve [] s = ([], s, ok tt)
    serve (outcome ∷ outcomes) s = elim (read_line codec max_bytes outcome) [
      | err e ↦ ([], s, err e)
      | ok fs ↦
          let (sent, s') = serve_one fs s in
          elim sent [
            | err e ↦ ([], s', err e)
            | ok lines ↦ let (more, s'', done) = serve outcomes s' in (lines ++ more, s'', done)
          ]
    ]
