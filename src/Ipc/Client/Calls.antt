-- ===== src/Ipc/Client/Calls.antt =====
-- A request of the worker, through the server of the controller and back.
use Prim.Native.String.{◌++◌}
use tgent.Prelude.{
  ℕ, suc, String, true, false, ◌≡◌, refl, ap, ◌∙◌, Option, some, List, [], ◌∷◌, ◌==◌, nat_eq_refl,
}
use tgent.Result.{Result, ok, err, Error, ipc_error, message, ◌>>=◌}
use tgent.Json.{Json, int, str, Fields, ℤ, pos, negsuc, get, get_value, eq_text, eq_nat, int_text}
use tgent.Ipc.Messages.{Codec, IsCodec, encode_line, read_line, validate_request}
use tgent.Ipc.Messages.Lines.{read-encoded}
use tgent.Ipc.Serve.{
  Answer, returned, raised, result_response, error_response, respond, serve_one, send_error,
  sent_one,
}
use tgent.Ipc.Client.{Client, Exchange, read, request_fields, check_reply, remote_error, request}

validate-request_fields :
    (n : ℕ) (method : String) (params : Fields)
    → (method == "") ≡ false
    → validate_request (request_fields n method params)
      ≡ ok (record { method = method; request_id = int (pos n); params = params })
unfolding request_fields validate_request get get_value eq_text
validate-request_fields n method params named = rw named refl

module _ (codec : Codec) (is_codec : IsCodec codec) (max_bytes : ℕ) where
  -- what the server makes of one line, as the worker reads it
  abbrev pub first_line : Result (List codec.Line) → Result codec.Line
  first_line (ok (line ∷ lines)) = ok line
  first_line (ok []) = err (ipc_error "no line")
  first_line (err e) = err e

  module _ {S : Type 0} (handlers : String → Option (Fields → S → Answer × S)) (s : S) where
    -- what the server writes for the line
    abbrev pub reply : codec.Line → Result codec.Line
    reply line = read_line codec max_bytes (ok line) >>= λ fs.
        first_line (serve_one codec max_bytes handlers fs s).0

    abbrev pub peer : codec.Line → Exchange codec.Line
    peer line = read (reply line)

    module _ (method : String) (params : Fields) (handler : Fields → S → Answer × S)
        (named : (method == "") ≡ false) (handled : handlers method ≡ some handler) where
      -- The request of a worker is valid, and its handler is called with its parameters.
      serve_one-request_fields :
          (n : ℕ)
          → serve_one codec max_bytes handlers (request_fields n method params) s ≡ (
            sent_one codec max_bytes handlers
                (respond codec max_bytes (int (pos n)) (handler params s).0),
            (handler params s).1,
          )
      unfolding serve_one
      serve_one-request_fields n = rw (validate-request_fields n method params named, handled) refl

      reply-request_fields :
          (n : ℕ) (line out : codec.Line)
          → encode_line codec max_bytes (request_fields n method params) ≡ ok line
          → respond codec max_bytes (int (pos n)) (handler params s).0 ≡ ok out
          → reply line ≡ ok out
      reply-request_fields n line out sent answered =
          rw
            (
              read-encoded codec max_bytes _ line is_codec sent,
              serve_one-request_fields n,
              answered,
            )
            refl

  check_reply-result :
      (as_int : Json → Result ℤ) (as_text : Json → String) (n : ℕ) (result : Json)
      → check_reply as_int as_text n (result_response (int (pos n)) result) ≡ ok result
  unfolding check_reply result_response get get_value eq_text eq_nat
  check_reply-result as_int as_text n result = rw (nat_eq_refl n) refl

  check_reply-error :
      (as_int : Json → Result ℤ) (as_text : Json → String) (n : ℕ) (code : ℤ) (text : String)
      → as_int (int code) ≡ ok code
      → as_text (str text) ≡ text
      → check_reply as_int as_text n (error_response (int (pos n)) code text)
        ≡ err (ipc_error ("JSON-RPC error " ++ (int_text code ++ (": " ++ text))))
  unfolding check_reply error_response remote_error get get_value eq_text eq_nat
  check_reply-error as_int as_text n code text whole plain = rw (nat_eq_refl n, whole, plain) refl

  module _ (as_int : Json → Result ℤ) (as_text : Json → String) {S : Type 0}
      (handlers : String → Option (Fields → S → Answer × S)) (s : S) (method : String)
      (params : Fields) (handler : Fields → S → Answer × S) (named : (method == "") ≡ false)
      (handled : handlers method ≡ some handler) (client : Client)
      (open_connection : client.connected ≡ true) (line out : codec.Line)
      (sent : encode_line codec max_bytes (request_fields (suc client.request_id) method params)
        ≡ ok line) where
    abbrev pub called : Client
    called = record client { request_id = suc client.request_id }

    -- What the request returns is what the response to it says.
    request-response :
        (response : Fields)
        → respond codec max_bytes (int (pos (suc client.request_id))) (handler params s).0 ≡ ok out
        → encode_line codec max_bytes response ≡ ok out
        → request as_int as_text codec max_bytes (peer handlers s) method params client
          ≡ (check_reply as_int as_text (suc client.request_id) response, called)
    unfolding request
    request-response response answered written =
        rw
          (
            open_connection,
            named,
            sent,
            reply-request_fields handlers s method params handler named handled
                (suc client.request_id) line out sent answered,
            read-encoded codec max_bytes response out is_codec written,
          )
          refl

    -- A handler's result comes back to the worker that asked for it, whatever the result is: a
    -- handler that returns a value under an open connection, where the request and the response can
    -- be written.
    pub request-returned :
        (result : Json)
        → (handler params s).0 ≡ returned result
        → encode_line codec max_bytes (result_response (int (pos (suc client.request_id))) result)
          ≡ ok out
        → request as_int as_text codec max_bytes (peer handlers s) method params client
          ≡ (ok result, called)
    unfolding respond
    request-returned result answer written =
        request-response _ (rw (answer, written) refl) written
        ∙ ap (λ (r : Result Json). (r, called))
            (check_reply-result as_int as_text (suc client.request_id) result)

    -- A handler's exception comes back as an exception of the worker with the same text behind the
    -- code -32000, where the request and the response can be written, `int` of an integer is the
    -- integer and `str` of a text the text.
    pub request-raised :
        (e : Error)
        → (handler params s).0 ≡ raised e
        → encode_line codec max_bytes
            (error_response (int (pos (suc client.request_id))) (negsuc 31999) (message e))
          ≡ ok out
        → as_int (int (negsuc 31999)) ≡ ok (negsuc 31999)
        → as_text (str (message e)) ≡ message e
        → request as_int as_text codec max_bytes (peer handlers s) method params client ≡ (
          err (ipc_error ("JSON-RPC error " ++ (int_text (negsuc 31999) ++ (": " ++ message e)))),
          called,
        )
    unfolding respond send_error
    request-raised e answer written whole plain =
        request-response _ (rw (answer, written) refl) written
        ∙ ap (λ (r : Result Json). (r, called))
            (check_reply-error as_int as_text (suc client.request_id) (negsuc 31999) (message e)
              whole plain)
