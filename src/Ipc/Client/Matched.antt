-- ===== src/Ipc/Client/Matched.antt =====
-- What a request of the worker that returns has read, and the client after one that is overdue.
use tgent.Prelude.{
  ℕ, suc, String, Bool, true, false, not, ◌≡◌, refl, Option, none, some, ◌==◌, inl, inr, Bool-cases,
  ◌||◌,
}
use tgent.Result.{Result, ok, err, ipc_error, >>=-eq-ok, guard-eq-ok, IsErr}
use tgent.Json.{Json, null, int, obj, negsuc, Fields, ℤ, get, get_value, eq_text, eq_nat, get_value}
use tgent.Ipc.Messages.{Codec, encode_line, read_line}
use tgent.Ipc.Client.{
  Client, Exchange, overdue, read, request_fields, check_reply, result_of, remote_error, request,
  send_request, finish_exchange, or_default, or_result,
}

module _ (as_int : Json → Result ℤ) (as_text : Json → String) (codec : Codec) (max_bytes : ℕ) where
  -- The line was sent over an open connection, and the answer to it has the request's identifier.
  pub record Matched (exchange : codec.Line → Exchange codec.Line) (method : String)
      (params : Fields) (client : Client) (result : Json) : Type 0 where
    pub open_connection : client.connected ≡ true
    pub line : codec.Line
    pub sent :
        encode_line codec max_bytes (request_fields (suc client.request_id) method params) ≡ ok line
    pub outcome : Result codec.Line
    pub arrived : exchange line ≡ read outcome
    pub response : Fields
    pub readable : read_line codec max_bytes outcome ≡ ok response
    pub matched : eq_nat (suc client.request_id) (get_value "id" response) ≡ true
    pub holds : get "result" response ≡ some result

  or_false : (a b : Bool) → (not a || not b) ≡ false → b ≡ true
  or_false true true h = refl
  or_false true false h = cc
  or_false false b h = cc

  remote_error-raises :
      (error : Json) (result : Json) → remote_error as_int as_text error ≡ ok result → ⊥
  unfolding remote_error
  remote_error-raises (obj error) result h =
      let (code, whole, raised) =
        >>=-eq-ok (as_int (or_default (int (negsuc 31999)) (get "code" error))) _ h in
      cc
  remote_error-raises _ result h = cc

  or_result-eq-ok :
      (o : Option Json) (result : Json) → or_result as_int as_text o ≡ ok result → o ≡ some result
  or_result-eq-ok none result h = cc
  or_result-eq-ok (some v) result h = cc

  result_of-eq-ok :
      (error : Json) (response : Fields) (result : Json)
      → result_of as_int as_text error response ≡ ok result
      → get "result" response ≡ some result
  result_of-eq-ok null response result h = or_result-eq-ok (get "result" response) result h
  result_of-eq-ok error response result h = absurd (remote_error-raises error result h)

  sent-Matched :
      (exchange : codec.Line → Exchange codec.Line) (method : String) (params : Fields)
      (client next : Client) (line : codec.Line) (x : Exchange codec.Line) (result : Json)
      → client.connected ≡ true
      → encode_line codec max_bytes (request_fields (suc client.request_id) method params) ≡ ok line
      → exchange line ≡ x
      → (finish_exchange as_int as_text codec max_bytes (suc client.request_id) method next x).0
        ≡ ok result
      → Matched exchange method params client result
  unfolding check_reply
  sent-Matched exchange method params client next line overdue result up sent e h = cc
  sent-Matched exchange method params client next line (read outcome) result up sent e h =
      let (response, readable, h1) = >>=-eq-ok (read_line codec max_bytes outcome) _ h in
      let (passed, h2) =
        guard-eq-ok
          (not (eq_text "2.0" (get_value "jsonrpc" response))
            || not (eq_nat (suc client.request_id) (get_value "id" response)))
          _ _ h1 in
      record {
        open_connection = up;
        line = line;
        sent = sent;
        outcome = outcome;
        arrived = e;
        response = response;
        readable = readable;
        matched =
            or_false (eq_text "2.0" (get_value "jsonrpc" response))
              (eq_nat (suc client.request_id) (get_value "id" response)) passed;
        holds = result_of-eq-ok (get_value "error" response) response result h2;
      }

  encoded-Matched :
      (exchange : codec.Line → Exchange codec.Line) (method : String) (params : Fields)
      (client next : Client) (r : Result codec.Line) (result : Json)
      → client.connected ≡ true
      → encode_line codec max_bytes (request_fields (suc client.request_id) method params) ≡ r
      → (send_request as_int as_text codec max_bytes
          (suc client.request_id)
          method
          next
          exchange
          r).0
        ≡ ok result
      → Matched exchange method params client result
  encoded-Matched exchange method params client next (ok line) result up sent h =
      sent-Matched exchange method params client next line (exchange line) result up sent refl h
  encoded-Matched exchange method params client next (err e) result up sent h = cc

  -- A request that returns was sent over an open connection, and what it returns is the result of a
  -- response that was read after it and has its identifier.
  pub request-Matched :
      (exchange : codec.Line → Exchange codec.Line) (method : String) (params : Fields)
      (client : Client) (result : Json)
      → (request as_int as_text codec max_bytes exchange method params client).0 ≡ ok result
      → Matched exchange method params client result
  unfolding request
  request-Matched exchange method params client result h = elim (Bool-cases client.connected) [
    | inr down ↦ cc (rw down at h)
    | inl up ↦ elim (Bool-cases (method == "")) [
      | inl empty ↦ cc (rw (up, empty) at h)
      | inr named ↦
          encoded-Matched exchange method params client
            (record { request_id = suc client.request_id; connected = true })
            (encode_line codec max_bytes (request_fields (suc client.request_id) method params))
            result up refl (rw (up, named) at h)
    ]
  ]

  -- A request that is overdue ends the connection: it raises, and every later request of the client
  -- raises too and changes nothing, so that no late response is taken for the answer to another
  -- request.
  pub overdue_closes :
      (exchange later : codec.Line → Exchange codec.Line) (method other : String)
      (params more : Fields) (client : Client) (line : codec.Line)
      → client.connected ≡ true
      → (method == "") ≡ false
      → encode_line codec max_bytes (request_fields (suc client.request_id) method params) ≡ ok line
      → exchange line ≡ overdue
      → let (outcome, closed) =
          request as_int as_text codec max_bytes exchange method params client in
        IsErr outcome
        × (request as_int as_text codec max_bytes later other more closed
            ≡ (err (ipc_error "Worker is not connected"), closed))
  unfolding request
  overdue_closes exchange later method other params more client line up named sent late =
      rw (up, named, sent, late) (tt, refl)
