-- ===== src/Ipc/Serve/Answers.antt =====
-- Each request is answered once, in order, and with its own identifier.
use mathlib.Core.Path.{subst}
use tgent.Prelude.{
  ℕ, String, true, false, ◌≡◌, refl, sym, ap, ◌∙◌, Option, none, some, List, [], ◌∷◌, ◌++◌, ◌⊎◌,
  inl, inr, Bool-cases, not,
}
use tgent.Result.{Result, ok, err, Error, message, Result-cases, guard-eq-ok, >>=-eq-ok}
use tgent.Json.{Json, null, Fields, ℤ, negsuc, get, get_value, eq_text, is_null}
use tgent.Ipc.Messages.{
  Codec, IsCodec, Request, encode_line, read_line, validate_request, or_method, or_params, is_id,
}
use tgent.Ipc.Messages.Lines.{read-encoded}
use tgent.Ipc.Serve.{
  Answer, returned, raised, timed_out, result_response, error_response, has_key, send_error,
  or_error, respond, call_handler, sent_one, serve_valid, serve_invalid, serve_checked, serve_one,
  serve,
}

same_error : {A : Type 0} (x e : Error) → ◌≡◌ {A = Result A} (err x) (err e) → x ≡ e
same_error x e h = cc

is_null-eq : (v : Json) → is_null v ≡ true → v ≡ null
is_null-eq null h = refl
is_null-eq _ h = cc

nothing-sent : {A : Type 0} (lines : List A) → ok [] ≡ ok lines → lines ≡ []
nothing-sent lines h = cc

abbrev id_of : Result Request → Json
id_of (ok request) = request.request_id
id_of (err e) = null

validate_request-request_id :
    (fs : Fields) (request : Request)
    → validate_request fs ≡ ok request
    → request.request_id ≡ get_value "id" fs
unfolding validate_request
validate_request-request_id fs request h =
    let (_, h1) = guard-eq-ok (not (eq_text "2.0" (get_value "jsonrpc" fs))) _ _ h in
    let (method, _, h2) = >>=-eq-ok (or_method (get_value "method" fs)) _ h1 in
    let (_, h3) = guard-eq-ok (not (is_id (get_value "id" fs))) _ _ h2 in
    let (params, _, same) = >>=-eq-ok (or_params (get "params" fs)) _ h3 in
    sym (ap (λ (r : Result Request). id_of r) same)

module _ (codec : Codec) (is_codec : IsCodec codec) (max_bytes : ℕ) where
  -- The line reads as a response to the request with this identifier.
  pub record IsAnswer (request_id : Json) (line : codec.Line) : Type 0 where
    pub response : Fields
    pub readable : read_line codec max_bytes (ok line) ≡ ok response
    pub versioned : eq_text "2.0" (get_value "jsonrpc" response) ≡ true
    pub matched : get_value "id" response ≡ request_id

  send_error-IsAnswer :
      (request_id : Json) (code : ℤ) (text : String) (line : codec.Line)
      → send_error codec max_bytes request_id code text ≡ ok line
      → IsAnswer request_id line
  unfolding send_error error_response get_value eq_text
  send_error-IsAnswer request_id code text line h = record {
    response = error_response request_id code text;
    readable = read-encoded codec max_bytes _ line is_codec h;
    versioned = refl;
    matched = refl;
  }

  result-IsAnswer :
      (request_id result : Json) (line : codec.Line)
      → encode_line codec max_bytes (result_response request_id result) ≡ ok line
      → IsAnswer request_id line
  unfolding result_response get_value eq_text
  result-IsAnswer request_id result line h = record {
    response = result_response request_id result;
    readable = read-encoded codec max_bytes _ line is_codec h;
    versioned = refl;
    matched = refl;
  }

  or_error-IsAnswer :
      (request_id result : Json) (r : Result codec.Line) (line : codec.Line)
      → encode_line codec max_bytes (result_response request_id result) ≡ r
      → or_error codec max_bytes request_id r ≡ ok line
      → IsAnswer request_id line
  or_error-IsAnswer request_id result (ok l) line e h =
      result-IsAnswer request_id result line (e ∙ h)
  or_error-IsAnswer request_id result (err x) line e h =
      send_error-IsAnswer request_id (negsuc 31999) (message x) line h

  respond-IsAnswer :
      (request_id : Json) (answer : Answer) (line : codec.Line)
      → respond codec max_bytes request_id answer ≡ ok line
      → IsAnswer request_id line
  unfolding respond
  respond-IsAnswer request_id (returned result) line h =
      or_error-IsAnswer request_id result
        (encode_line codec max_bytes (result_response request_id result)) line refl h
  respond-IsAnswer request_id (raised e) line h =
      send_error-IsAnswer request_id (negsuc 31999) (message e) line h
  respond-IsAnswer request_id timed_out line h =
      send_error-IsAnswer request_id (negsuc 32000) "Request timed out" line h

  -- The lines are the answer to the request: none to a notification, and one otherwise.
  abbrev pub AnswersTo : Json → List codec.Line → Type 0
  AnswersTo request_id lines =
      ((request_id ≡ null) × (lines ≡ []))
      ⊎ ((line : codec.Line) × (lines ≡ line ∷ []) × IsAnswer request_id line)

  -- No error response to the request can be written, and this is the failure.
  abbrev pub IsUnwritable : Json → Error → Type 0
  IsUnwritable request_id e =
      (code : ℤ) × (text : String) × (encode_line codec max_bytes
          (error_response request_id code text)
        ≡ err e)

  -- Why a request ends the connection: it is invalid and has no identifier to answer to, or its
  -- answer is an error response that cannot be written.
  abbrev pub Breaks : Fields → Error → Type 0
  Breaks fs e =
      ((has_key "id" fs ≡ false) × (validate_request fs ≡ err e))
      ⊎ IsUnwritable (get_value "id" fs) e

  send_error-IsUnwritable :
      (request_id : Json) (code : ℤ) (text : String) (e : Error)
      → send_error codec max_bytes request_id code text ≡ err e
      → IsUnwritable request_id e
  unfolding send_error
  send_error-IsUnwritable request_id code text e h = (code, text, h)

  or_error-IsUnwritable :
      (request_id : Json) (r : Result codec.Line) (e : Error)
      → or_error codec max_bytes request_id r ≡ err e
      → IsUnwritable request_id e
  or_error-IsUnwritable request_id (ok line) e h = cc
  or_error-IsUnwritable request_id (err x) e h =
      send_error-IsUnwritable request_id (negsuc 31999) (message x) e h

  respond-IsUnwritable :
      (request_id : Json) (answer : Answer) (e : Error)
      → respond codec max_bytes request_id answer ≡ err e
      → IsUnwritable request_id e
  unfolding respond
  respond-IsUnwritable request_id (returned result) e h =
      or_error-IsUnwritable request_id
        (encode_line codec max_bytes (result_response request_id result)) e h
  respond-IsUnwritable request_id (raised x) e h =
      send_error-IsUnwritable request_id (negsuc 31999) (message x) e h
  respond-IsUnwritable request_id timed_out e h =
      send_error-IsUnwritable request_id (negsuc 32000) "Request timed out" e h

  module _ {S : Type 0} (handlers : String → Option (Fields → S → Answer × S)) where
    sent_one-eq-err :
        (r : Result codec.Line) (e : Error)
        → sent_one codec max_bytes handlers r ≡ err e
        → r ≡ err e
    sent_one-eq-err (ok line) e h = cc
    sent_one-eq-err (err x) e h = cc

    call_handler-IsUnwritable :
        (request_id : Json) (params : Fields) (h : Option (Fields → S → Answer × S)) (s : S)
        (e : Error)
        → (call_handler codec max_bytes handlers request_id params h s).0 ≡ err e
        → IsUnwritable request_id e
    call_handler-IsUnwritable request_id params none s e h =
        send_error-IsUnwritable request_id (negsuc 32600) "Method not found" e h
    call_handler-IsUnwritable request_id params (some handler) s e h =
        respond-IsUnwritable request_id (handler params s).0 e h

    serve_valid-IsUnwritable :
        (request : Request) (s : S) (e : Error)
        → (serve_valid codec max_bytes handlers request s).0 ≡ err e
        → IsUnwritable request.request_id e
    serve_valid-IsUnwritable request s e h = elim (Bool-cases (is_null request.request_id)) [
      | inl n ↦ cc (rw n at h)
      | inr p ↦
          let call =
            call_handler codec max_bytes handlers request.request_id request.params
              (handlers request.method) s in
          call_handler-IsUnwritable request.request_id request.params (handlers request.method) s e
            (sent_one-eq-err call.0 e (rw p at h))
    ]

    serve_checked-Breaks :
        (fs : Fields) (r : Result Request) (s : S) (e : Error)
        → validate_request fs ≡ r
        → (serve_checked codec max_bytes handlers fs r s).0 ≡ err e
        → Breaks fs e
    serve_checked-Breaks fs (ok request) s e v h = inr (
        subst (λ request_id. IsUnwritable request_id e) (validate_request-request_id fs request v)
          (serve_valid-IsUnwritable request s e h))
    serve_checked-Breaks fs (err x) s e v h = elim (Bool-cases (has_key "id" fs)) [
      | inl k ↦ inr (
          send_error-IsUnwritable (get_value "id" fs) (negsuc 32599) (message x) e (
            sent_one-eq-err
              (send_error codec max_bytes (get_value "id" fs) (negsuc 32599) (message x)) e
              (rw k at h)))
      | inr k ↦ inl (k, v ∙ ap err (same_error x e (rw k at h)))
    ]

    serve_one-Breaks :
        (fs : Fields) (s : S) (e : Error)
        → (serve_one codec max_bytes handlers fs s).0 ≡ err e
        → Breaks fs e
    unfolding serve_one
    serve_one-Breaks fs s e h = serve_checked-Breaks fs (validate_request fs) s e refl h

    call_handler-IsAnswer :
        (request_id : Json) (params : Fields) (h : Option (Fields → S → Answer × S)) (s : S)
        (line : codec.Line)
        → (call_handler codec max_bytes handlers request_id params h s).0 ≡ ok line
        → IsAnswer request_id line
    call_handler-IsAnswer request_id params none s line h =
        send_error-IsAnswer request_id (negsuc 32600) "Method not found" line h
    call_handler-IsAnswer request_id params (some handler) s line h =
        respond-IsAnswer request_id (handler params s).0 line h

    sent_one-AnswersTo :
        (request_id : Json) (r : Result codec.Line) (lines : List codec.Line)
        → ((line : codec.Line) → r ≡ ok line → IsAnswer request_id line)
        → sent_one codec max_bytes handlers r ≡ ok lines
        → AnswersTo request_id lines
    sent_one-AnswersTo request_id (ok line) lines f h = inr (line, cc, f line refl)
    sent_one-AnswersTo request_id (err e) lines f h = cc

    serve_valid-AnswersTo :
        (request : Request) (s : S) (lines : List codec.Line)
        → (serve_valid codec max_bytes handlers request s).0 ≡ ok lines
        → AnswersTo request.request_id lines
    serve_valid-AnswersTo request s lines h = elim (Bool-cases (is_null request.request_id)) [
      | inl n ↦ inl (is_null-eq request.request_id n, nothing-sent lines (rw n at h))
      | inr p ↦
          let call =
            call_handler codec max_bytes handlers request.request_id request.params
              (handlers request.method) s in
          sent_one-AnswersTo request.request_id call.0 lines
            (call_handler-IsAnswer request.request_id request.params (handlers request.method) s)
            (rw p at h)
    ]

    serve_invalid-AnswersTo :
        (fs : Fields) (e : Error) (s : S) (lines : List codec.Line)
        → (serve_invalid codec max_bytes handlers fs e s).0 ≡ ok lines
        → AnswersTo (get_value "id" fs) lines
    serve_invalid-AnswersTo fs e s lines h = elim (Bool-cases (has_key "id" fs)) [
      | inl k ↦
          sent_one-AnswersTo (get_value "id" fs)
            (send_error codec max_bytes (get_value "id" fs) (negsuc 32599) (message e)) lines
            (send_error-IsAnswer (get_value "id" fs) (negsuc 32599) (message e)) (rw k at h)
      | inr k ↦ cc (rw k at h)
    ]

    serve_checked-AnswersTo :
        (fs : Fields) (r : Result Request) (s : S) (lines : List codec.Line)
        → validate_request fs ≡ r
        → (serve_checked codec max_bytes handlers fs r s).0 ≡ ok lines
        → AnswersTo (get_value "id" fs) lines
    serve_checked-AnswersTo fs (ok request) s lines e h =
        subst (λ v. AnswersTo v lines) (validate_request-request_id fs request e)
          (serve_valid-AnswersTo request s lines h)
    serve_checked-AnswersTo fs (err x) s lines e h = serve_invalid-AnswersTo fs x s lines h

    -- A round that does not end the connection answers its request: with nothing where the request
    -- has no identifier, and else with one line, a response that has the identifier of the request.
    pub serve_one-AnswersTo :
        (fs : Fields) (s : S) (lines : List codec.Line)
        → (serve_one codec max_bytes handlers fs s).0 ≡ ok lines
        → AnswersTo (get_value "id" fs) lines
    unfolding serve_one
    serve_one-AnswersTo fs s lines h =
        serve_checked-AnswersTo fs (validate_request fs) s lines refl h

    -- The lines that are sent over a connection answer the requests of the lines that are read, in
    -- their order, up to the one that ends the connection.
    pub data Answered
        : List (Result codec.Line) → List codec.Line → Result (Unit {0}) → Type 0 where
      closed : Answered [] [] (ok tt)
      unreadable :
          {outcome : Result codec.Line} {rest : List (Result codec.Line)} {e : Error}
          → read_line codec max_bytes outcome ≡ err e
          → Answered (outcome ∷ rest) [] (err e)
      broken :
          {outcome : Result codec.Line} {rest : List (Result codec.Line)} {e : Error} (fs : Fields)
          → read_line codec max_bytes outcome ≡ ok fs
          → Breaks fs e
          → Answered (outcome ∷ rest) [] (err e)
      answered :
          {outcome : Result codec.Line} {rest : List (Result codec.Line)}
          {more all : List codec.Line} {done : Result (Unit {0})} (fs : Fields)
          (lines : List codec.Line)
          → read_line codec max_bytes outcome ≡ ok fs
          → AnswersTo (get_value "id" fs) lines
          → Answered rest more done
          → lines ++ more ≡ all
          → Answered (outcome ∷ rest) all done

    -- A connection is served as `Answered` says: each line that can be read is answered before the
    -- next one is read, and what ends the connection is a line that cannot be read, an invalid
    -- request without an identifier, or an error response that cannot be written; its exception is
    -- the one reported.
    pub serve-Answered :
        (outcomes : List (Result codec.Line)) (s : S)
        → let (sent, s', done) = serve codec max_bytes handlers outcomes s in
          Answered outcomes sent done
    unfolding serve
    serve-Answered [] s = closed
    serve-Answered (outcome ∷ rest) s = elim (Result-cases (read_line codec max_bytes outcome)) [
      | inr (e, h) ↦ rw (h, serve) (unreadable h)
      | inl (fs, h) ↦ elim (Result-cases (serve_one codec max_bytes handlers fs s).0) [
        | inr (e, g) ↦ rw (h, g, serve) (broken fs h (serve_one-Breaks fs s e g))
        | inl (lines, g) ↦
            rw (h, g, serve)
              (answered fs lines h (serve_one-AnswersTo fs s lines g)
                (serve-Answered rest (serve_one codec max_bytes handlers fs s).1) refl)
      ]
    ]
