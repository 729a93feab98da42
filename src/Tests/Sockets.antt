-- ===== src/Tests/Sockets.antt =====
-- A connection whose lines are objects, an echoing handler, and one that fails.
use Prim.Native.String.{◌++◌}
use tgent.Prelude.{
  ℕ, String, true, false, ◌+◌, ◌≡◌, ◌⊎◌, refl, Option, some, none, [], ◌∷◌, ◌==◌, if◌then◌else◌,
}
use tgent.Result.{Result, ok, err, message, store_error, ipc_error, IsErr}
use tgent.Json.{
  Json, int, str, obj, Fields, end, field, ℤ, pos, negsuc, get_value, get, eq_text, int_text,
  eq_nat,
}
use tgent.Ipc.Messages.{Codec, IsCodec, encode_line, read_line, validate_request}
use tgent.Ipc.Serve.{
  Answer, returned, raised, serve_one, serve, respond, result_response, error_response,
}
use tgent.Ipc.Serve.Answers.{serve_one-AnswersTo, serve-Answered, AnswersTo, Answered}
use tgent.Ipc.Serve.Runs.{Ran, serve_one-Ran}
use tgent.Ipc.Client.{
  Client, Exchange, read, overdue, request_fields, request, check_reply, remote_error,
}
use tgent.Ipc.Client.Matched.{Matched, request-Matched, overdue_closes}
use tgent.Ipc.Client.Calls.{request-returned, request-raised, peer}

abbrev codec : Codec
codec = record {
  Line = Fields;
  dumps = λ fs. ok fs;
  loads = λ fs. ok (obj fs);
  size = λ fs. 0;
  ended = λ fs. true;
  empty = λ fs. false;
}

codec-IsCodec : IsCodec codec
codec-IsCodec = record { written = λ fs line h. (cc, refl, refl) }

-- the state counts the calls
abbrev handlers : String → Option (Fields → ℕ → Answer × ℕ)
handlers method =
    if method == "echo"
    then some (λ fs s. (returned (obj fs), 1 + s))
    else if method == "fail"
    then some (λ fs s. (raised (store_error "no"), 1 + s))
    else none

abbrev echo : Fields → ℕ → Answer × ℕ
echo fs s = (returned (obj fs), 1 + s)

abbrev fail : Fields → ℕ → Answer × ℕ
fail fs s = (raised (store_error "no"), 1 + s)

abbrev params : Fields
params = field "text" (str "hello") end

abbrev as_int : Json → Result ℤ
as_int (int n) = ok n
as_int _ = err (ipc_error "int")

abbrev as_text : Json → String
as_text (str s) = s
as_text _ = ""

abbrev client : Client
client = record { request_id = 6; connected = true }

abbrev echo_answer : Fields
echo_answer =
    field "jsonrpc" (str "2.0") (field "id" (int (pos 7)) (field "result" (obj params) end))

served :
    (serve_one codec 1000 handlers (request_fields 7 "echo" params) 0).0 ≡ ok (echo_answer ∷ [])
unfolding serve_one request_fields validate_request respond encode_line result_response get
    get_value eq_text
served = refl

serve_one-AnswersTo_example :
    AnswersTo codec codec-IsCodec 1000
      (get_value "id" (request_fields 7 "echo" params))
      (echo_answer ∷ [])
serve_one-AnswersTo_example =
    serve_one-AnswersTo codec codec-IsCodec 1000 handlers (request_fields 7 "echo" params) 0
      (echo_answer ∷ []) served

serve-Answered_example :
    Answered codec codec-IsCodec 1000 handlers
      (ok (request_fields 7 "echo" params) ∷ [])
      (serve codec 1000 handlers (ok (request_fields 7 "echo" params) ∷ []) 0).0
      (serve codec 1000 handlers (ok (request_fields 7 "echo" params) ∷ []) 0).2
serve-Answered_example =
    serve-Answered codec codec-IsCodec 1000 handlers (ok (request_fields 7 "echo" params) ∷ []) 0

encoded : (fs : Fields) → encode_line codec 1000 fs ≡ ok fs
unfolding encode_line
encoded fs = refl

request-returned_example :
    request as_int as_text codec 1000
      (peer codec codec-IsCodec 1000 handlers 0)
      "echo"
      params
      client
    ≡ (ok (obj params), record { request_id = 7; connected = true })
request-returned_example =
    request-returned codec codec-IsCodec 1000 as_int as_text handlers 0 "echo" params echo refl refl
      client refl (request_fields 7 "echo" params) (result_response (int (pos 7)) (obj params))
      (encoded (request_fields 7 "echo" params)) (obj params) refl
      (encoded (result_response (int (pos 7)) (obj params)))

request-raised_example :
    request as_int as_text codec 1000
      (peer codec codec-IsCodec 1000 handlers 0)
      "fail"
      params
      client
    ≡ (
      err (
          ipc_error (
            "JSON-RPC error "
            ++ (int_text (negsuc 31999) ++ (": " ++ message (store_error "no"))))),
      record { request_id = 7; connected = true },
    )
request-raised_example =
    request-raised codec codec-IsCodec 1000 as_int as_text handlers 0 "fail" params fail refl refl
      client refl (request_fields 7 "fail" params)
      (error_response (int (pos 7)) (negsuc 31999) (message (store_error "no")))
      (encoded (request_fields 7 "fail" params)) (store_error "no") refl
      (encoded (error_response (int (pos 7)) (negsuc 31999) (message (store_error "no")))) refl refl

serve_one-Ran_example :
    ((serve_one codec 1000 handlers (request_fields 7 "echo" params) 0).1 ≡ 0)
    ⊎ Ran codec 1000 handlers
        (request_fields 7 "echo" params)
        0
        (serve_one codec 1000 handlers (request_fields 7 "echo" params) 0).1
serve_one-Ran_example = serve_one-Ran codec 1000 handlers (request_fields 7 "echo" params) 0

abbrev answering : Fields → Exchange Fields
answering line = read (ok echo_answer)

request_answered :
    (request as_int as_text codec 1000 answering "echo" params client).0 ≡ ok (obj params)
unfolding request encode_line read_line request_fields check_reply remote_error get get_value
    eq_text eq_nat
request_answered = refl

request-Matched_example :
    Matched as_int as_text codec 1000 answering "echo" params client (obj params)
request-Matched_example =
    request-Matched as_int as_text codec 1000 answering "echo" params client (obj params)
      request_answered

abbrev silent : Fields → Exchange Fields
silent line = overdue

overdue_closes_example :
    IsErr (request as_int as_text codec 1000 silent "echo" params client).0
    × (request as_int as_text codec 1000 answering "fail" params
          (request as_int as_text codec 1000 silent "echo" params client).1
        ≡ (
          err (ipc_error "Worker is not connected"),
          (request as_int as_text codec 1000 silent "echo" params client).1,
        ))
overdue_closes_example =
    overdue_closes as_int as_text codec 1000 silent answering "echo" "fail" params params client
      (request_fields 7 "echo" params) refl refl (encoded (request_fields 7 "echo" params)) refl
