-- ===== src/Protocol/RoundTrip.antt =====
-- The two ends of the protocol agree: what the server sends is what the client lets through.
use tgent.Prelude.{
  ℕ, String, true, not, ◌≡◌, refl, Option, none, some, List, arith, take_text, ap, eq_refl, all,
  len, ◌≤◌, len-take_text, take_text_idem,
}
use tgent.Result.{ok, err, Error, protocol_error, >>=-eq-ok, guard-eq-ok}
use tgent.Json.{Json, null, str, obj, Fields, get_value, keys, eq_nat, eq_text, get}
use tgent.Protocol.Ids.{is_valid_id, mem_text, same_set}
use tgent.Protocol.Request.{expected, text_of, validate_request}
use tgent.Protocol.Request.Identifiers.{HasId, all-fields_of}
use tgent.Protocol.Request.Sound.{IsAccepted, validate_request-IsAccepted}
use tgent.Protocol.Dispatch.{
  Handler, or_unavailable, response, is_finite, dispatch_request, error_response, error_text,
}
use tgent.Protocol.Client.{check_members, check_response}

-- Every operation has a `request_id`.
request_table : all (λ (e : String × List String). mem_text "request_id" e.1) expected ≡ true
unfolding mem_text
request_table = refl

accepted-request_id : (fs : Fields) → IsAccepted fs → HasId "request_id" fs
unfolding mem_text
accepted-request_id fs a = a.identifiers "request_id" refl (
    all-fields_of (λ _ fields. mem_text "request_id" fields) a.operation expected a.fields
      request_table a.listed)

module _ (json_size : Json → ℕ) (handlers : String → Option Handler) (value : Json) {reply : Fields}
    (h : dispatch_request json_size value handlers ≡ ok reply) where
  dispatch_parts :
      (request : Fields) × (result : Json) × (validate_request json_size value ≡ ok request)
      × (reply ≡ response (get_value "request_id" request) true result null)
  unfolding dispatch_request
  dispatch_parts =
      let (request, valid, h1) = >>=-eq-ok (validate_request json_size value) _ h in
      let (handler, _, h2) =
        >>=-eq-ok
          (or_unavailable (text_of (get_value "operation" request))
            (handlers (text_of (get_value "operation" request))))
          _ h1 in
      let (result, _, h3) = >>=-eq-ok (handler request) _ h2 in
      let (_, same) =
        guard-eq-ok (not (is_finite result))
          (protocol_error "Remote operation returned a non-JSON result")
          (ok (response (get_value "request_id" request) true result null)) h3 in
      (request, result, valid, cc same)

module _ (show : Json → String) (request : Fields) (s : String)
    (named : get_value "request_id" request ≡ str s) where
  success_passes :
      (result : Json)
      → let reply = response (get_value "request_id" request) true result null in
        check_response show request (obj reply) ≡ ok reply
  unfolding check_response check_members response get_value keys same_set mem_text eq_nat eq_text
  success_passes result = rw named (simp eq_refl)

  -- An error response that repeats the valid identifier of a request comes back to its sender as
  -- it is, with `ok` false and the reason.
  pub error_passes :
      (e : Error)
      → is_valid_id s ≡ true
      → check_response show request (obj (error_response (some s) e))
        ≡ ok (error_response (some s) e)
  unfolding check_response check_members error_response get_value keys same_set mem_text eq_nat
      eq_text
  error_passes e valid = rw (named, valid) (simp eq_refl)

module _ (json_size : Json → ℕ) (show : Json → String) (handlers : String → Option Handler) where
  -- Whenever the server answers a request with a result, the client that sent the request lets
  -- the answer through unchanged.
  pub dispatch_passes :
      (value : Json) (reply : Fields)
      → dispatch_request json_size value handlers ≡ ok reply
      → (request : Fields) × (validate_request json_size value ≡ ok request)
        × (check_response show request (obj reply) ≡ ok reply)
  dispatch_passes value reply h =
      let (request, result, valid, same) = dispatch_parts json_size handlers value h in
      let (s, named, _) =
        accepted-request_id request (validate_request-IsAccepted json_size value request valid).1 in
      (request, valid, rw same (success_passes show request s named result))

-- The text of an error response has at most 500 characters.
error_text-le : (e : Error) → len (error_text e) ≤ 500
unfolding len
error_text-le (protocol_error s) = len-take_text 500 s
error_text-le _ = omega arith

-- The text that the client raises is the text that the server sent.
error_text-take : (e : Error) → take_text 500 (error_text e) ≡ error_text e
unfolding take_text
error_text-take (protocol_error s) = take_text_idem 500 s
error_text-take _ = refl

-- An error response to a request without a usable identifier reaches the caller as a protocol
-- error with the text of the response.
pub error_raises :
    (show : Json → String) (request : Fields) (e : Error)
    → check_response show request (obj (error_response none e))
      ≡ err (protocol_error (error_text e))
unfolding check_response check_members error_response get_value get keys same_set mem_text eq_nat
    eq_text
error_raises show request e = ap (λ t. err (protocol_error t)) (error_text-take e)
