-- ===== src/Ipc/Serve/Runs.antt =====
-- Which lines of a connection run a handler.
use tgent.Prelude.{
  ℕ, String, false, ◌≡◌, refl, Option, some, ◌⊎◌, inl, inr, Bool-cases, Option-cases,
}
use tgent.Result.{ok, Result-cases}
use tgent.Json.{Fields, is_null}
use tgent.Ipc.Messages.{Codec, Request, validate_request}
use tgent.Ipc.Serve.{Answer, serve_one, has_key}

module _ (codec : Codec) (max_bytes : ℕ) {S : Type 0}
    (handlers : String → Option (Fields → S → Answer × S)) where
  -- What ran the handler of a request: its parts are the hypotheses under which one runs.
  pub record Ran (fs : Fields) (s s' : S) : Type 0 where
    pub request : Request
    pub valid : validate_request fs ≡ ok request
    pub identified : is_null request.request_id ≡ false
    pub handler : Fields → S → Answer × S
    pub handled : handlers request.method ≡ some handler
    pub once : s' ≡ (handler request.params s).1

  -- A line leaves the state of the controller as it is, or it is a valid request that has an
  -- identifier and the method of a handler, and this handler has run once with its parameters.
  pub serve_one-Ran :
      (fs : Fields) (s : S)
      → let s' = (serve_one codec max_bytes handlers fs s).1 in (s' ≡ s) ⊎ Ran fs s s'
  unfolding serve_one
  serve_one-Ran fs s = elim (Result-cases (validate_request fs)) [
    | inr (e, invalid) ↦ elim (Bool-cases (has_key "id" fs)) [
      | inl k ↦ inl (rw (invalid, k) refl)
      | inr k ↦ inl (rw (invalid, k) refl)
    ]
    | inl (request, valid) ↦ elim (Bool-cases (is_null request.request_id)) [
      | inl n ↦ inl (rw (valid, n) refl)
      | inr n ↦ elim (Option-cases (handlers request.method)) [
        | inl h ↦ inl (rw (valid, n, h) refl)
        | inr (handler, h) ↦ inr (record {
          request = request;
          valid = valid;
          identified = n;
          handler = handler;
          handled = h;
          once = rw (valid, n, h) refl;
        })
      ]
    ]
  ]
