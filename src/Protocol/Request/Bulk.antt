-- ===== src/Protocol/Request/Bulk.antt =====
-- The two bulk operations of the protocol, `reap_agents` and `restart_agents`.
use tgent.Prelude.{
  ℕ, String, true, false, ◌≡◌, ◌≢◌, refl, List, [], ◌∷◌, arith, text_eq→eq, Bool-cases, ◌==◌, inl,
  inr,
}
use tgent.Result.{Result, ok, err, IsErr}
use tgent.Json.{Json, null, str, obj, Fields, end, field, get_value, keys}
use tgent.Protocol.Ids.{mem_text, same_set}
use tgent.Protocol.Ids.Safe.{same_set-mem}
use tgent.Protocol.Request.Identifiers.{check_agent-HasId}
use tgent.Protocol.Request.Sound.{steps}
use tgent.Protocol.Request.{
  with_common, fields_of, check_payload, validate_fields, validate_operation, validate_named,
  validate_request,
}

-- A member that is missing reads as `None`.
missing-null : (k : String) (fs : Fields) → mem_text k (keys fs) ≡ false → get_value k fs ≡ null
unfolding get_value keys mem_text
missing-null k end h = refl
missing-null k (field j v fs) h = ground (arith, missing-null k fs)

abbrev bulk_fields : List String
bulk_fields = with_common ("agent_ids" ∷ [])

no_agent_id : (fs : Fields) → same_set (keys fs) bulk_fields ≡ true → get_value "agent_id" fs ≡ null
unfolding mem_text
no_agent_id fs h = missing-null "agent_id" fs (same_set-mem "agent_id" (keys fs) bulk_fields h)

IsErr-of_not_ok {ℓ} : {A : Type ℓ} (r : Result A) → ((a : A) → r ≢ ok a) → IsErr r
IsErr-of_not_ok (ok a) h = h a refl
IsErr-of_not_ok (err e) h = tt

module _ (json_size : Json → ℕ) where
  reap_fails : (fs r : Fields) → validate_fields json_size "reap_agents" bulk_fields fs ≢ ok r
  unfolding check_payload mem_text
  reap_fails fs r h =
      let (exact, _, payload, _) = steps json_size "reap_agents" bulk_fields fs r h in
      let (s, e, _) = check_agent-HasId json_size "reap_agents" fs payload in
      cc (no_agent_id fs exact, e)

  restart_fails : (fs r : Fields) → validate_fields json_size "restart_agents" bulk_fields fs ≢ ok r
  unfolding check_payload mem_text
  restart_fails fs r h =
      let (exact, _, payload, _) = steps json_size "restart_agents" bulk_fields fs r h in
      let (s, e, _) = check_agent-HasId json_size "restart_agents" fs payload in
      cc (no_agent_id fs exact, e)

  -- Every request for `reap_agents` or `restart_agents` is refused, whatever its members: the
  -- members that these operations must have hold no `agent_id`, and one is then asked for.
  pub bulk_refused :
      (op : String) (fs : Fields)
      → mem_text op ("reap_agents" ∷ "restart_agents" ∷ []) ≡ true
      → get_value "operation" fs ≡ str op
      → IsErr (validate_request json_size (obj fs))
  unfolding validate_request validate_named validate_operation mem_text fields_of
  bulk_refused op fs m named = elim (Bool-cases ("reap_agents" == op)) [
    | inl e ↦
        rw (named, ← text_eq→eq "reap_agents" op e)
          (IsErr-of_not_ok (validate_fields json_size "reap_agents" bulk_fields fs) (reap_fails fs))
    | inr other ↦
        rw (named, ← text_eq→eq "restart_agents" op (ground arith))
          (IsErr-of_not_ok (validate_fields json_size "restart_agents" bulk_fields fs)
            (restart_fails fs))
  ]
