-- ===== src/Protocol/Request/Sound.antt =====
-- What `validate_request` has checked of a request that it returns.
use mathlib.Core.Path.{subst}
use tgent.Prelude.{
  ℕ, String, true, ◌≡◌, refl, ap, text_eq→eq, Option, none, some, List, [], ◌∷◌, Bool-cases, inl,
  inr, arith, ◌==◌,
}
use tgent.Result.{ok, err, other_error}
use tgent.Json.{Json, str, obj, Fields, get_value, keys, eq_nat}
use tgent.Protocol.Ids.{validate_id, mem_text, same_set}
use tgent.Protocol.Ids.Safe.{validate_id-eq-ok, same_set-mem}
use tgent.Protocol.Request.{
  operations, expected, fields_of, check_payload, validate_fields, validate_named,
  validate_operation, validate_request,
}
use tgent.Protocol.Request.Identifiers.{HasId, payload-agent_id, payload-sync_id, payload-upload_id}

-- A request that has been let through.
pub record IsAccepted (fs : Fields) : Type 0 where
  pub operation : String
  pub fields : List String
  pub named : get_value "operation" fs ≡ str operation
  pub known : mem_text operation operations ≡ true
  pub listed : fields_of operation expected ≡ some fields
  pub exact : (k : String) → mem_text k (keys fs) ≡ mem_text k fields
  pub versioned : eq_nat 1 (get_value "schema_version" fs) ≡ true
  pub identifiers :
      (k : String)
      → mem_text k ("request_id" ∷ "upload_id" ∷ "sync_id" ∷ "agent_id" ∷ []) ≡ true
      → mem_text k fields ≡ true
      → HasId k fs

-- One case for each of the four identifier keys.
id_keys :
    (P : String → Type 0)
    → P "request_id"
    → P "upload_id"
    → P "sync_id"
    → P "agent_id"
    → (k : String) → mem_text k ("request_id" ∷ "upload_id" ∷ "sync_id" ∷ "agent_id" ∷ []) ≡ true
    → P k
unfolding mem_text
id_keys P r u s a k m = elim (Bool-cases ("request_id" == k)) [
  | inl e ↦ subst P (text_eq→eq "request_id" k e) r
  | inr n1 ↦ elim (Bool-cases ("upload_id" == k)) [
    | inl e ↦ subst P (text_eq→eq "upload_id" k e) u
    | inr n2 ↦ elim (Bool-cases ("sync_id" == k)) [
      | inl e ↦ subst P (text_eq→eq "sync_id" k e) s
      | inr n3 ↦ subst P (text_eq→eq "agent_id" k (ground arith)) a
    ]
  ]
]

module _ (json_size : Json → ℕ) (op : String) (fields : List String) (fs r : Fields)
    (h : validate_fields json_size op fields fs ≡ ok r) where
  pub steps :
      (same_set (keys fs) fields ≡ true)
      × (eq_nat 1 (get_value "schema_version" fs) ≡ true)
      × (check_payload json_size op fs ≡ ok tt)
      × (fs ≡ r)
  unfolding validate_fields
  steps = ground arith

  request_step : (s : String) × (validate_id (get_value "request_id" fs) "request_id" ≡ ok s)
  unfolding validate_fields
  request_step = ground arith

  pub validate_fields-IsAccepted :
      get_value "operation" fs ≡ str op
      → mem_text op operations ≡ true
      → fields_of op expected ≡ some fields
      → IsAccepted fs
  validate_fields-IsAccepted named known listed =
      let (exact, version, payload, _) = steps in
      let (s, e) = request_step in
      record {
        operation = op;
        fields = fields;
        named = named;
        known = known;
        listed = listed;
        exact = λ k. same_set-mem k (keys fs) fields exact;
        versioned = version;
        identifiers =
            id_keys (λ k. mem_text k fields ≡ true → HasId k fs)
              (λ _.
                (s, (validate_id-eq-ok _ "request_id" e).0, (validate_id-eq-ok _ "request_id" e).1))
              (payload-upload_id json_size op fields fs listed payload)
              (payload-sync_id json_size op fields fs listed payload)
              (payload-agent_id json_size op fields fs listed payload);
      }

module _ (json_size : Json → ℕ) where
  operation_step :
      (op : String) (fs r : Fields)
      → get_value "operation" fs ≡ str op
      → mem_text op operations ≡ true
      → (o : Option (List String)) → fields_of op expected ≡ o
      → elim o [
        | none ↦ err (other_error op)
        | some fields ↦ validate_fields json_size op fields fs
      ]
        ≡ ok r
      → (fs ≡ r) × IsAccepted fs
  operation_step op fs r named known none listed h = cc
  operation_step op fs r named known (some fields) listed h = (
    (steps json_size op fields fs r h).3,
    validate_fields-IsAccepted json_size op fields fs r h named known listed,
  )

  request_value :
      (fs r : Fields) (v : Json)
      → get_value "operation" fs ≡ v
      → validate_named json_size v fs ≡ ok r
      → (fs ≡ r) × IsAccepted fs
  unfolding validate_named validate_operation
  request_value fs r (str op) named h = elim (Bool-cases (mem_text op operations)) [
    | inl known ↦ operation_step op fs r named known (fields_of op expected) refl (rw known at h)
    | inr unknown ↦ cc (unknown, h)
  ]
  request_value fs r _ named h = cc

  -- A request that `validate_request` returns is the value that it was given, and it is accepted:
  -- its operation is known, its members are exactly those of the operation, its schema version
  -- equals 1, and every one of the four identifiers that the operation has is a valid one.
  pub validate_request-IsAccepted :
      (v : Json) (fs : Fields) → validate_request json_size v ≡ ok fs → (v ≡ obj fs) × IsAccepted fs
  unfolding validate_request
  validate_request-IsAccepted (obj gs) fs h =
      let (same, accepted) = request_value gs fs (get_value "operation" gs) refl h in
      (ap obj same, subst IsAccepted same accepted)
  validate_request-IsAccepted _ fs h = cc
