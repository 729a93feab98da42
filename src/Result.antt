-- ===== src/Result.antt =====
-- Python exceptions as values: one constructor for each exception class that the modelled code
-- raises, with the text of the exception (`str(err)`).
use mathlib.Core.Path.{subst}
use tgent.Prelude.{String, ◌≡◌, refl, Bool, true, false, ◌⊎◌, inl, inr, if◌then◌else◌}

pub data Error : Type 0 where
  -- RemoteProtocolError, AgentStoreError, AgentControllerError, AgentIPCError, RemoteUploadError,
  -- WorkerError, SnapshotError, SandboxError, ProjectConfigError, RemoteAgentConfigError
  protocol_error store_error controller_error ipc_error upload_error worker_error : String → Error
  snapshot_error sandbox_error project_error config_error : String → Error
  -- OSError
  os_error : String → Error
  -- any other exception
  other_error : String → Error

-- `str(err)`
unfoldable pub message : Error → String
message (protocol_error s) = s
message (store_error s) = s
message (controller_error s) = s
message (ipc_error s) = s
message (upload_error s) = s
message (worker_error s) = s
message (snapshot_error s) = s
message (sandbox_error s) = s
message (project_error s) = s
message (config_error s) = s
message (os_error s) = s
message (other_error s) = s

pub data Result {ℓ} (A : Type ℓ) : Type ℓ where
  ok : A → Result A
  err : Error → Result A

-- what follows is run with the value, and an exception ends the block
infixl 5 ◌>>=◌ ◌>>◌
abbrev pub ◌>>=◌ {ℓ κ} : {V : Type ℓ} {W : Type κ} → Result V → (V → Result W) → Result W
err raised >>= next = err raised
ok value >>= next = next value

abbrev pub ◌>>◌ {ℓ κ} : {V : Type ℓ} {W : Type κ} → Result V → Result W → Result W
first >> next = first >>= (λ _. next)

-- `if test: raise e`
abbrev pub raise_if : Bool → Error → Result (Unit {0})
raise_if true e = err e
raise_if false e = ok tt

module _ {ℓ κ} {V : Type ℓ} {W : Type κ} where
  -- Where a block returns, each of its parts has returned.
  pub >>=-eq-ok :
      (first : Result V) (next : V → Result W) {w : W}
      → (first >>= next) ≡ ok w
      → (v : V) × (first ≡ ok v) × (next v ≡ ok w)
  >>=-eq-ok (err raised) next returned = cc
  >>=-eq-ok (ok v) next returned = (v, refl, returned)

  pub >>-eq-ok :
      (first : Result V) (next : Result W) {w : W}
      → (first >> next) ≡ ok w
      → (v : V) × (first ≡ ok v) × (next ≡ ok w)
  >>-eq-ok first next = >>=-eq-ok first (λ _. next)

-- The same, for a chain of parts: what follows is shown for the value of the first part.
pub after {ℓ κ μ} :
    {V : Type ℓ} {W : Type κ} {P : Type μ} (first : Result V) (next : V → Result W) {w : W}
    → (first >>= next) ≡ ok w
    → ((v : V) → first ≡ ok v → next v ≡ ok w → P)
    → P
after (err raised) next returned rest = cc
after (ok v) next returned rest = rest v refl returned

-- A guard that let the rest of the block run did not fire.
pub guard-eq-ok {κ} :
    {W : Type κ} (test : Bool) (e : Error) (next : Result W) {w : W}
    → (raise_if test e >> next) ≡ ok w
    → (test ≡ false) × (next ≡ ok w)
guard-eq-ok true e next returned = cc
guard-eq-ok false e next returned = (refl, returned)

-- `r` is an exception.
abbrev pub IsErr {ℓ} : {A : Type ℓ} → Result A → Type 0
IsErr (ok a) = ⊥
IsErr (err e) = Unit

-- To split on a computed result and keep the equation.
pub Result-cases {ℓ} :
    {V : Type ℓ} (r : Result V) → ((v : V) × (r ≡ ok v)) ⊎ ((e : Error) × (r ≡ err e))
Result-cases (ok v) = inl (v, refl)
Result-cases (err e) = inr (e, refl)

-- What holds of the value that a result returns, if it returns one.
abbrev pub IfOk {ℓ κ} : {V : Type ℓ} → (V → Type κ) → Result V → Type κ
IfOk P (ok v) = P v
IfOk P (err e) = Unit

pub IfOk-ok {ℓ κ} : {V : Type ℓ} (P : V → Type κ) (r : Result V) {v : V} → r ≡ ok v → IfOk P r → P v
IfOk-ok P r e p = subst (IfOk P) e p

-- A test that let the result behind it through did not fire.
pub passed {ℓ} :
    {V : Type ℓ} (b : Bool) (e : Error) (r : Result V) (v : V)
    → (if b then err e else r) ≡ ok v
    → (b ≡ false) × (r ≡ ok v)
passed true e r v h = cc
passed false e r v h = (refl, h)
