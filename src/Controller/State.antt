-- ===== src/Controller/State.antt =====
-- The state of `AgentController` and of `_AgentRuntime`, and methods as actions on it. The methods
-- run one at a time between their `await`s; an awaited worker process enters as an argument.
pub mod Keeps
pub mod Laws
use Prim.Native.String.{◌++◌ as text_append}
use tgent.Prelude.{
  ℕ, String, Bool, true, false, Option, none, some, List, [], ◌∷◌, ◌++◌, if◌then◌else◌,
}
use tgent.Result.{Result, ok, err, Error, controller_error, store_error, other_error}
use tgent.Json.{Fields, ℤ}
use tgent.Dict.{Dict, lookup, insert, erase}
use tgent.Store.Metadata.{
  Metadata, State, running, halted, awaiting_review, review_received, failed, stopped, reaped,
}
use tgent.Store.Files.{Store, Version, get_metadata, update_metadata}

-- A command in `runtime.commands`.
pub data Command : Type 0 where
  review_feedback : List Fields → Command

-- How far the monitor task is: it waits for the process, it has noted the end of the process and
-- waits for the control socket to close, or it has ended.
pub data Monitor : Type 0 where
  watching closing concluded : Monitor

-- `_AgentRuntime`: `returncode` is that of the process, `monitor` how far the monitor task is,
-- `serving` that the control socket is open and `timer` that the runtime limit is armed.
pub record Runtime : Type 0 where
  pub base_commit : String
  pub model_calls : ℕ
  pub stop_requested : Bool
  pub returncode : Option ℤ
  pub monitor : Monitor
  pub serving : Bool
  pub timer : Bool
  pub commands : List Command

-- The controller: its store, `_runtimes`, `_tool_allowlists`, `_restarting_agents`, the snapshot
-- directories below `snapshot_root`, and its limits.
pub record Controller : Type 0 where
  pub store : Store
  pub runtimes : Dict Runtime
  pub allowlists : Dict (List String)
  pub restarting : List String
  pub snapshots : List String
  pub max_model_calls : ℕ
  pub max_runtime_seconds : ℕ

-- A method: what was written before an exception stays written.
abbrev pub Action {ℓ} : Type ℓ → Type ℓ
Action A = Controller → Result A × Controller

module _ {ℓ} {A : Type ℓ} where
  abbrev pub pure : A → Action A
  pure a c = (ok a, c)

  abbrev pub raise : Error → Action A
  raise e c = (err e, c)

  abbrev pub gets : (Controller → A) → Action A
  gets f c = (ok (f c), c)

  -- a computation that reads the store and may raise
  abbrev pub query : (Store → Result A) → Action A
  query f c = (f c.store, c)

infixl 5 ◌>>=◌ ◌>>◌
abbrev pub ◌>>=◌ {ℓ κ} : {A : Type ℓ} {B : Type κ} → Action A → (A → Action B) → Action B
◌>>=◌ m f c = let (r, c') = m c in elim r [ ok a ↦ f a c' | err e ↦ (err e, c') ]

abbrev pub ◌>>◌ {ℓ κ} : {A : Type ℓ} {B : Type κ} → Action A → Action B → Action B
m >> n = m >>= λ _. n

abbrev pub modify : (Controller → Controller) → Action (Unit {0})
modify f c = (ok tt, f c)

-- `if test: raise AgentControllerError(text)`
abbrev pub refuse_if : Bool → String → Action (Unit {0})
refuse_if b text c = (if b then err (controller_error text) else ok tt, c)

-- `self.store.update_metadata(agent_id, updates)`
unfoldable pub update : String → (Metadata → Metadata) → ℕ → Action Metadata
update agent_id updates now c = elim (update_metadata agent_id updates now c.store) [
  | ok (metadata, store) ↦ (ok metadata, record c { store = store })
  | err e ↦ (err e, c)
]

abbrev pub runtime_of : String → Controller → Option Runtime
runtime_of agent_id c = lookup agent_id c.runtimes

abbrev pub set_runtime : String → Runtime → Controller → Controller
set_runtime agent_id r c = record c { runtimes = insert agent_id r c.runtimes }

-- `process.returncode is None`
abbrev pub alive : Runtime → Bool
alive r = elim r.returncode [ none ↦ true | some _ ↦ false ]

-- `runtime is not None and runtime.process.returncode is None`
abbrev pub is_live : Option Runtime → Bool
is_live none = false
is_live (some r) = alive r

-- `state in {"stopped", "failed", "reaped"}`
abbrev pub is_terminal : State → Bool
is_terminal stopped = true
is_terminal failed = true
is_terminal reaped = true
is_terminal _ = false

-- `state in {"running", "halted", "awaiting_review", "review_received"}`
abbrev pub is_reportable : State → Bool
is_reportable running = true
is_reportable halted = true
is_reportable awaiting_review = true
is_reportable review_received = true
is_reportable _ = false
