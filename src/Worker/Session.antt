-- ===== src/Worker/Session.antt =====
-- The state of an `AgentWorker`, and its methods as actions on it. The controller's answers to the
-- requests of the worker are a list, one after the other; behind the last one the connection is
-- closed.
pub mod Later
use tgent.Prelude.{ℕ, String, Bool, true, false, Option, none, some, List, [], ◌∷◌, ◌++◌}
use tgent.Result.{Result, ok, err, Error, ipc_error, worker_error}
use tgent.Dict.{Dict}
use tgent.Json.{Json, obj, Fields}
use tgent.Paths.{FilePath}
use tgent.Worker.Files.{Tree, Project}
use tgent.Worker.Command.{Process}

-- An entry of `dynamic_tools`: the target, the kind, the variables of a template, and the answers of
-- its MCP server to `call_tool` and `read_resource`, as JSON values.
pub record Dynamic : Type 0 where
  pub target : String
  pub is_tool : Bool
  pub variables : List String
  pub call_tool : String → Fields → Tree → Result Json × Tree
  pub read_resource : String → Tree → Result Json × Tree

-- What the discovery finds among the installed MCP servers.
pub record Discovered : Type 0 where
  pub dynamic_tools : Dict Dynamic
  pub added_tools : List Json
  pub catalog : Json

-- What a worker depends on: the project and the commands that run in it, the lengths of encoded
-- texts, the JSON codec, `quote`, the random tokens, the base commit, the system prompt, and what
-- the discovery finds for the modules of an allowlist.
pub record Outside : Type 0 where
  pub project : Project
  pub encoded_length : String → ℕ
  pub json_bytes : Fields → ℕ
  pub decode : List ℕ → String
  pub spawn : List String → Result (Process ℕ)
  pub files_after : Fields → Tree → Tree
  pub dumps : Json → String
  pub loads : String → Result Json
  pub quote : String → String
  pub token : ℕ → String
  pub base_commit : Json
  pub system_prompt : String
  pub discover : List String → Result Discovered

-- The worker, the files of its project, the answers of the controller that are still to come, the
-- requests that it has sent, and how many random tokens it has drawn.
pub record Session : Type 0 where
  pub agent_id : String
  pub history : List Json
  pub model : Option String
  pub dynamic_tools : Dict Dynamic
  pub available_tools : List Json
  pub tree : Tree
  pub answers : List (Result Json)
  pub sent : List (String × Fields)
  pub drawn : ℕ

-- A method: what was done before an exception stays done.
abbrev pub Action {ℓ} : Type ℓ → Type ℓ
Action A = Session → Result A × Session

module _ {ℓ} {A : Type ℓ} where
  abbrev pub pure : A → Action A
  pure a s = (ok a, s)

  abbrev pub raise : Error → Action A
  raise e s = (err e, s)

  abbrev pub finish : Result A → Action A
  finish r s = (r, s)

  abbrev pub gets : (Session → A) → Action A
  gets f s = (ok (f s), s)

abbrev pub modify : (Session → Session) → Action (Unit {0})
modify f s = (ok tt, f s)

infixl 5 ◌>>=◌ ◌>>◌
abbrev pub ◌>>=◌ {ℓ κ} : {A : Type ℓ} {B : Type κ} → Action A → (A → Action B) → Action B
◌>>=◌ m f s = let (r, s') = m s in elim r [ ok a ↦ f a s' | err e ↦ (err e, s') ]

abbrev pub ◌>>◌ {ℓ κ} : {A : Type ℓ} {B : Type κ} → Action A → Action B → Action B
m >> n = m >>= λ _. n

-- `if test: raise WorkerError(text)`
abbrev pub refuse_if : Bool → String → Action (Unit {0})
refuse_if true text s = (err (worker_error text), s)
refuse_if false text s = (ok tt, s)

-- the files of the project
abbrev pub on_tree {ℓ} : {A : Type ℓ} → (Tree → Result A × Tree) → Action A
on_tree f s = let (r, tree) = f s.tree in (r, record s { tree = tree })

abbrev pub answer_of : List (Result Json) → Session → Result Json × Session
answer_of [] s = (err (ipc_error "Worker is not connected"), s)
answer_of (answer ∷ rest) s = (answer, record s { answers = rest })

-- `self.client.request(method, params)`
unfoldable pub request : String → Fields → Action Json
request method params s = answer_of s.answers (record s { sent = s.sent ++ (method, params) ∷ [] })
