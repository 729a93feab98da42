-- ===== src/Worker/Loop.antt =====
-- The loop of a worker: `initialize`, `_persist`, `_wait_for_command`, `_handle_tool_calls` and
-- `run`.
pub mod Ended
pub mod Halted
pub mod Answered
pub mod Later
use Prim.Native.Char.{code}
use tgent.Prelude.{
  ℕ, zero, suc, ◌+◌, String, Bool, true, false, not, ◌&&◌, ◌||◌, Option, none, some, List, [], ◌∷◌,
  ◌++◌, length, ltb, nat_eq, is_alnum, all_chars, drop_prefix, if◌then◌else◌, ◌==◌,
}
use tgent.Result.{Result, ok, err, Error, worker_error, ipc_error, other_error}
use tgent.Json.{
  Json, null, int, str, arr, obj, Items, nil, cons, Fields, end, field, pos, get_value, put,
  to_list, of_list, eq_nat, eq_text, is_dict,
}
use tgent.Worker.Files.{get_or, get_none}
use tgent.Worker.Command.{format_tool_result}
use tgent.Worker.Catalog.{tools}
use tgent.Worker.Session.{
  Outside, Discovered, Session, Action, pure, raise, finish, gets, modify, ◌>>=◌, ◌>>◌, refuse_if,
  request,
}
use tgent.Worker.Tools.{or_error_result, error_result, objects, first_message}
use tgent.Worker.Tools.Child.{calls_of, completion_request, execute_tool}

-- `re.fullmatch(r"mcp_[A-Za-z0-9_-]+", name)`
unfoldable pub is_module_name : String → Bool
is_module_name name = elim (drop_prefix "mcp_" name) [
  | none ↦ false
  | some rest ↦ not (rest == "") && all_chars (λ c. is_alnum c || (nat_eq c 95 || nat_eq c 45)) rest
]

abbrev onto_names : Json → Option (List String) → Option (List String)
onto_names (str name) (some names) = if is_module_name name then some (name ∷ names) else none
onto_names _ _ = none

-- the names of an allowlist
unfoldable pub module_names : List Json → Option (List String)
unfolding is_module_name
module_names [] = some []
module_names (x ∷ xs) = onto_names x (module_names xs)

abbrev invalid_allowlist : Error
invalid_allowlist = worker_error "Controller returned invalid MCP tool allowlist"

abbrev or_invalid_allowlist : Option (List String) → Result (List String)
or_invalid_allowlist none = err invalid_allowlist
or_invalid_allowlist (some names) = ok names

abbrev pub allowed_of : Json → Result (List String)
allowed_of (obj response) = elim (get_or "tools" (arr nil) response) [
  | arr xs ↦ or_invalid_allowlist (module_names (to_list xs))
  | _ ↦ err invalid_allowlist
]
allowed_of _ = ok []

-- `isinstance(result, dict) and result.get("appended") == count`
abbrev pub confirms : ℕ → Json → Bool
confirms count (obj result) = eq_nat count (get_value "appended" result)
confirms count _ = false

-- `_persist`
unfoldable pub persist : List Json → Action (Unit {0})
persist messages = do
  result ← request "history.append" (field "messages" (arr (of_list messages)) end)
  refuse_if (not (confirms (length messages) result))
      "Controller did not confirm transcript persistence"
  modify λ s. record s { history = s.history ++ messages }

-- a random token
abbrev pub draw : Outside → Action String
draw o s = (ok (o.token s.drawn), record s { drawn = suc s.drawn })

-- What `_wait_for_command` makes of an answer.
pub data Heard : Type 0 where
  ignored shut_down resumed : Heard

abbrev pub heard : Json → Heard
heard (obj command) = elim (get_value "command" command) [
  | str name ↦
      if name == "shutdown"
      then shut_down
      else if name == "continue" || name == "review_feedback"
      then resumed
      else ignored
  | _ ↦ ignored
]
heard _ = ignored

abbrev pub history_list : Json → Option (List Json)
history_list (obj result) = elim (get_value "history" result) [
  | arr xs ↦ some (to_list xs)
  | _ ↦ none
]
history_list _ = none

abbrev pub or_worker_error {ℓ} : {A : Type ℓ} → String → Option A → Result A
or_worker_error text none = err (worker_error text)
or_worker_error text (some a) = ok a

-- each message of the history has to be an object
abbrev pub valid_history : Result (List Fields) → Result (List Fields)
valid_history (ok messages) = ok messages
valid_history (err e) = err (worker_error "Controller returned invalid history")

abbrev pub state_report : String → Fields
state_report state = field "state" (str state) end

abbrev pub stop_report : String → String → Fields
stop_report state reason = field "state" (str state) (field "stop_reason" (str reason) end)

module _ (o : Outside) (failure : Json → Json → String) where
  -- `_discover_mcp_tools`, with what is found as an argument
  unfoldable pub discover_mcp_tools : Action (Unit {0})
  unfolding module_names
  discover_mcp_tools = do
    response ← request "agent.tools.get" end
    allowed ← finish (allowed_of response)
    modify λ s. record s { dynamic_tools = []; available_tools = tools }
    found ← finish (o.discover allowed)
    modify λ s. record s {
      dynamic_tools = found.dynamic_tools;
      available_tools = tools ++ found.added_tools;
    }
    answer ← request "agent.tools.report" (field "modules" found.catalog end)
    pure tt

  -- what follows on the command to go on
  unfoldable pub resume : Action Bool
  unfolding discover_mcp_tools
  resume = do
    discover_mcp_tools
    fresh ← request "history.get" end
    updated ←
        finish (or_worker_error "Controller returned invalid resumed history" (history_list fresh))
    modify λ s. record s { history = updated }
    answer ← request "agent.update_state" (state_report "running")
    pure true

  abbrev pub asked : Session → Session
  asked s = record s {
    sent = s.sent ++ ("agent.await_command", field "timeout_seconds" (int (pos 3600)) end) ∷ [];
  }

  -- the loop of `_wait_for_command`, over the answers that are still to come: as many as are read
  -- before the connection ends
  unfoldable pub await_command : List (Result Json) → Action Bool
  unfolding resume
  await_command [] s = (err (ipc_error "Worker is not connected"), asked s)
  await_command (err e ∷ answers) s = (err e, record (asked s) { answers = answers })
  await_command (ok command ∷ answers) s =
      let s' = record (asked s) { answers = answers } in
      let again = await_command answers s' in
      elim (heard command) [ ignored ↦ again | shut_down ↦ (ok false, s') | resumed ↦ resume s' ]

  -- `_wait_for_command`
  unfoldable pub wait_for_command : Bool → Action Bool
  unfolding await_command
  wait_for_command awaiting_review = do
    answer ← request "agent.update_state" (
        if awaiting_review
        then stop_report "awaiting_review" "awaiting_review"
        else stop_report "halted" "awaiting_command")
    (λ s. await_command s.answers s)

  -- one tool call of a model: its identifier and its function
  abbrev pub id_and_function : Json → Json → Result (Json × Fields)
  id_and_function (str call_id) (obj function) = ok (str call_id, function)
  id_and_function _ _ = err (worker_error "Malformed model tool call")

  abbrev pub call_parts : Json → Result (Json × Fields)
  call_parts (obj call) = id_and_function (get_value "id" call) (get_value "function" call)
  call_parts _ = err (worker_error "Malformed model tool call")

  -- the arguments of a call: a text is parsed, and `None` where it is no JSON
  abbrev pub parsed_arguments : Json → Json
  parsed_arguments (str text) = elim (o.loads text) [ ok v ↦ v | err e ↦ null ]
  parsed_arguments other = other

  abbrev pub call_result : Json → Json → Action Json
  call_result (str name) (obj arguments) = or_error_result (execute_tool o failure name arguments)
  call_result _ _ = pure (error_result "Malformed tool name or arguments")

  abbrev pub tool_message : Json → Json → String → Json
  tool_message call_id result token = obj (
      field "role" (str "tool") (
        field "tool_call_id" call_id
          (field "content" (str (format_tool_result o.dumps result)) (field "id" (str token) end))))

  -- `name == "submit_patch_queue" and ... result.get("status") == "ok"`
  abbrev pub is_submission : Json → Json → Bool
  is_submission name (obj result) =
      eq_text "submit_patch_queue" name && eq_text "ok" (get_value "status" result)
  is_submission name _ = false

  abbrev pub record_result : Json × Fields → Json → Action Bool
  record_result parts result = do
    token ← draw o
    persist (tool_message parts.0 result token ∷ [])
    pure (is_submission (get_value "name" parts.1) result)

  abbrev pub result_of : Json × Fields → Action Json
  result_of parts =
      call_result (get_value "name" parts.1)
        (parsed_arguments (get_or "arguments" (str "{}") parts.1))

  abbrev pub answer_parts : Json × Fields → Action Bool
  answer_parts parts = result_of parts >>= record_result parts

  -- one round of the loop over the calls: whether a patch has been submitted
  unfoldable pub answer_call : Json → Action Bool
  unfolding persist execute_tool
  answer_call call = finish (call_parts call) >>= answer_parts

  -- the loop over the calls
  unfoldable pub answer_calls : List Json → Action Bool
  unfolding answer_call
  answer_calls [] = pure false
  answer_calls (call ∷ calls) = do
    submitted ← answer_call call
    later ← answer_calls calls
    pure (submitted || later)

  -- `_handle_tool_calls`
  unfoldable pub handle_tool_calls : List Json → Action Bool
  unfolding answer_calls wait_for_command
  handle_tool_calls calls = do
    refuse_if (ltb 32 (length calls)) "Model returned too many tool calls in one turn"
    submitted ← answer_calls calls
    (if submitted then wait_for_command true else pure true)

  abbrev with_calls : Json → Fields → Fields
  with_calls null fs = fs
  with_calls calls fs = put "tool_calls" calls fs

  abbrev with_model : Option String → Fields → Fields
  with_model none fs = fs
  with_model (some model) fs = if model == "" then fs else put "model" (str model) fs

  -- what the assistant has said, with the model that the completion names or the last one
  abbrev pub assistant_of : Fields → String → Option String → Json
  assistant_of message token model = obj (
      with_model model (
        with_calls (get_value "tool_calls" message) (
          field "role" (str "assistant")
            (field "content" (get_value "content" message) (field "id" (str token) end)))))

  abbrev pub model_of : Json → Option String → Option String
  model_of (obj completion) model = elim (get_value "model" completion) [
    | str name ↦ some name
    | _ ↦ model
  ]
  model_of _ model = model

  abbrev pub message_of : Json → Result Fields
  message_of completion =
      if not (is_dict completion)
      then err (worker_error "Controller returned an invalid completion")
      else elim (first_message completion) [
        | none ↦ err (worker_error "Model completion has no choices")
        | some (obj message) ↦ ok message
        | some _ ↦ err (worker_error "Model completion choice has no message")
      ]

  -- what a turn does behind its completion: whether the loop goes on
  unfoldable pub take_turn : Json → Action Bool
  unfolding persist handle_tool_calls wait_for_command
  take_turn completion = do
    message ← finish (message_of completion)
    modify λ s. record s { model = model_of completion s.model }
    token ← draw o
    model ← gets Session.model
    persist (assistant_of message token model ∷ [])
    elim (calls_of message) [
      | call ∷ calls ↦ handle_tool_calls (call ∷ calls)
      | [] ↦ do
        answer ← request "agent.update_state" (stop_report "halted" "no_tool_calls")
        wait_for_command false
    ]

  -- one round of the loop of `run`
  unfoldable pub turn : Action Bool
  unfolding objects take_turn
  turn = do
    history ← gets Session.history
    messages ← finish (objects history)
    available ← gets Session.available_tools
    completion ← request "model.complete" (completion_request o failure available messages)
    take_turn completion

  -- the loop of `run`; `none` says that the rounds given were not enough
  unfoldable pub run_turns : ℕ → Action (Option (Unit {0}))
  unfolding turn
  run_turns zero = pure none
  run_turns (suc n) = do going_on ← turn; (if going_on then run_turns n else pure (some tt))

  -- `initialize`
  unfoldable pub initialize : Action (Unit {0})
  unfolding discover_mcp_tools objects
  initialize = do
    discover_mcp_tools
    agent_id ← gets Session.agent_id
    hello ←
        request "worker.hello"
          (field "agent_id" (str agent_id) (field "protocol_version" (int (pos 1)) end))
    result ← request "history.get" end
    history ← finish (or_worker_error "Controller returned invalid history" (history_list result))
    messages ← finish (valid_history (objects history))
    modify λ s. record s { history = history }
    answer ← request "agent.update_state" (state_report "running")
    pure tt

  -- `run`, with one round more than there are answers
  unfoldable pub run : Action (Option (Unit {0}))
  unfolding initialize run_turns
  run = do initialize; answers ← gets Session.answers; run_turns (suc (length answers))
