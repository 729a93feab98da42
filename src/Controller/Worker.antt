-- ===== src/Controller/Worker.antt =====
-- The handlers that a worker calls over its control socket: `_hello`, `_get_history`,
-- `_append_history`, `_model_complete`, `_update_state`, `_submit_patch` and `_await_command`.
pub mod Calls
pub mod Reports
use Prim.Native.Nat.{◌%◌, ◌^◌}
use tgent.Prelude.{
  ℕ, suc, ◌+◌, String, Bool, true, false, not, ◌&&◌, ◌||◌, Option, none, some, List, [], ◌∷◌, leb,
  ltb, nat_eq, len, all_chars, is_hex, length, ◌==◌, if◌then◌else◌,
}
use tgent.Result.{Result, ok, err, Error, controller_error, store_error, other_error}
use tgent.Json.{
  Json, null, bool, int, float, str, arr, obj, Items, Fields, ℤ, pos, leb_ℤ, get, get_value, put,
  to_list, eq_nat, eq_text, is_list,
}
use tgent.Store.Metadata.{Metadata, State, running, halted, awaiting_review, review_received}
use tgent.Store.Files.{Version, get_metadata, get_history, append_history}
use tgent.Controller.State.{
  Controller, Runtime, Command, Action, pure, raise, gets, query, ◌>>=◌, ◌>>◌, modify, refuse_if,
  update, runtime_of, set_runtime, is_terminal,
}

-- `_hello`
unfoldable pub hello : String → Fields → Action (Unit {0})
hello agent_id params =
    refuse_if
      (not (eq_text agent_id (get_value "agent_id" params))
        || not (eq_nat 1 (get_value "protocol_version" params)))
      "Worker identity or protocol version mismatch"

-- the message objects of a list, if all of its values are objects
unfoldable pub objects : List Json → Option (List Fields)
objects [] = some []
objects (obj fs ∷ rest) = elim (objects rest) [ none ↦ none | some fss ↦ some (fs ∷ fss) ]
objects (_ ∷ rest) = none

abbrev items : Json → List Json
items (arr xs) = to_list xs
items _ = []

abbrev or_messages : Option (List Fields) → Action (List Fields)
or_messages none = raise (store_error "messages must be an array of message objects")
or_messages (some fss) = pure fss

-- `self.store.append_history(agent_id, messages)`
unfoldable pub append : String → List Fields → Version → Action (List Fields)
append agent_id messages version c = elim (append_history agent_id messages version c.store) [
  | ok (history, store) ↦ (ok history, record c { store = store })
  | err e ↦ (err e, c)
]

-- `_get_history`
unfoldable pub history_handler : String → Action (List Fields)
history_handler agent_id = query (get_history agent_id)

-- `_COMMIT_RE`: 40 or 64 hexadecimal digits
unfoldable pub is_commit : String → Bool
unfolding is_hex
is_commit s = (nat_eq (len s) 40 || nat_eq (len s) 64) && all_chars is_hex s

abbrev commit_text : Json → String
commit_text (str s) = s
commit_text _ = ""

-- What `_submit_patch` asks of Git and of the submission callback: whether the head resolves to
-- itself, whether it descends from the base, and the outcome of the callback, if there is one.
pub record Submission : Type 0 where
  pub callback : Option (Result Json)
  pub resolves : String → Bool
  pub descends : String → String → Bool

-- `self._runtimes[agent_id]`
abbrev pub or_key_error : String → Option Runtime → Action Runtime
or_key_error agent_id none = raise (other_error agent_id)
or_key_error agent_id (some r) = pure r

abbrev pub or_unavailable : Option Runtime → Action Runtime
or_unavailable none = raise (controller_error "Agent runtime is unavailable")
or_unavailable (some r) = pure r

abbrev or_unconfigured : Option (Result Json) → Action (Result Json)
or_unconfigured none = raise (controller_error "Patch submission is not configured")
or_unconfigured (some r) = pure r

abbrev pub finish {ℓ} : {A : Type ℓ} → Result A → Action A
finish r c = (r, c)

unfoldable pub submit_patch : Submission → String → Fields → ℕ → Action Json
submit_patch git agent_id params now = do
  callback ← or_unconfigured git.callback
  runtime ← or_key_error agent_id (← gets (runtime_of agent_id))
  let head = commit_text (get_value "head_commit" params)
  refuse_if
      (not (eq_text runtime.base_commit (get_value "base_commit" params)) || not (is_commit head))
      "Patch request must identify the recorded base commit and a full commit hash"
  refuse_if (not (git.resolves head)) "Patch head does not resolve to a commit in the snapshot"
  refuse_if (not (git.descends runtime.base_commit head))
      "Patch head is not based on the recorded base commit"
  result ← finish callback
  update agent_id (λ m. record m { state = awaiting_review; submitted_head = some head }) now
  pure result

-- the states that a worker may report
unfoldable pub reported_state : Json → Option State
reported_state (str s) =
    if s == "running"
    then some running
    else if s == "halted"
    then some halted
    else if s == "awaiting_review"
    then some awaiting_review
    else if s == "review_received"
    then some review_received
    else none
reported_state _ = none

abbrev pub or_invalid : Option State → Action State
or_invalid none = raise (controller_error "Invalid worker-reported state")
or_invalid (some s) = pure s

abbrev pub store_state : String → Json → ℕ → State → Metadata → Action State
store_state agent_id stop_reason now new_state metadata =
    refuse_if (is_terminal metadata.state) "Cannot change terminal agent state"
    >> (update agent_id (λ m. record m { state = new_state; stop_reason = stop_reason }) now
        >>= λ updated. pure updated.state)

abbrev pub report : String → Json → ℕ → State → Action State
report agent_id stop_reason now new_state =
    query (get_metadata agent_id) >>= store_state agent_id stop_reason now new_state

-- `_update_state`
unfoldable pub update_state : String → Fields → ℕ → Action State
update_state agent_id params now =
    or_invalid (reported_state (get_value "state" params))
    >>= report agent_id (get_value "stop_reason" params) now

-- `type(timeout) in {int, float} and not (timeout < 0 or timeout > 86400)`; a NaN passes
unfoldable pub is_timeout : Json → Bool
is_timeout (int n) = leb_ℤ (pos 0) n && leb_ℤ n (pos 86400)
is_timeout (float bits) =
    leb bits 0x40f5180000000000 || (nat_eq bits (2 ^ 63) || ltb 0x7ff0000000000000 (bits % 2 ^ 63))
is_timeout _ = false

abbrev timeout_or_default : Option Json → Json
timeout_or_default none = int (pos 3600)
timeout_or_default (some v) = v

-- the next command, or `none` for `{"command": "timeout"}` where none comes in time
abbrev take_command : String → Runtime → List Command → Action (Option Command)
take_command agent_id runtime [] = pure none
take_command agent_id runtime (command ∷ rest) = do
  modify (set_runtime agent_id (record runtime { commands = rest }))
  pure (some command)

-- `_await_command`
unfoldable pub await_command : String → Fields → Action (Option Command)
await_command agent_id params = do
  refuse_if (not (is_timeout (timeout_or_default (get "timeout_seconds" params))))
      "timeout_seconds must be between 0 and 86400"
  runtime ← or_key_error agent_id (← gets (runtime_of agent_id))
  take_command agent_id runtime runtime.commands

-- `json_size v` is `len(json.dumps(v, ensure_ascii=False).encode("utf-8"))`.
module _ (json_size : Json → ℕ) where
  -- `_append_history`: the numbers of appended and of all messages
  unfoldable pub append_handler : String → Fields → Version → Action (ℕ × ℕ)
  append_handler agent_id params version = do
    let messages = get_value "messages" params
    refuse_if (not (is_list messages) || ltb 20000 (length (items messages)))
        "messages must be a bounded array"
    refuse_if (ltb 8388608 (json_size messages)) "history append exceeds size limit"
    appended ← or_messages (objects (items messages))
    history ← append agent_id appended version
    pure (length (items messages), length history)

  -- the part of `_model_complete` under the lock of the runtime
  abbrev pub charge : String → Runtime → ℕ → Metadata → Action Metadata
  charge agent_id runtime now metadata = do
    refuse_if (leb metadata.max_model_calls runtime.model_calls) "Agent model-call budget exhausted"
    modify (set_runtime agent_id (record runtime { model_calls = runtime.model_calls + 1 }))
    update agent_id (λ m. record m { model_calls = runtime.model_calls + 1 }) now
    pure metadata

  unfoldable pub charge_model_call : String → Runtime → ℕ → Action Metadata
  charge_model_call agent_id runtime now =
      query (get_metadata agent_id) >>= charge agent_id runtime now

  -- `"tools" in params and not isinstance(params["tools"], list)`
  abbrev pub bad_tools : Option Json → Bool
  bad_tools none = false
  bad_tools (some v) = not (is_list v)

  -- the request that is passed on to the model
  unfoldable pub model_params : Metadata → Fields → Fields
  model_params metadata params =
      put "reasoning_effort" (str metadata.reasoning_effort)
        (elim metadata.model [ none ↦ params | some m ↦ put "model" (str m) params ])

  abbrev as_object : Json → Result Fields
  as_object (obj fs) = ok fs
  as_object _ = err (controller_error "Model callback must return a JSON object")

  -- the answer of the callback
  abbrev pub complete_with : (Fields → Result Json) → Fields → Metadata → Action Fields
  complete_with callback params metadata =
      finish (callback (model_params metadata params)) >>= λ v. finish (as_object v)

  abbrev pub call_model : (Fields → Result Json) → String → Fields → ℕ → Runtime → Action Fields
  call_model callback agent_id params now runtime =
      charge_model_call agent_id runtime now >>= complete_with callback params

  abbrev pub run_model : (Fields → Result Json) → String → Fields → ℕ → Action Fields
  run_model callback agent_id params now =
      (gets (runtime_of agent_id) >>= or_unavailable) >>= call_model callback agent_id params now

  -- the tests of `_model_complete` on its parameters
  unfoldable pub check_model_request : Fields → Result (Unit {0})
  check_model_request params =
      if not (is_list (get_value "messages" params))
      then err (controller_error "model.complete requires a messages array")
      else if bad_tools (get "tools" params)
      then err (controller_error "tools must be an array")
      else if ltb 8388608 (json_size (obj params))
      then err (controller_error "model request exceeds size limit")
      else ok tt

  -- `_model_complete`, over the callback
  unfoldable pub model_complete : (Fields → Result Json) → String → Fields → ℕ → Action Fields
  unfolding check_model_request
  model_complete callback agent_id params now =
      finish (check_model_request params) >> run_model callback agent_id params now
