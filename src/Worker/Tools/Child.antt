-- ===== src/Worker/Tools/Child.antt =====
-- `_run_child` of agent_worker.py: a bounded child works on a copy of the history, which is dropped
-- with it. What Python says of values of a wrong type (`failure`) is a parameter.
use Prim.Native.String.{◌++◌ as text_append}
use tgent.Prelude.{
  ℕ, zero, suc, String, Bool, false, ◌&&◌, ◌||◌, Option, some, List, [], ◌∷◌, ◌++◌, length, len,
  leb, ltb, nat_eq, all_chars, map, if◌then◌else◌, ◌==◌,
}
use tgent.Result.{Result, ok, err, worker_error, other_error}
use tgent.Json.{Json, null, str, arr, obj, Fields, end, field, get_value, to_list, of_list}
use tgent.Worker.Files.{get_or, get_none}
use tgent.Worker.Command.{format_tool_result}
use tgent.Worker.Context.{api_messages}
use tgent.Worker.Session.{Outside, Action, pure, raise, finish, ◌>>=◌, ◌>>◌, refuse_if, request}
use tgent.Worker.Tools.{or_error_result, objects, first_message, execute_other}

-- the characters that `str.strip` removes
abbrev is_space : ℕ → Bool
is_space c =
    (leb 9 c && leb c 13)
    || ((leb 28 c && leb c 32)
        || (nat_eq c 133
            || (nat_eq c 160
                || (nat_eq c 5760
                    || ((leb 8192 c && leb c 8202)
                        || (nat_eq c 8232
                            || (nat_eq c 8233
                                || (nat_eq c 8239 || (nat_eq c 8287 || nat_eq c 12288)))))))))

abbrev is_text : String → Json → Bool
is_text name (str s) = s == name
is_text name _ = false

-- `tool["function"]["name"] == name`
abbrev is_named : String → Json → Bool
is_named name (obj tool) = elim (get_value "function" tool) [
  | obj f ↦ is_text name (get_value "name" f)
  | _ ↦ false
]
is_named name _ = false

-- `[tool for tool in self.available_tools if ...]`
unfoldable pub without_delegate : List Json → List Json
without_delegate [] = []
without_delegate (tool ∷ tools) =
    let rest = without_delegate tools in
    if is_named "delegate_context_task" tool then rest else tool ∷ rest

-- the task of a child
unfoldable pub task_of : Json → Result String
task_of (str task) =
    if all_chars is_space task || ltb 20000 (len task)
    then err (worker_error "task must contain 1 to 20000 characters")
    else ok task
task_of _ = err (worker_error "task must contain 1 to 20000 characters")

-- `call.get("function", {}) if isinstance(call, dict) else {}`, whose `get` is called then
abbrev pub function_of : Json → Result Fields
function_of (obj call) = elim (get_or "function" (obj end) call) [
  | obj function ↦ ok function
  | _ ↦ err (other_error "object has no attribute 'get'")
]
function_of _ = ok end

-- `call.get("id", "child")`
abbrev pub id_of : Json → Result Json
id_of (obj call) = ok (get_or "id" (str "child") call)
id_of _ = err (other_error "object has no attribute 'get'")

-- the text of an answer that ends a child
abbrev pub content_of : Fields → String
content_of message = elim (get_value "content" message) [ str text ↦ text | _ ↦ "" ]

-- the calls of a message: a list that is not empty
abbrev pub calls_of : Fields → List Json
calls_of message = elim (get_value "tool_calls" message) [ arr xs ↦ to_list xs | _ ↦ [] ]

abbrev pub or_invalid : Option Json → Result Fields
or_invalid (some (obj message)) = ok message
or_invalid _ = err (worker_error "Child received an invalid model completion")

module _ (o : Outside) (failure : Json → Json → String) where
  -- `json.loads(function.get("arguments", "{}"))`
  abbrev pub arguments_of : Fields → Result Json
  arguments_of function = elim (get_or "arguments" (str "{}") function) [
    | str text ↦ o.loads text
    | other ↦ err (other_error (failure null other))
  ]

  -- a name and arguments of other types are refused with an exception
  abbrev pub execute_any : Json → Json → Action Json
  execute_any (str name) (obj arguments) =
      if name == "delegate_context_task"
      then raise (worker_error "Child agents cannot create child agents")
      else execute_other o name arguments
  execute_any name arguments = raise (other_error (failure name arguments))

  abbrev pub executed : Fields → Action Json
  executed function = finish (arguments_of function) >>= execute_any (get_value "name" function)

  abbrev pub child_message : Json → Json → Json
  child_message result call_id = obj (
      field "role" (str "tool") (
        field "tool_call_id" call_id
          (field "content" (str (format_tool_result o.dumps result)) end)))

  abbrev pub answered : Json → Json → Action Json
  answered call result = finish (id_of call) >>= λ call_id. pure (child_message result call_id)

  abbrev pub answer_with : Json → Fields → Action Json
  answer_with call function = or_error_result (executed function) >>= answered call

  -- one call of the child's model, and the message that answers it
  unfoldable pub child_call : Json → Action Json
  unfolding execute_other
  child_call call = finish (function_of call) >>= answer_with call

  -- the loop over the calls: the child's history behind it
  unfoldable pub child_calls : List Json → List Json → Action (List Json)
  unfolding child_call
  child_calls [] history = pure history
  child_calls (call ∷ calls) history = do
    message ← child_call call
    child_calls calls (history ++ message ∷ [])

  -- what a child and its parent ask the model
  abbrev pub completion_request : List Json → List Fields → Fields
  completion_request tools messages =
      field "messages"
        (arr (
          of_list
            (map obj (api_messages o.json_bytes o.encoded_length o.system_prompt tools messages))))
        (field "tools" (arr (of_list tools)) (field "tool_choice" (str "auto") end))

  abbrev pub assistant_message : Fields → Json
  assistant_message message = obj (
      field "role" (str "assistant") (
        field "content" (get_value "content" message)
          (field "tool_calls" (get_value "tool_calls" message) end)))

  -- what follows on a message of the child's model: its calls are answered, and the loop goes on
  abbrev pub child_reply : (List Json → Action String) → List Json → Fields → Action String
  child_reply next history message = elim (calls_of message) [
    | [] ↦ pure (content_of message)
    | call ∷ calls ↦
        refuse_if (ltb 32 (length (call ∷ calls))) "Child returned too many tool calls"
        >> (child_calls (call ∷ calls) (history ++ assistant_message message ∷ []) >>= next)
  ]

  abbrev pub child_heard : (List Json → Action String) → List Json → Json → Action String
  child_heard next history completion =
      finish (or_invalid (first_message completion)) >>= child_reply next history

  abbrev pub child_asks :
      (List Json → Action String) → List Json → List Json → List Fields → Action String
  child_asks next tools history messages =
      request "model.complete" (completion_request tools messages) >>= child_heard next history

  -- the loop over the calls of the model, so many of which are left
  unfoldable pub child_rounds : ℕ → List Json → List Json → Action String
  unfolding child_calls objects
  child_rounds zero tools history = raise (worker_error "Child exceeded 12 model calls")
  child_rounds (suc n) tools history =
      finish (objects history) >>= child_asks (child_rounds n tools) tools history

  abbrev pub child_task : String → Json
  child_task task = obj (
      field "role" (str "user") (
        field "content"
          (str (text_append "Child task; return a concise plain-text result:\\n" task)) end))

  -- a child of this session, with a copy of its history
  abbrev pub child_of : String → Action String
  child_of task s =
      child_rounds 12 (without_delegate s.available_tools) (s.history ++ child_task task ∷ []) s

  -- `_run_child`
  unfoldable pub run_child : Json → Action Json
  unfolding task_of without_delegate child_rounds
  run_child task = finish (task_of task) >>= λ text. child_of text >>= λ answer. pure (str answer)

  -- `_execute_tool`
  unfoldable pub execute_tool : String → Fields → Action Json
  unfolding run_child execute_other
  execute_tool name arguments =
      if name == "delegate_context_task"
      then run_child (get_none "task" arguments)
      else execute_other o name arguments
