-- ===== src/Tests/Loops.antt =====
-- The loop of a worker at a concrete session.
use tgent.Prelude.{true, some, String, false, ◌≡◌, refl, none, List, [], ◌∷◌, len}
use tgent.Result.{ok, err, os_error}
use tgent.Json.{
  Fields, cons, nil, field, end, arr, to_list, Json, null, int, str, obj, pos, eq_nat, eq_text, get,
  get_value,
}
use tgent.Dict.{lookup}
use tgent.Worker.Session.{Outside, Session, request}
use tgent.Worker.Command.{format_tool_result}
use tgent.Worker.Tools.{execute_builtin, execute_other}
use tgent.Worker.Tools.Child.{execute_tool}
use tgent.Worker.Tools.{objects}
use tgent.Worker.Tools.Child.{calls_of}
use tgent.Worker.Loop.Halted.{IsCommand, until_shutdown, run_turns-shut_down}
use tgent.Worker.Loop.{
  confirms, message_of, assistant_of, run_turns, persist, answer_call, answer_calls,
}
use tgent.Worker.Loop.Answered.{Answers, answer_calls-Answers}
use tgent.Tests.Workers.{project, tree}

abbrev outside : Outside
outside = record {
  project = project;
  encoded_length = len;
  json_bytes = λ fs. 10;
  decode = λ bytes. "";
  spawn = λ argv. err (os_error "No such file or directory");
  files_after = λ arguments tree. tree;
  dumps = λ value. "{}";
  loads = λ text. ok (obj end);
  quote = λ text. text;
  token = λ n. "0123456789abcdef";
  base_commit = null;
  system_prompt = "You are an agent.";
  discover = λ modules. ok (record { dynamic_tools = []; added_tools = []; catalog = arr nil });
}

abbrev failure : Json → Json → String
failure name arguments = "unhashable type"

-- A call of a tool that there is not.
abbrev call : Json
call = obj (
    field "id" (str "c1")
      (field "function" (obj (field "name" (str "nope") (field "arguments" (str "{}") end))) end))

abbrev session : Session
session = record {
  agent_id = "a1";
  history = [];
  model = none;
  dynamic_tools = [];
  available_tools = [];
  tree = tree;
  answers = ok (obj (field "appended" (int (pos 1)) end)) ∷ [];
  sent = [];
  drawn = 0;
}

call_answered : (answer_calls outside failure (call ∷ []) session).0 ≡ ok false
unfolding answer_calls answer_call persist request execute_tool execute_other execute_builtin
    format_tool_result eq_nat eq_text get get_value lookup len
call_answered = refl

answer_calls-Answers_example :
    (messages : List Json) × Answers (call ∷ []) messages
    × ((answer_calls outside failure (call ∷ []) session).1.history ≡ messages)
answer_calls-Answers_example =
    answer_calls-Answers outside failure (call ∷ []) session call_answered

abbrev completion : Json
completion = obj (
    field "choices"
      (arr (cons (obj (field "message" (obj (field "content" (str "Done.") end)) end)) nil)) end)

abbrev reply : Fields
reply = field "content" (str "Done.") end

abbrev confirmation : Json
confirmation = obj (field "appended" (int (pos 1)) end)

abbrev command : String → Json
command name = obj (field "command" (str name) end)

completion_read : message_of outside failure completion ≡ ok reply
unfolding get get_value
completion_read = refl

no_calls : calls_of reply ≡ []
unfolding get get_value to_list
no_calls = refl

confirmed : confirms 1 confirmation ≡ true
unfolding get get_value eq_nat
confirmed = refl

history_read : objects session.history ≡ ok []
unfolding objects
history_read = refl

command_named : (name : String) → IsCommand name (command name)
unfolding get get_value
command_named name = (_, refl, refl)

run_turns-shut_down_example :
    let timeouts = command "timeout" ∷ command "timeout" ∷ [] in
    let (result, s') = run_turns outside failure 1 (record session {
      answers =
          ok completion
          ∷ ok confirmation
          ∷ ok null
          ∷ ok null
          ∷ until_shutdown timeouts (command "shutdown") [];
    }) in
    (result ≡ ok (some tt))
    × (s'.answers ≡ [])
    × (s'.history ≡ assistant_of outside failure reply "0123456789abcdef" none ∷ [])
unfolding get_value
run_turns-shut_down_example =
    run_turns-shut_down outside failure session [] history_read completion reply completion_read
      no_calls confirmation confirmed null null (command "timeout" ∷ command "timeout" ∷ [])
      (command_named "timeout", (command_named "timeout", tt)) (command "shutdown")
      (command_named "shutdown") [] 0
