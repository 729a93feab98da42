-- ===== src/Worker/Tools/Still.antt =====
-- The tools of a worker leave its history alone, those of a child too.
use tgent.Prelude.{
  refl, arith, if-elim, ℕ, zero, suc, String, Option, none, some, List, [], ◌∷◌, ◌++◌, length, ltb,
  ◌==◌,
}
use tgent.Result.{Result, ok, err, message as text_of}
use tgent.Dict.{lookup}
use tgent.Json.{Json, str, obj, Fields, field, end, get_value}
use tgent.Worker.Session.{
  Dynamic, Outside, Session, Action, pure, finish, ◌>>=◌, ◌>>◌, refuse_if, on_tree, request,
}
use tgent.Worker.Session.Later.{
  Quiet, Leads, Quiet-refl, Quiet->>=, Quiet->>, Quiet-if, Quiet-finish, Quiet-on_tree,
  Quiet-refuse_if, request-Quiet,
}
use tgent.Worker.Tools.{
  or_error_result, error_result, objects, first_message, call_discovered_tool, execute_builtin,
  execute_other, fill, submits,
}
use tgent.Worker.Tools.Child.{
  calls_of, child_call, child_calls, child_rounds, run_child, execute_tool, execute_any,
  function_of, arguments_of, id_of, task_of, without_delegate, or_invalid, completion_request,
  executed, child_message, answered, answer_with, child_reply, child_heard, child_asks, child_of,
  child_task, content_of, assistant_message,
}
use tgent.Worker.Files.{Tree, get_none}

abbrev AreQuiet : Action Json → Type 0
AreQuiet m = Leads Quiet m

module _ (m : Action Json) where
  result-Quiet :
      (s : Session) (r : Result Json) (s' : Session)
      → Quiet s s'
      → Quiet s
          (elim r as (λ _. Result Json × Session) [
            | ok v ↦ (ok v, s')
            | err e ↦ (ok (error_result (text_of e)), s')
          ]).1
  result-Quiet s (ok v) s' q = q
  result-Quiet s (err e) s' q = q

  pub or_error_result-Quiet : Leads Quiet m → Leads Quiet (or_error_result m)
  or_error_result-Quiet q s = result-Quiet s (m s).0 (m s).1 (q s)

module _ (o : Outside) where
  call_discovered_tool-Quiet :
      (d : Dynamic) (arguments : Fields) → Leads Quiet (call_discovered_tool o d arguments)
  unfolding call_discovered_tool
  call_discovered_tool-Quiet d arguments =
      if-elim AreQuiet d.is_tool (λ _. Quiet-on_tree (d.call_tool d.target arguments))
        (λ _.
          Quiet->>= (finish (fill o d.variables arguments d.target))
            (λ uri. on_tree (d.read_resource uri))
            (Quiet-finish (fill o d.variables arguments d.target))
            (λ uri. Quiet-on_tree (d.read_resource uri)))

  submits-Quiet : (head : Json) → Leads Quiet (submits o head)
  submits-Quiet (str head) =
      if-elim AreQuiet (head == "") (λ _ s. Quiet-refl s)
        (λ _.
          request-Quiet "patch.submit"
            (field "base_commit" o.base_commit (field "head_commit" (str head) end)))
  submits-Quiet _ = λ s. Quiet-refl s

  execute_builtin-Quiet :
      (name : String) (arguments : Fields) → Leads Quiet (execute_builtin o name arguments)
  unfolding execute_builtin
  execute_builtin-Quiet name arguments =
      if-elim AreQuiet (name == "read_file") (λ _ s. still s _)
        (λ _.
          if-elim AreQuiet (name == "edit_file") (λ _ s. still s _)
            (λ _.
              if-elim AreQuiet (name == "search_files") (λ _ s. still s _)
                (λ _.
                  if-elim AreQuiet (name == "run_command") (λ _ s. still s _)
                    (λ _.
                      if-elim AreQuiet (name == "submit_patch_queue")
                        (λ _. submits-Quiet (get_none "head_commit" arguments))
                        (λ _ s. Quiet-refl s)))))
    where
      still : (s : Session) (tree : Tree) → Quiet s (record s { tree = tree })
      still s tree = record { fewer = omega arith; kept = refl }

  found-Quiet :
      (name : String) (arguments : Fields) (d : Option Dynamic) (s : Session)
      → Quiet s
          (elim d as (λ _. Result Json × Session) [
            | some d ↦ call_discovered_tool o d arguments s
            | none ↦ execute_builtin o name arguments s
          ]).1
  found-Quiet name arguments (some d) s = call_discovered_tool-Quiet d arguments s
  found-Quiet name arguments none s = execute_builtin-Quiet name arguments s

  execute_other-Quiet :
      (name : String) (arguments : Fields) → Leads Quiet (execute_other o name arguments)
  unfolding execute_other
  execute_other-Quiet name arguments s = found-Quiet name arguments (lookup name s.dynamic_tools) s

module _ (o : Outside) (failure : Json → Json → String) where
  execute_any-Quiet : (name arguments : Json) → Leads Quiet (execute_any o failure name arguments)
  execute_any-Quiet (str name) (obj arguments) =
      Quiet-if (name == "delegate_context_task") _ _ (λ s. Quiet-refl s)
        (execute_other-Quiet o name arguments)
  execute_any-Quiet _ _ = λ s. Quiet-refl s

  executed-Quiet : (function : Fields) → Leads Quiet (executed o failure function)
  executed-Quiet function =
      Quiet->>= (finish (arguments_of o failure function))
        (execute_any o failure (get_value "name" function))
        (Quiet-finish (arguments_of o failure function))
        (execute_any-Quiet (get_value "name" function))

  answered-Quiet : (call result : Json) → Leads Quiet (answered o failure call result)
  answered-Quiet call result =
      Quiet->>= (finish (id_of call)) (λ call_id. pure (child_message o failure result call_id))
        (Quiet-finish (id_of call)) (λ call_id s. Quiet-refl s)

  child_call-Quiet : (call : Json) → Leads Quiet (child_call o failure call)
  unfolding child_call
  child_call-Quiet call =
      Quiet->>= (finish (function_of call)) (answer_with o failure call)
        (Quiet-finish (function_of call))
        λ function.
          Quiet->>= (or_error_result (executed o failure function)) (answered o failure call)
            (or_error_result-Quiet (executed o failure function) (executed-Quiet function))
            (answered-Quiet call)

  child_calls-Quiet :
      (calls history : List Json) → Leads Quiet (child_calls o failure calls history)
  unfolding child_calls
  child_calls-Quiet [] history = λ s. Quiet-refl s
  child_calls-Quiet (call ∷ calls) history =
      Quiet->>= (child_call o failure call)
        (λ message. child_calls o failure calls (history ++ message ∷ [])) (child_call-Quiet call)
        (λ message. child_calls-Quiet calls (history ++ message ∷ []))

  module _ (next : List Json → Action String)
      (next-Quiet : (history : List Json) → Leads Quiet (next history))
      (tools history : List Json) where
    called-Quiet :
        (calls : List Json) (message : Fields)
        → Leads Quiet (λ s.
          (elim calls as (λ _. Action String) [
            | [] ↦ pure (content_of message)
            | call ∷ calls ↦
                refuse_if (ltb 32 (length (call ∷ calls))) "Child returned too many tool calls"
                >> (child_calls o failure
                      (call ∷ calls)
                      (history ++ assistant_message o failure message ∷ [])
                    >>= next)
          ])
            s)
    called-Quiet [] message = λ s. Quiet-refl s
    called-Quiet (call ∷ calls) message =
        Quiet->> (refuse_if (ltb 32 (length (call ∷ calls))) "Child returned too many tool calls")
          (child_calls o failure (call ∷ calls)
              (history ++ assistant_message o failure message ∷ [])
            >>= next)
          (Quiet-refuse_if (ltb 32 (length (call ∷ calls))) "Child returned too many tool calls")
          (Quiet->>=
            (child_calls o failure (call ∷ calls)
              (history ++ assistant_message o failure message ∷ []))
            next
            (child_calls-Quiet (call ∷ calls) (history ++ assistant_message o failure message ∷ []))
            next-Quiet)

    child_heard-Quiet :
        (completion : Json) → Leads Quiet (child_heard o failure next history completion)
    child_heard-Quiet completion =
        Quiet->>= (finish (or_invalid (first_message completion)))
          (child_reply o failure next history)
          (Quiet-finish (or_invalid (first_message completion)))
          (λ message. called-Quiet (calls_of message) message)

    child_asks-Quiet :
        (messages : List Fields) → Leads Quiet (child_asks o failure next tools history messages)
    child_asks-Quiet messages =
        Quiet->>= (request "model.complete" (completion_request o failure tools messages))
          (child_heard o failure next history)
          (request-Quiet "model.complete" (completion_request o failure tools messages))
          child_heard-Quiet

  child_rounds-Quiet :
      (n : ℕ) (tools history : List Json) → Leads Quiet (child_rounds o failure n tools history)
  unfolding child_rounds
  child_rounds-Quiet zero tools history = λ s. Quiet-refl s
  child_rounds-Quiet (suc n) tools history =
      Quiet->>= (finish (objects history))
        (child_asks o failure (child_rounds o failure n tools) tools history)
        (Quiet-finish (objects history))
        (child_asks-Quiet (child_rounds o failure n tools) (child_rounds-Quiet n tools) tools
          history)

  run_child-Quiet : (task : Json) → Leads Quiet (run_child o failure task)
  unfolding run_child
  run_child-Quiet task =
      Quiet->>= (finish (task_of task))
        (λ text. child_of o failure text >>= λ answer. pure (str answer))
        (Quiet-finish (task_of task))
        λ text.
          Quiet->>= (child_of o failure text) (λ answer. pure (str answer))
            (λ s.
              child_rounds-Quiet 12 (without_delegate s.available_tools)
                (s.history ++ child_task o failure text ∷ []) s)
            (λ answer s. Quiet-refl s)

  -- A tool, with a child or without one, takes answers of the controller and leaves the history.
  pub execute_tool-Quiet :
      (name : String) (arguments : Fields) → Leads Quiet (execute_tool o failure name arguments)
  unfolding execute_tool
  execute_tool-Quiet name arguments =
      if-elim AreQuiet (name == "delegate_context_task")
        (λ _. run_child-Quiet (get_none "task" arguments))
        (λ _. execute_other-Quiet o name arguments)
