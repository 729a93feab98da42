-- ===== src/Worker/Tools.antt =====
-- The tools that a worker executes for its model: `_call_discovered_tool`, `_execute_tool` and the
-- bounded child of `_run_child`.
pub mod Child
pub mod Still
use Prim.Native.String.{◌++◌ as text_append}
use tgent.Prelude.{
  ℕ, zero, suc, ◌-◌, String, Bool, true, false, not, ◌&&◌, ◌||◌, Option, none, some, List, [], ◌∷◌,
  ◌++◌, length, len, ltb, all_chars, if◌then◌else◌, ◌==◌,
}
use tgent.Result.{Result, ok, err, Error, message, worker_error, other_error}
use tgent.Dict.{lookup}
use tgent.Json.{
  Json, null, str, arr, obj, Items, nil, cons, Fields, end, field, get_value, to_list, of_list,
}
use tgent.Worker.Text.{has_prefix}
use tgent.Worker.Files.{Tree, Project, get_or, get_none, read_file}
use tgent.Worker.Edit.{edit_file}
use tgent.Worker.Search.{search_files}
use tgent.Worker.Command.{run_command, format_tool_result}
use tgent.Worker.Context.{api_messages}
use tgent.Worker.Session.{
  Dynamic, Outside, Session, Action, pure, raise, finish, gets, modify, ◌>>=◌, ◌>>◌, refuse_if,
  on_tree, request,
}

-- `text.replace(search, replace)`, for a text to search for that is not empty, behind the next
-- `skipped` characters
unfoldable pub replace_from : String → String → ℕ → String → String
replace_from search replace skipped String.[] = String.[]
replace_from search replace zero (String.◌∷◌ c s) =
    let here = text_append replace (replace_from search replace (len search - 1) s) in
    let later = String.◌∷◌ c (replace_from search replace zero s) in
    if has_prefix search (String.◌∷◌ c s) then here else later
replace_from search replace (suc skipped) (String.◌∷◌ c s) = replace_from search replace skipped s

abbrev pub error_result : String → Json
error_result text = obj (field "status" (str "error") (field "message" (str text) end))

-- a result, or the text of the exception: what a model reads is never an exception
abbrev pub or_error_result : Action Json → Action Json
or_error_result m s =
    let (r, s') = m s in elim r [ ok v ↦ (ok v, s') | err e ↦ (ok (error_result (message e)), s') ]

-- the message objects of a history; `message.get` fails on any other value
unfoldable pub objects : List Json → Result (List Fields)
objects [] = ok []
objects (x ∷ xs) =
    let rest = objects xs in
    elim x [
      | obj fs ↦ (elim rest [ ok fss ↦ ok (fs ∷ fss) | err e ↦ err e ])
      | _ ↦ err (other_error "object has no attribute 'get'")
    ]

-- what follows on the answer to `model.complete`
abbrev pub first_message : Json → Option Json
first_message (obj completion) = elim (get_value "choices" completion) [
  | arr (cons (obj choice) rest) ↦ some (get_value "message" choice)
  | _ ↦ none
]
first_message _ = none

module _ (o : Outside) where
  abbrev with_variable : String → Fields → String → Json → Result String
  with_variable variable arguments uri (str value) =
      ok (replace_from (text_append "{" (text_append variable "}")) (o.quote value) 0 uri)
  with_variable variable arguments uri _ = err (
      worker_error
        (text_append "MCP resource argument " (text_append variable " must be a string")))

  -- the loop over the variables of a template
  unfoldable pub fill : List String → Fields → String → Result String
  unfolding replace_from
  fill [] arguments uri = ok uri
  fill (variable ∷ variables) arguments uri =
      elim (with_variable variable arguments uri (get_none variable arguments)) [
        | ok uri' ↦ fill variables arguments uri'
        | err e ↦ err e
      ]

  -- `_call_discovered_tool`
  unfoldable pub call_discovered_tool : Dynamic → Fields → Action Json
  call_discovered_tool d arguments =
      if d.is_tool
      then on_tree (d.call_tool d.target arguments)
      else (finish (fill d.variables arguments d.target) >>= λ uri. on_tree (d.read_resource uri))

  -- a tool that only reads
  abbrev pub reads : (Project → Tree → Fields → Result Fields) → Fields → Action Json
  reads f arguments = on_tree λ tree. elim (f o.project tree arguments) [
    | ok fs ↦ (ok (obj fs), tree)
    | err e ↦ (err e, tree)
  ]

  abbrev pub edits : Fields → Action Json
  edits arguments = on_tree λ tree. elim (edit_file o.encoded_length o.project arguments tree) [
    | ok answer ↦ (ok (obj answer.0), answer.1)
    | err e ↦ (err e, tree)
  ]

  abbrev pub runs : Fields → Action Json
  runs arguments = on_tree λ tree. elim (run_command o.decode o.spawn arguments) [
    | ok fs ↦ (ok (obj fs), o.files_after arguments tree)
    | err e ↦ (err e, tree)
  ]

  abbrev pub submits : Json → Action Json
  submits (str head) =
      if head == ""
      then raise (worker_error "head_commit must be a non-empty string")
      else request "patch.submit"
          (field "base_commit" o.base_commit (field "head_commit" (str head) end))
  submits _ = raise (worker_error "head_commit must be a non-empty string")

  -- the tools of the worker itself
  unfoldable pub execute_builtin : String → Fields → Action Json
  execute_builtin name arguments =
      if name == "read_file"
      then reads read_file arguments
      else if name == "edit_file"
      then edits arguments
      else if name == "search_files"
      then reads search_files arguments
      else if name == "run_command"
      then runs arguments
      else if name == "submit_patch_queue"
      then submits (get_none "head_commit" arguments)
      else raise (worker_error (text_append "Unknown tool: " name))

  -- `_execute_tool` but for the task of a child
  unfoldable pub execute_other : String → Fields → Action Json
  unfolding call_discovered_tool execute_builtin
  execute_other name arguments s = elim (lookup name s.dynamic_tools) [
    | some d ↦ call_discovered_tool d arguments s
    | none ↦ execute_builtin name arguments s
  ]
