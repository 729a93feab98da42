-- ===== src/Worker/Command.antt =====
-- `_run_command` and `_format_tool_result` of agent_worker.py. The process that is started, what
-- its streams bring until their ends, and the decoding of bytes are parameters.
use Prim.Native.String.{◌++◌ as text_append}
use tgent.Prelude.{
  ℕ, String, Bool, false, not, ◌&&◌, ◌||◌, none, some, Option, List, [], ◌∷◌, any_char, len,
  take_text, ltb, leb, nat_eq, if◌then◌else◌,
}
use tgent.Result.{Result, ok, err, message, worker_error, ◌>>=◌}
use tgent.Json.{Json, int, str, arr, bool, Items, nil, cons, Fields, end, field, ℤ, pos, negsuc}
use tgent.Worker.Files.{get_or, get_none, natural}
use tgent.Worker.Streams.{read_limited_stream}

-- A started process: whether it ends within so many seconds, its status then or after the kill,
-- and its two streams.
pub record Process (Byte : Type 0) : Type 0 where
  pub ends_within : ℕ → Bool
  pub status : ℤ
  pub status_killed : ℤ
  pub stdout : List (List Byte)
  pub stderr : List (List Byte)

abbrev bad_argv : Result (List String)
bad_argv = err (worker_error "argv must be a non-empty array of strings")

abbrev onto_argv : Json → Result (List String) → Result (List String)
onto_argv (str arg) (ok args) = if any_char (λ c. nat_eq c 0) arg then bad_argv else ok (arg ∷ args)
onto_argv _ _ = bad_argv

abbrev args_of : Items → Result (List String)
args_of nil = ok []
args_of (cons x xs) = onto_argv x (args_of xs)

-- the tests on `argv`
unfoldable pub argv_of : Json → Result (List String)
argv_of (arr (cons x xs)) = args_of (cons x xs)
argv_of _ = bad_argv

-- the tests on `timeout_seconds`
unfoldable pub timeout_of : Option ℕ → Result ℕ
timeout_of none = err (worker_error "timeout_seconds must be between 1 and 120")
timeout_of (some n) =
    if leb 1 n && leb n 120
    then ok n
    else err (worker_error "timeout_seconds must be between 1 and 120")

abbrev is_zero : ℤ → Bool
is_zero (pos n) = nat_eq n 0
is_zero (negsuc n) = false

abbrev status_text : Bool → ℤ → String
status_text timed_out returncode =
    if timed_out then "timeout" else if is_zero returncode then "ok" else "error"

module _ {Byte : Type 0} (decode : List Byte → String) where
  -- the answer about a process that has ended
  unfoldable pub command_answer : ℕ → Process Byte → Fields
  unfolding read_limited_stream
  command_answer timeout process =
      let timed_out = not (process.ends_within timeout) in
      let returncode = if timed_out then process.status_killed else process.status in
      let (stdout, stdout_truncated) = read_limited_stream process.stdout in
      let (stderr, stderr_truncated) = read_limited_stream process.stderr in
      field "status" (str (status_text timed_out returncode)) (
        field "returncode" (int returncode) (
          field "stdout" (str (decode stdout)) (
            field "stderr" (str (decode stderr))
              (field "output_truncated" (bool (stdout_truncated || stderr_truncated)) end))))

  abbrev started : Result (Process Byte) → Result (Process Byte)
  started (ok process) = ok process
  started (err e) = err (worker_error (text_append "Could not start command: " (message e)))

  -- `_run_command`
  unfoldable pub run_command : (List String → Result (Process Byte)) → Fields → Result Fields
  unfolding argv_of timeout_of command_answer
  run_command spawn arguments = do
    argv ← argv_of (get_none "argv" arguments)
    timeout ← timeout_of (natural (get_or "timeout_seconds" (int (pos 30)) arguments))
    process ← started (spawn argv)
    ok (command_answer timeout process)

-- the text of a result: a text as it is, another value as its JSON
abbrev pub result_text : (Json → String) → Json → String
result_text dumps (str text) = text
result_text dumps value = dumps value

-- `_format_tool_result`, with the limit `MAX_TOOL_RESULT_CHARS`
unfoldable pub format_tool_result : (Json → String) → Json → String
format_tool_result dumps result =
    let text = result_text dumps result in
    if ltb 24000 (len text)
    then text_append (take_text 24000 text) "\n...[tool result truncated]"
    else text
