-- ===== src/Worker/Catalog.antt =====
-- `TOOLS` of agent_worker.py: the tools that every worker offers to its model.
use tgent.Prelude.{false, List, [], ◌∷◌}
use tgent.Json.{Json, bool, int, str, arr, obj, Fields, end, field, pos, of_list}

-- `{"type": "function", "function": {...}}`, with the schema of an object of these properties
abbrev tool : Json → Json → Fields → List Json → Json
tool name description properties required = obj (
    field "type" (str "function") (
      field "function"
        (obj (
          field "name" name (
            field "description" description (
              field "parameters"
                (obj (
                  field "type" (str "object") (
                    field "properties" (obj properties) (
                      field "required" (arr (of_list required))
                        (field "additionalProperties" (bool false) end)))))
                end))))
        end))

abbrev pub delegate_context_task_tool : Json
delegate_context_task_tool =
    tool (str "delegate_context_task")
      (str
        "Run a bounded one-level task against a conversation snapshot; returns text without changing parent history.")
      (field "task"
        (obj (
          field "type" (str "string")
            (field "minLength" (int (pos 1)) (field "maxLength" (int (pos 20000)) end))))
        end)
      (str "task" ∷ [])

abbrev pub read_file_tool : Json
read_file_tool =
    tool (str "read_file")
      (str "Read a UTF-8 file in the project, optionally selecting 1-based inclusive lines.")
      (field "path" (obj (field "type" (str "string") end)) (
        field "start_line" (obj (field "type" (str "integer") (field "minimum" (int (pos 1)) end)))
          (field "end_line" (obj (field "type" (str "integer") (field "minimum" (int (pos 1)) end)))
            end)))
      (str "path" ∷ [])

abbrev pub edit_file_tool : Json
edit_file_tool =
    tool (str "edit_file")
      (str
        "Apply ordered exact literal search/replace pairs to a project file. Each search must match exactly once.")
      (field "path" (obj (field "type" (str "string") end)) (
        field "replacements"
          (obj (
            field "type" (str "array") (
              field "items"
                (obj (
                  field "type" (str "object") (
                    field "properties"
                      (obj (
                        field "search" (obj (field "type" (str "string") end))
                          (field "replace" (obj (field "type" (str "string") end)) end)))
                      (field "required" (arr (of_list ((str "search") ∷ (str "replace") ∷ [])))
                        (field "additionalProperties" (bool false) end)))))
                end)))
          end))
      (str "path" ∷ str "replacements" ∷ [])

abbrev pub search_files_tool : Json
search_files_tool =
    tool (str "search_files")
      (str
        "Search project text files for a literal, case-sensitive string and return matching paths and line numbers.")
      (field "query" (obj (field "type" (str "string") end)) (
        field "paths"
          (obj (
            field "type" (str "array") (field "items" (obj (field "type" (str "string") end)) end)))
          (field "max_results"
            (obj (
              field "type" (str "integer")
                (field "minimum" (int (pos 1)) (field "maximum" (int (pos 200)) end))))
            end)))
      (str "query" ∷ [])

abbrev pub run_command_tool : Json
run_command_tool =
    tool (str "run_command")
      (str
        "Run a command in the sandboxed project. Provide argv as an array; no shell is used. Network and host access are controlled by Bubblewrap.")
      (field "argv"
        (obj (
          field "type" (str "array") (
            field "items" (obj (field "type" (str "string") end))
              (field "minItems" (int (pos 1)) end))))
        (field "timeout_seconds"
          (obj (
            field "type" (str "integer")
              (field "minimum" (int (pos 1)) (field "maximum" (int (pos 120)) end))))
          end))
      (str "argv" ∷ [])

abbrev pub submit_patch_queue_tool : Json
submit_patch_queue_tool =
    tool (str "submit_patch_queue")
      (str "Submit committed snapshot changes for review. Use the full current HEAD commit hash.")
      (field "head_commit" (obj (field "type" (str "string") end)) end) (str "head_commit" ∷ [])

-- `TOOLS`
abbrev pub tools : List Json
tools =
    delegate_context_task_tool ∷ read_file_tool ∷ edit_file_tool ∷ search_files_tool
    ∷ run_command_tool ∷ submit_patch_queue_tool ∷ []
