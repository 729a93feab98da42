-- ===== src/Worker/Context.antt =====
-- `_api_messages` of agent_worker.py: the bounded view of the history that a model
-- is shown. The system prompt and the length of the bytes of a text are parameters.
pub mod Bounded
use Prim.Native.String.{◌++◌ as text_append}
use tgent.Prelude.{
  ℕ, suc, ◌+◌, ◌-◌, String, Bool, true, false, not, ◌&&◌, ◌||◌, Option, none, some, List, [], ◌∷◌,
  ◌++◌, length, take, drop, take_text, drop_text, len, ltb, leb, nat_eq, if◌then◌else◌, ◌==◌,
}
use mathlib.Core.List.{reverse}
use tgent.Paths.{join_texts}
use tgent.Json.{Json, null, str, obj, Fields, end, field, get_value, get, put, is_str}

-- the line that names a tool
abbrev line_of : Json → Json → Option String
line_of (str name) (str description) = some (
    if description == ""
    then text_append "- " name
    else text_append "- " (text_append name (text_append ": " (take_text 300 description))))
line_of (str name) _ = some (text_append "- " name)
line_of _ _ = none

abbrev function_line : Json → Option String
function_line (obj f) = line_of (get_value "name" f) (get_value "description" f)
function_line _ = none

abbrev tool_line : Json → Option String
tool_line (obj tool) = function_line (get_value "function" tool)
tool_line _ = none

-- `tool_lines`
unfoldable pub tool_lines : List Json → List String
tool_lines [] = []
tool_lines (tool ∷ tools) =
    let rest = tool_lines tools in elim (tool_line tool) [ none ↦ rest | some line ↦ line ∷ rest ]

-- `key in allowed`
abbrev is_allowed_key : String → Bool
is_allowed_key k =
    k == "role" || (k == "content" || (k == "name" || (k == "tool_calls" || k == "tool_call_id")))

-- the members of a message that a model may see
unfoldable pub clean : Fields → Fields
clean end = end
clean (field k v fs) = let rest = clean fs in if is_allowed_key k then field k v rest else rest

-- `clean_history`
unfoldable pub clean_history : List Fields → List Fields
unfolding clean
clean_history [] = []
clean_history (m ∷ ms) =
    let rest = clean_history ms in if is_str (get_value "role" m) then clean m ∷ rest else rest

-- `xs[-n:]` for a positive `n`
abbrev pub last_of {ℓ} : {A : Type ℓ} → ℕ → List A → List A
last_of n xs = drop (length xs - n) xs

-- what is left of a content that is too long
abbrev shortened : ℕ → String → String
shortened remaining content =
    if ltb 0 remaining
    then drop_text (len content - remaining) content
    else "[message omitted: context budget]"

-- `role == "tool"`
abbrev pub is_tool_value : Json → Bool
is_tool_value (str role) = role == "tool"
is_tool_value _ = false

abbrev pub is_tool : Fields → Bool
is_tool m = is_tool_value (get_value "role" m)

-- `while selected and selected[0].get("role") == "tool": selected.pop(0)`
unfoldable pub drop_tools : List Fields → List Fields
drop_tools [] = []
drop_tools (m ∷ ms) = let rest = drop_tools ms in if is_tool m then rest else m ∷ ms

abbrev pub is_empty : List Fields → Bool
is_empty [] = true
is_empty (m ∷ ms) = false

module _ (json_bytes : Fields → ℕ) where
  abbrev shorten_value : ℕ → Fields → Json → Fields
  shorten_value total m (str content) =
      put "content" (str (shortened (1000000 - total - 256) content)) m
  shorten_value total m _ = m

  -- a message that is too long is shortened, if its content is a text
  unfoldable pub shorten : ℕ → Fields → Fields
  shorten total m = shorten_value total m (get_value "content" m)

  -- The loop over the messages, the last first, with `selected` in the order in which it is
  -- appended to and `total_bytes`.
  unfoldable pub select : List Fields → List Fields → ℕ → List Fields
  unfolding shorten
  select [] selected total = selected
  select (m ∷ ms) selected total =
      let kept = select ms (selected ++ m ∷ []) (total + json_bytes m) in
      let short = shorten total m in
      let kept_short = select ms (selected ++ short ∷ []) (total + json_bytes short) in
      let skipped = select ms selected total in
      if ltb 1000000 (total + json_bytes m)
      then (if is_empty selected
          then (if ltb 1000000 (total + json_bytes short) then skipped else kept_short)
          else selected)
      else kept

-- `system_prompt` with the lines of the tools
abbrev pub prompt_with : String → List Json → String
prompt_with system_prompt tools =
    text_append system_prompt
      (text_append "\n\nAvailable tools:\n" (join_texts "\n" (tool_lines tools)))

module _ (json_bytes : Fields → ℕ) (text_bytes : String → ℕ) (system_prompt : String) where
  -- `selected` when the loop has ended, in the order of the history
  unfoldable pub selected_messages : List Json → List Fields → List Fields
  unfolding clean_history select drop_tools
  selected_messages tools history = drop_tools (
      reverse (
        select json_bytes (reverse (last_of 120 (clean_history history))) []
          (text_bytes (prompt_with system_prompt tools))))

  -- `_api_messages`
  unfoldable pub api_messages : List Json → List Fields → List Fields
  unfolding selected_messages tool_lines join_texts
  api_messages tools history =
      field "role" (str "system") (field "content" (str (prompt_with system_prompt tools)) end)
      ∷ selected_messages tools history
