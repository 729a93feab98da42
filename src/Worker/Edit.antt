-- ===== src/Worker/Edit.antt =====
-- `_edit_file` of agent_worker.py. The replacing of the file by a temporary one is one write.
pub mod Applied
pub mod Edited
use Prim.Native.String.{◌++◌ as text_append}
use tgent.Prelude.{
  ℕ, suc, String, Bool, true, false, not, ◌||◌, Option, none, some, List, [], ◌∷◌, ◌++◌, map,
  nat_eq, decimal, if◌then◌else◌, ◌==◌,
}
use tgent.Result.{Result, ok, err, worker_error, other_error, ◌>>=◌, ◌>>◌, raise_if}
use tgent.Dict.{insert}
use tgent.Json.{
  Json, int, str, arr, obj, bool, Items, nil, cons, Fields, end, field, pos, of_list, to_list,
  get_value,
}
use tgent.Paths.{FilePath, path_text}
use tgent.Worker.Text.{count, replace_first, universal_newlines}
use tgent.Worker.Files.{File, Tree, Project, file_at, posix_below, resolve_project_file, get_none}

abbrev pub at : ℕ → String → String
at index text = text_append "replacements[" (text_append (decimal index) text)

-- the texts of one replacement
abbrev pub texts_of : ℕ → Json → Json → Result (String × String)
texts_of index (str search) (str replace) =
    if search == ""
    then err (worker_error (at index "] requires non-empty search and string replace"))
    else ok (search, replace)
texts_of index _ _ = err (worker_error (at index "] requires non-empty search and string replace"))

unfoldable pub replacement_of : ℕ → Json → Result (String × String)
replacement_of index (obj fs) = texts_of index (get_value "search" fs) (get_value "replace" fs)
replacement_of index _ = err (worker_error (at index "] must be an object"))

-- one round of the loop
unfoldable pub replace_once : ℕ → String × String → String → Result String
replace_once index (search, replace) updated =
    if not (nat_eq (count updated search) 1)
    then err (
        worker_error (
          at index (
            text_append "] expected one exact match, found "
              (text_append (decimal (count updated search)) "; no changes written"))))
    else ok (replace_first search replace updated)

-- `for index, replacement in enumerate(replacements)`
unfoldable pub replace_all : ℕ → List Json → String → Result String
unfolding replacement_of replace_once
replace_all index [] updated = ok updated
replace_all index (r ∷ rs) updated = do
  texts ← replacement_of index r
  updated' ← replace_once index texts updated
  replace_all (suc index) rs updated'

abbrev pub list_of : Json → Result (List Json)
list_of (arr (cons x xs)) = ok (x ∷ to_list xs)
list_of _ = err (worker_error "replacements must be a non-empty array")

-- `path.read_text(encoding="utf-8")`
abbrev pub read_text : Option File → Result String
read_text none = err (other_error "No such file or directory")
read_text (some file) = elim file.text [
  | none ↦ err (other_error "invalid start byte")
  | some text ↦ ok (universal_newlines text)
]

abbrev numbers : ℕ → List Json → List Json
numbers index [] = []
numbers index (r ∷ rs) = int (pos index) ∷ numbers (suc index) rs

abbrev unchanged_answer : String → Fields
unchanged_answer path =
    field "status" (str "ok") (field "path" (str path) (field "changed" (bool false) end))

abbrev changed_answer : String → List Json → Fields
changed_answer path rs = field "status" (str "ok") (
    field "path" (str path) (
      field "changed" (bool true)
        (field "replacements_applied" (arr (of_list (numbers 0 rs))) end)))

module _ (encoded_length : String → ℕ) where
  -- what is written, where the text has changed
  abbrev pub write_text : FilePath → String → Tree → Tree
  write_text p text tree =
      insert (path_text p) (record { bytes = encoded_length text; text = some text }) tree

  abbrev write_changed : Project → FilePath → List Json → String → String → Tree → Fields × Tree
  write_changed project p rs original updated tree =
      if updated == original
      then (unchanged_answer (posix_below project p), tree)
      else (changed_answer (posix_below project p) rs, write_text p updated tree)

  -- `_edit_file`, with the files as they are then: nothing is written before an exception
  unfoldable pub edit_file : Project → Fields → Tree → Result (Fields × Tree)
  unfolding replace_all resolve_project_file
  edit_file project arguments tree = do
    p ← resolve_project_file project tree (get_none "path" arguments)
    rs ← list_of (get_none "replacements" arguments)
    original ← read_text (file_at p tree)
    updated ← replace_all 0 rs original
    ok (write_changed project p rs original updated tree)
