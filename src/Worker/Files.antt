-- ===== src/Worker/Files.antt =====
-- `_resolve_project_file` and `_read_file` of agent_worker.py over the files of a project. What
-- `resolve()` makes of a path, which paths are directories and links, and the paths below a
-- directory are the host's.
use Prim.Native.String.{◌++◌ as text_append}
use tgent.Prelude.{
  ℕ, ◌-◌, min, String, Bool, true, false, not, ◌||◌, Option, none, some, List, any_char, length,
  take, drop, ltb, leb, nat_eq, if◌then◌else◌, ◌==◌,
}
use tgent.Result.{Result, ok, err, worker_error, ◌>>=◌}
use tgent.Dict.{Dict, lookup}
use tgent.Json.{Json, null, int, str, Fields, end, field, get, pos}
use tgent.Paths.{FilePath, path_of, path_text, join_texts, join, relative_to}
use tgent.Worker.Text.{splitlines}

-- A regular file: its size, and its text where it is valid UTF-8.
pub record File : Type 0 where
  pub bytes : ℕ
  pub text : Option String

-- The regular files, by the texts of their resolved paths.
abbrev pub Tree : Type 0
Tree = Dict File

pub record Project : Type 0 where
  pub root : FilePath
  pub resolve : FilePath → FilePath
  pub is_dir : FilePath → Bool
  pub is_symlink : FilePath → Bool
  pub rglob : FilePath → List FilePath

abbrev pub file_at : FilePath → Tree → Option File
file_at p tree = lookup (path_text p) tree

abbrev pub is_file : FilePath → Tree → Bool
is_file p tree = elim (file_at p tree) [ none ↦ false | some _ ↦ true ]

-- `path.relative_to(root).as_posix()`, for a path below the root
abbrev pub posix_below : Project → FilePath → String
posix_below project p = elim (relative_to p project.root) [
  | none ↦ path_text p
  | some parts ↦ path_text (record { root = ""; parts = parts })
]

abbrev pub checked_file : FilePath → Option (List String) → String → Bool → Result FilePath
checked_file resolved none supplied is_regular =
    err (worker_error "path resolves outside the project snapshot")
checked_file resolved (some parts) supplied is_regular =
    if is_regular
    then ok resolved
    else err (worker_error (text_append "File does not exist or is not a regular file: " supplied))

-- `_resolve_project_file` with `must_exist=True`
unfoldable pub resolve_project_file : Project → Tree → Json → Result FilePath
resolve_project_file project tree (str supplied) =
    if supplied == "" || any_char (λ c. nat_eq c 0) supplied
    then err (worker_error "path must be a non-empty string")
    else let resolved = project.resolve (join project.root (path_of supplied)) in
      checked_file resolved (relative_to resolved project.root) supplied (is_file resolved tree)
resolve_project_file project tree _ = err (worker_error "path must be a non-empty string")

-- `arguments.get(key, default)`
abbrev pub get_or : String → Json → Fields → Json
get_or key default fs = elim (get key fs) [ none ↦ default | some v ↦ v ]

-- `arguments.get(key)`
abbrev pub get_none : String → Fields → Json
get_none key fs = get_or key null fs

-- `type(value) is not int`
abbrev pub natural : Json → Option ℕ
natural (int (pos n)) = some n
natural _ = none

abbrev range_error : Result (ℕ × ℕ)
range_error = err (worker_error "start_line/end_line must be a valid 1-based inclusive range")

-- the range of lines: both ends are integers, the first at least 1 and the last not before it
abbrev line_range : Option ℕ → Option ℕ → Result (ℕ × ℕ)
line_range (some start) (some last) =
    if ltb start 1 || ltb last start then range_error else ok (start, last)
line_range _ _ = range_error

-- `MAX_FILE_READ_BYTES`
abbrev pub fits : ℕ → Bool
fits bytes = leb bytes 1000000

abbrev decoded : Option File → Result String
decoded none = err (worker_error "File does not exist")
decoded (some file) =
    if not (fits file.bytes)
    then err
        (worker_error "File exceeds 1000000 byte read limit; request a smaller range or search it")
    else elim file.text [
      | none ↦ err (worker_error "File is not valid UTF-8 text")
      | some text ↦ ok text
    ]

abbrev read_answer : Project → FilePath → List String → ℕ × ℕ → Fields
read_answer project p lines (start, last) = field "path" (str (posix_below project p)) (
    field "start_line" (int (pos start)) (
      field "end_line" (int (pos (min last (length lines)))) (
        field "total_lines" (int (pos (length lines))) (
          field "content"
            (str (join_texts "\n" (take (last - (start - 1)) (drop (start - 1) lines)))) end))))

-- `_read_file`
unfoldable pub read_file : Project → Tree → Fields → Result Fields
unfolding resolve_project_file
read_file project tree arguments = do
  p ← resolve_project_file project tree (get_none "path" arguments)
  text ← decoded (file_at p tree)
  range ←
      line_range (natural (get_or "start_line" (int (pos 1)) arguments))
        (natural (get_or "end_line" (int (pos (length (splitlines text)))) arguments))
  ok (read_answer project p (splitlines text) range)
