-- ===== src/Patch/Build.antt =====
-- Printing: one hunk for each segment, and the loop over the lines of the diff.
pub mod Exact
pub mod Marker
pub mod Sourced
use Prim.Native.String
use Prim.Native.String.{◌++◌}
use mathlib.Core.Option
use mathlib.Core.List.{◌++◌ as append}
use tgent.Prelude.{
  ℕ, zero, suc, ◌+◌, String, Bool, true, false, Option, none, some, List, [], ◌∷◌, map, decimal,
  length, if◌then◌else◌,
}
use tgent.Patch.Lines.{Kind, Entry, is_old, is_new, starts_hunk, match_header, read_entries}
use tgent.Patch.Select.{segments_of, selected_from}

-- `sum(1 for e in segment if e["kind"] in {" ", "-"})`, and so for the new side
unfoldable pub count_old : List Entry → ℕ
count_old [] = 0
count_old (e ∷ es) = if is_old e.kind then suc (count_old es) else count_old es

unfoldable pub count_new : List Entry → ℕ
count_new [] = 0
count_new (e ∷ es) = if is_new e.kind then suc (count_new es) else count_new es

-- The number of the first old line; where there is none, that of the line before which the
-- segment stands.
unfoldable pub old_start : Option ℕ → List Entry → Option ℕ
old_start default [] = default
old_start default (e ∷ es) = if is_old e.kind then e.old_ref else old_start default es

unfoldable pub new_start : Option ℕ → List Entry → Option ℕ
new_start default [] = default
new_start default (e ∷ es) = if is_new e.kind then e.new_ref else new_start default es

-- The numbers of a hunk header and the lines below it.
pub record Hunk : Type 0 where
  pub old_first : Option ℕ
  pub old_count : ℕ
  pub new_first : Option ℕ
  pub new_count : ℕ
  pub body : List Entry

abbrev before : (Entry → ℕ) → List Entry → Option ℕ
before f [] = none
before f (e ∷ es) = some (f e)

unfoldable pub hunk_of : List Entry → Hunk
hunk_of segment = record {
  old_first = old_start (before (λ e. e.old_before) segment) segment;
  old_count = count_old segment;
  new_first = new_start (before (λ e. e.new_before) segment) segment;
  new_count = count_new segment;
  body = segment;
}

-- `"\n".join(…)`
unfoldable pub join_lines : List String → String
join_lines [] = ""
join_lines (s ∷ []) = s
join_lines (s ∷ t ∷ rest) = s ++ ("\n" ++ join_lines (t ∷ rest))

-- `f"{ref}"`
abbrev ref_text : Option ℕ → String
ref_text none = "None"
ref_text (some n) = decimal n

unfoldable pub header_text : Hunk → String
header_text h =
    "@@ -"
    ++ (ref_text h.old_first
        ++ (","
            ++ (decimal h.old_count
                ++ (" +" ++ (ref_text h.new_first ++ ("," ++ (decimal h.new_count ++ " @@")))))))

unfoldable pub hunk_text : Hunk → String
hunk_text h = join_lines (header_text h ∷ map (λ e. e.raw) h.body)

-- the hunks of one hunk of the diff; without a selected entry there is none
unfoldable pub hunks_of : List ℕ → List ℕ → List Entry → List Hunk
hunks_of old_lines new_lines entries = elim (selected_from old_lines new_lines 0 entries) [
  | [] ↦ []
  | _ ∷ _ ↦ map hunk_of (segments_of old_lines new_lines entries)
]

-- The outer `while`, on the lines from `i` on. Every round takes a line at least, so one more
-- round than there are lines is enough; `none` says that the rounds ran out.
unfoldable pub hunks_from : ℕ → List ℕ → List ℕ → List String → Option (List Hunk)
hunks_from zero old_lines new_lines lines = none
hunks_from (suc fuel) old_lines new_lines [] = some []
hunks_from (suc fuel) old_lines new_lines (line ∷ lines) = elim (match_header line) [
  | none ↦ hunks_from fuel old_lines new_lines lines
  | some (old_cur, new_cur) ↦
      let (entries, rest) = read_entries lines old_cur new_cur in
      Option.map (λ hs. append (hunks_of old_lines new_lines entries) hs)
        (hunks_from fuel old_lines new_lines rest)
]

-- `preamble` and the lines from the first hunk on
unfoldable pub split_preamble : List String → List String × List String
split_preamble [] = ([], [])
split_preamble (line ∷ lines) =
    let (preamble, rest) = split_preamble lines in
    if starts_hunk line then ([], line ∷ lines) else (line ∷ preamble, rest)

abbrev pub patch_text : List String → List Hunk → String
patch_text preamble [] = ""
patch_text preamble (h ∷ hs) =
    join_lines (append preamble (append (map hunk_text (h ∷ hs)) ("" ∷ [])))

-- `build_selected_patch`, on `diff_text.splitlines()`
unfoldable pub build_selected_patch : List String → List ℕ → List ℕ → Option String
build_selected_patch lines old_lines new_lines =
    let (preamble, rest) = split_preamble lines in
    Option.map (patch_text preamble) (hunks_from (suc (length rest)) old_lines new_lines rest)
