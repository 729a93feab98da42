-- ===== src/Worker/Text.antt =====
-- What the tools of a worker do with texts: `str.splitlines`, `str.count`, `str.replace(_, _, 1)`,
-- `in` and the newlines that `read_text` translates.
use Prim.Native.Char.{code}
use Prim.Native.String.{◌++◌ as text_append}
use tgent.Prelude.{
  ℕ, zero, suc, ◌-◌, String, Bool, true, false, ◌&&◌, ◌||◌, none, some, List, [], ◌∷◌, len,
  drop_prefix, leb, nat_eq, if◌then◌else◌,
}

-- The line boundaries of `str.splitlines`, but for a line feed behind a carriage return.
abbrev is_boundary : ℕ → Bool
is_boundary c =
    (leb 10 c && leb c 13)
    || ((leb 28 c && leb c 30) || (nat_eq c 133 || (nat_eq c 8232 || nat_eq c 8233)))

abbrev starts_line_feed : String → Bool
starts_line_feed String.[] = false
starts_line_feed (String.◌∷◌ c s) = nat_eq (code c) 10

-- the character in front of the first line
abbrev onto_line : String → List String → List String
onto_line c [] = c ∷ []
onto_line c (line ∷ lines) = text_append c line ∷ lines

-- `text.splitlines()`
unfoldable pub splitlines : String → List String
splitlines String.[] = []
splitlines (String.◌∷◌ c s) =
    let lines = splitlines s in
    if nat_eq (code c) 13 && starts_line_feed s
    then lines
    else if is_boundary (code c)
    then "" ∷ lines
    else onto_line (String.◌∷◌ c String.[]) lines

-- The text starts with the prefix.
abbrev pub has_prefix : String → String → Bool
has_prefix p s = elim (drop_prefix p s) [ none ↦ false | some _ ↦ true ]

-- The matches that do not overlap, from the left, behind the next `skipped` characters.
unfoldable pub count_from : String → ℕ → String → ℕ
count_from search skipped String.[] = 0
count_from search zero (String.◌∷◌ c s) =
    let here = suc (count_from search (len search - 1) s) in
    let later = count_from search zero s in
    if has_prefix search (String.◌∷◌ c s) then here else later
count_from search (suc skipped) (String.◌∷◌ c s) = count_from search skipped s

-- `text.count(search)`, for a text to search for that is not empty
unfoldable pub count : String → String → ℕ
unfolding count_from
count text search = count_from search 0 text

-- `text.replace(search, replace, 1)`, for a text to search for that is not empty
unfoldable pub replace_first : String → String → String → String
replace_first search replace String.[] = String.[]
replace_first search replace (String.◌∷◌ c s) =
    let later = replace_first search replace s in
    elim (drop_prefix search (String.◌∷◌ c s)) [
      | none ↦ String.◌∷◌ c later
      | some rest ↦ text_append replace rest
    ]

-- `query in line`, for a query that is not empty
unfoldable pub contains : String → String → Bool
contains query String.[] = false
contains query (String.◌∷◌ c s) = has_prefix query (String.◌∷◌ c s) || contains query s

-- What `read_text` makes of the newlines of a file: each `\r\n` and each lone `\r` is a `\n`.
unfoldable pub universal_newlines : String → String
universal_newlines String.[] = String.[]
universal_newlines (String.◌∷◌ c s) =
    let rest = universal_newlines s in
    if nat_eq (code c) 13
    then (if starts_line_feed s then rest else text_append "\n" rest)
    else String.◌∷◌ c rest
