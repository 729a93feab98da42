-- ===== src/Patch/Lines.antt =====
-- Reading a diff: the hunk header and the numbered entries of a hunk (`_HUNK_HEADER_RE` and the
-- inner `while` of `build_selected_patch`). The digits of a header are ASCII digits.
pub mod Numbered
pub mod Placed
use Prim.Native.Char.{code}
use Prim.Native.String
use tgent.Prelude.{
  ℕ, zero, suc, ◌+◌, ◌-◌, ◌*◌, String, Bool, true, false, ◌&&◌, ◌||◌, Option, none, some, List, [],
  ◌∷◌, leb, drop_prefix, if◌then◌else◌, nat_eq,
}

-- `line.startswith("@@ ")`
unfoldable pub starts_hunk : String → Bool
starts_hunk line = elim (drop_prefix "@@ " line) [ none ↦ false | some _ ↦ true ]

abbrev is_digit : ℕ → Bool
is_digit c = leb b'0' c && leb c b'9'

-- the rest of a number, after the digits read so far
digits_from : ℕ → String → ℕ × String
digits_from n String.[] = (n, String.[])
digits_from n (String.◌∷◌ c s) =
    let rest = digits_from (n * 10 + (code c - b'0')) s in
    if is_digit (code c) then rest else (n, String.◌∷◌ c s)

-- `(\d+)` and the text behind it
unfoldable pub number : String → Option (ℕ × String)
unfolding digits_from
number String.[] = none
number (String.◌∷◌ c s) = if is_digit (code c) then some (digits_from (code c - b'0') s) else none

infixl 5 ◌>>=◌
abbrev ◌>>=◌ : {A B : Type 0} → Option A → (A → Option B) → Option B
none >>= f = none
some a >>= f = f a

-- `(?:,(\d+))?`
unfoldable pub optional_count : String → Option String
optional_count s = elim (drop_prefix "," s) [
  | none ↦ some s
  | some rest ↦ (do (_, after) ← number rest; some after)
]

-- `_HUNK_HEADER_RE.match(line)`, with `old_start` and `new_start`
unfoldable pub match_header : String → Option (ℕ × ℕ)
unfolding number optional_count
match_header line = do
  s ← drop_prefix "@@ -" line
  (old_start, s1) ← number s
  s2 ← optional_count s1
  s3 ← drop_prefix " +" s2
  (new_start, s4) ← number s3
  s5 ← optional_count s4
  _ ← drop_prefix " @@" s5
  some (old_start, new_start)

-- `entry["kind"]`: `" "`, `"-"` and `"+"`
pub data Kind : Type 0 where
  context removed added : Kind

-- `raw[:1]`, where it is one of the three
unfoldable pub kind_of : String → Option Kind
kind_of String.[] = none
kind_of (String.◌∷◌ c s) =
    if nat_eq (code c) b' '
    then some context
    else if nat_eq (code c) b'-'
    then some removed
    else if nat_eq (code c) b'+'
    then some added
    else none

pub record Entry : Type 0 where
  pub raw : String
  pub kind : Kind
  pub old_ref : Option ℕ
  pub new_ref : Option ℕ
  pub old_before : ℕ
  pub new_before : ℕ

-- `kind in {" ", "-"}` and `kind in {" ", "+"}`
abbrev pub is_old : Kind → Bool
is_old added = false
is_old _ = true

abbrev pub is_new : Kind → Bool
is_new removed = false
is_new _ = true

abbrev pub is_context : Kind → Bool
is_context context = true
is_context _ = false

-- `old_cur += 1` and `new_cur += 1`, where the kind has them
abbrev pub advance : Bool → ℕ → ℕ
advance true n = n + 1
advance false n = n

-- the dictionary that is appended to `entries`
unfoldable pub entry : Kind → String → ℕ → ℕ → Entry
entry k raw old new = record {
  raw = raw;
  kind = k;
  old_ref = if is_old k then some old else none;
  new_ref = if is_new k then some new else none;
  old_before = old;
  new_before = new;
}

-- The entries of a hunk, up to the next line that starts with `@@ ` or is of no known kind, and
-- the lines from there on.
unfoldable pub read_entries : List String → ℕ → ℕ → List Entry × List String
read_entries [] old new = ([], [])
read_entries (raw ∷ lines) old new =
    if starts_hunk raw then ([], raw ∷ lines) else elim (kind_of raw) [
      | none ↦ ([], raw ∷ lines)
      | some k ↦
          let (entries, rest) =
            read_entries lines (advance (is_old k) old) (advance (is_new k) new) in
          (entry k raw old new ∷ entries, rest)
    ]
