-- ===== src/Protocol/Ids.antt =====
-- The checks of single values in remote_agent_protocol.py: `_validate_id`, `_is_valid_id`,
-- `_bounded_int`, the commit and digest texts and the names of MCP modules.
pub mod Safe
use Prim.Native.String.{◌++◌}
use tgent.Prelude.{
  ℕ, String, Bool, true, false, ◌&&◌, ◌||◌, none, some, List, [], ◌∷◌, len, all_chars, head_char,
  is_alnum, is_lower_hex, drop_prefix, decimal, ltb, leb, nat_eq, ◌==◌, if◌then◌else◌,
}
use tgent.Result.{Result, ok, err, protocol_error}
use tgent.Json.{Json, int, str, ℤ, pos, leb_ℤ}

-- `_ID_CHARACTERS`
unfoldable pub is_id_char : ℕ → Bool
unfolding is_alnum
is_id_char c = is_alnum c || (nat_eq c b'.' || (nat_eq c b'_' || nat_eq c b'-'))

-- `_is_valid_id`: the four tests that `_validate_id` makes too
unfoldable pub is_valid_id : String → Bool
is_valid_id s =
    leb 1 (len s) && (leb (len s) 128 && (head_char is_alnum s && all_chars is_id_char s))

-- `_validate_id`
unfoldable pub validate_id : Json → String → Result String
validate_id (str s) name = if is_valid_id s then ok s else err (protocol_error ("Invalid " ++ name))
validate_id _ name = err (protocol_error ("Invalid " ++ name))

-- `_bounded_int`: a `bool` is an `int` in Python, and is refused here
unfoldable pub bounded_int : Json → String → ℕ → ℕ → Result ℤ
bounded_int (int n) name minimum maximum =
    if leb_ℤ (pos minimum) n && leb_ℤ n (pos maximum)
    then ok n
    else err (
        protocol_error (
          name
          ++ (" must be an integer between " ++ (decimal minimum ++ (" and " ++ decimal maximum)))))
bounded_int _ name minimum maximum = err (
    protocol_error (
      name
      ++ (" must be an integer between " ++ (decimal minimum ++ (" and " ++ decimal maximum)))))

-- `[A-Za-z0-9_-]`
unfoldable pub is_word_char : ℕ → Bool
unfolding is_alnum
is_word_char c = is_alnum c || (nat_eq c b'_' || nat_eq c b'-')

-- `re.fullmatch(r"mcp_[A-Za-z0-9_-]+", name)`
unfoldable pub is_mcp_name : String → Bool
is_mcp_name name = elim (drop_prefix "mcp_" name) [
  | none ↦ false
  | some rest ↦ ltb 0 (len rest) && all_chars is_word_char rest
]

-- 64 lower-case hexadecimal digits
unfoldable pub is_digest : String → Bool
is_digest s = nat_eq (len s) 64 && all_chars is_lower_hex s

-- 40 or 64 lower-case hexadecimal digits
unfoldable pub is_base_commit : String → Bool
is_base_commit s = (nat_eq (len s) 40 || nat_eq (len s) 64) && all_chars is_lower_hex s

-- `x in xs`
unfoldable pub mem_text : String → List String → Bool
mem_text x [] = false
mem_text x (y ∷ ys) = y == x || mem_text x ys

-- `set(xs) <= set(ys)`
unfoldable pub subset_text : List String → List String → Bool
unfolding mem_text
subset_text [] ys = true
subset_text (x ∷ xs) ys = mem_text x ys && subset_text xs ys

-- `set(xs) == set(ys)`
unfoldable pub same_set : List String → List String → Bool
unfolding subset_text mem_text
same_set xs ys = subset_text xs ys && subset_text ys xs

-- `len(set(xs)) != len(xs)`
unfoldable pub has_duplicates : List String → Bool
has_duplicates [] = false
has_duplicates (x ∷ xs) = mem_text x xs || has_duplicates xs
