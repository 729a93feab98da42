-- ===== src/Json.antt =====
-- The values of Python's `json` module, as the program reads and compares them. An object is a
-- `dict`: its keys in insertion order. An `int` is unbounded; a `float` is given by the 64 bits
-- of its IEEE 754 double.
mod Int
mod Objects
unfoldable pub use Int.*
unfoldable pub use Objects.*
use Prim.Native.Nat.{◌/◌, ◌%◌, ◌^◌}
use tgent.Prelude.{
  ℕ, zero, ◌+◌, ◌*◌, String, Bool, true, false, not, ◌&&◌, ◌||◌, Option, none, some, nat_eq, leb,
  ltb, if◌then◌else◌, ◌==◌,
}

-- A float that equals the natural number `n`: the significand times a power of two, exactly.
unfoldable pub float_is : ℕ → ℕ → Bool
float_is bits n =
    if nat_eq bits 0 || nat_eq bits (2 ^ 63)
    then nat_eq n 0
    else leb (2 ^ 52) bits
      && (ltb bits (2047 * 2 ^ 52)
          && nat_eq ((bits % 2 ^ 52 + 2 ^ 52) * 2 ^ (bits / 2 ^ 52)) (n * 2 ^ 1075))

-- `value == n` for a natural number: `True == 1` and `1.0 == 1` hold in Python.
unfoldable pub eq_nat : ℕ → Json → Bool
eq_nat n (bool b) = nat_eq (if b then 1 else 0) n
eq_nat n (int (pos m)) = nat_eq m n
eq_nat n (float bits) = float_is bits n
eq_nat n _ = false

-- `value == s` for a text
unfoldable pub eq_text : String → Json → Bool
eq_text s (str t) = t == s
eq_text s _ = false

-- `isinstance(value, str)` and the like; `bool` is a subclass of `int`
abbrev pub is_str : Json → Bool
is_str (str s) = true
is_str _ = false

abbrev pub is_bool : Json → Bool
is_bool (bool b) = true
is_bool _ = false

abbrev pub is_list : Json → Bool
is_list (arr xs) = true
is_list _ = false

abbrev pub is_dict : Json → Bool
is_dict (obj fs) = true
is_dict _ = false

abbrev pub is_null : Json → Bool
is_null null = true
is_null _ = false

-- `bool(value)`
unfoldable pub truthy : Json → Bool
truthy null = false
truthy (bool b) = b
truthy (int (pos n)) = not (nat_eq n 0)
truthy (int (negsuc n)) = true
truthy (float bits) = not (float_is bits 0)
truthy (str s) = not (s == "")
truthy (arr nil) = false
truthy (arr (cons x xs)) = true
truthy (obj end) = false
truthy (obj (field k v fs)) = true
