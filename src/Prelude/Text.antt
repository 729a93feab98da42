-- ===== src/Prelude/Text.antt =====
-- Texts as sequences of characters: Python's `len`, `in` a literal, slices and tests over all
-- characters of a `str`.
use Prim.Native.Nat.{ℕ, zero, suc, compare, Ordering, ◌≤◌, ◌/◌, ◌%◌}
use Prim.Native.Char.{code}
use Prim.Native.String.{String, [], ◌∷◌, ◌++◌}
use mathlib.Core.Path.{◌≡◌, refl}
use mathlib.Core.Bool.{Bool, true, false, ◌&&◌, ◌||◌}
use mathlib.Core.Option.{Option, none, some}
use native.Mathlib.Omega.{arith}

abbrev between : ℕ → ℕ → ℕ → Bool
between lo hi c = elim (compare lo c) [
  | Ordering.gt ↦ false
  | _ ↦ elim (compare c hi) [ Ordering.gt ↦ false | _ ↦ true ]
]

-- `len(s)`
unfoldable pub len : String → ℕ
len [] = 0
len (c ∷ s) = suc (len s)

-- `all(p(c) for c in s)`
unfoldable pub all_chars : (ℕ → Bool) → String → Bool
all_chars p [] = true
all_chars p (c ∷ s) = p (code c) && all_chars p s

-- `any(p(c) for c in s)`
unfoldable pub any_char : (ℕ → Bool) → String → Bool
any_char p [] = false
any_char p (c ∷ s) = p (code c) || any_char p s

-- The first character satisfies `p`; no character, no.
unfoldable pub head_char : (ℕ → Bool) → String → Bool
head_char p [] = false
head_char p (c ∷ s) = p (code c)

-- `s[:n]`
unfoldable pub take_text : ℕ → String → String
take_text zero s = []
take_text (suc n) [] = []
take_text (suc n) (c ∷ s) = c ∷ take_text n s

-- What follows the prefix, if the text starts with it.
unfoldable pub drop_prefix : String → String → Option String
drop_prefix [] s = some s
drop_prefix (c ∷ p) [] = none
drop_prefix (c ∷ p) (d ∷ s) =
    let rest = drop_prefix p s in elim (compare (code c) (code d)) [ Ordering.eq ↦ rest | _ ↦ none ]

-- `s[n:]`
unfoldable pub drop_text : ℕ → String → String
drop_text zero s = s
drop_text (suc n) [] = []
drop_text (suc n) (c ∷ s) = drop_text n s

abbrev digit : ℕ → String
digit zero = "0"
digit (suc zero) = "1"
digit (suc (suc zero)) = "2"
digit (suc (suc (suc zero))) = "3"
digit (suc (suc (suc (suc zero)))) = "4"
digit (suc (suc (suc (suc (suc zero))))) = "5"
digit (suc (suc (suc (suc (suc (suc zero)))))) = "6"
digit (suc (suc (suc (suc (suc (suc (suc zero))))))) = "7"
digit (suc (suc (suc (suc (suc (suc (suc (suc zero)))))))) = "8"
digit _ = "9"

-- `str(n)`, with the digits so far
decimal_onto : ℕ → ℕ → String → String
decimal_onto zero n acc = acc
decimal_onto (suc fuel) n acc =
    let rest = decimal_onto fuel (n / 10) (digit (n % 10) ++ acc) in
    elim (compare n 10) [ Ordering.lt ↦ digit n ++ acc | _ ↦ rest ]

-- `str(n)`: each round takes one digit, so `n + 1` rounds are enough.
unfoldable pub decimal : ℕ → String
unfolding decimal_onto
decimal n = decimal_onto (suc n) n ""

-- `[A-Za-z0-9]`
unfoldable pub is_alnum : ℕ → Bool
is_alnum c = between b'a' b'z' c || (between b'A' b'Z' c || between b'0' b'9' c)

-- `[0-9a-f]`
unfoldable pub is_lower_hex : ℕ → Bool
is_lower_hex c = between b'0' b'9' c || between b'a' b'f' c

-- `[0-9a-fA-F]`
unfoldable pub is_hex : ℕ → Bool
unfolding is_lower_hex
is_hex c = is_lower_hex c || between b'A' b'F' c

pub len-take_text : (n : ℕ) (s : String) → len (take_text n s) ≤ n
unfolding len take_text
len-take_text zero s = omega arith
len-take_text (suc n) [] = omega arith
len-take_text (suc n) (c ∷ s) = omega (arith, len-take_text n s)

pub take_text_idem : (n : ℕ) (s : String) → take_text n (take_text n s) ≡ take_text n s
unfolding take_text
take_text_idem zero s = refl
take_text_idem (suc n) [] = refl
take_text_idem (suc n) (c ∷ s) = λ i. c ∷ take_text_idem n s i

-- What holds of every character refutes a character for which it fails.
pub all-not-any :
    (p q : ℕ → Bool) (s : String)
    → ((c : ℕ) → p c ≡ true → q c ≡ false)
    → all_chars p s ≡ true
    → any_char q s ≡ false
unfolding all_chars any_char
all-not-any p q [] h all = refl
all-not-any p q (c ∷ s) h all = ground (arith, h (code c), all-not-any p q s h)

decimal_large : decimal 1073741824 ≡ "1073741824"
unfolding decimal
decimal_large = refl
