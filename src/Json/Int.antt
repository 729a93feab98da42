-- ===== src/Json/Int.antt =====
-- Python's unbounded integers over the native numbers.
use Prim.Native.String.{◌++◌}
use tgent.Prelude.{ℕ, suc, ◌+◌, Bool, leb, String, decimal}

-- `negsuc n` is -(n + 1).
pub data ℤ : Type 0 where
  pos : ℕ → ℤ
  negsuc : ℕ → ℤ

abbrev pos_part : ℤ → ℕ
pos_part (pos n) = n
pos_part (negsuc n) = 0

abbrev neg_part : ℤ → ℕ
neg_part (pos n) = 0
neg_part (negsuc n) = suc n

unfoldable pub leb_ℤ : ℤ → ℤ → Bool
leb_ℤ a b = leb (pos_part a + neg_part b) (pos_part b + neg_part a)

-- `str(n)`
unfoldable pub int_text : ℤ → String
int_text (pos n) = decimal n
int_text (negsuc n) = "-" ++ decimal (suc n)
