-- ===== src/Common/Integers.antt =====
-- Python's `int` where it may be negative.
use Prim.Native.Nat.{ℕ, zero, suc}
use mathlib.Core.List.{◌++◌}
use rapidstream_noc.Common.Text.{Text, codes, str_of}

pub data ℤ : Type 0 where
  pos negsuc : ℕ → ℤ

-- `n - 1`.
abbrev pub pred : ℤ → ℤ
pred (pos zero) = negsuc zero
pred (pos (suc n)) = pos n
pred (negsuc n) = negsuc (suc n)

-- `str(n)`.
abbrev pub str_of_int : ℤ → Text
str_of_int (pos n) = str_of n
str_of_int (negsuc n) = codes "-" ++ str_of (suc n)
