-- ===== src/Common/Int.antt =====
-- Signed integers over the native numbers, and Go's 64-bit `int` with its wrap-around.
use Prim.Native.Nat.{ℕ, suc, ◌-◌}
use flowix.Common.Tests.{leb, if◌then◌else◌}

-- `negsuc n` is -(n + 1).
pub data ℤ : Type 0 where
  pos : ℕ → ℤ
  negsuc : ℕ → ℤ

abbrev pub pos_part : ℤ → ℕ
pos_part (pos n) = n
pos_part (negsuc n) = 0

abbrev pub neg_part : ℤ → ℕ
neg_part (pos n) = 0
neg_part (negsuc n) = suc n

-- a - b, as an integer.
abbrev pub sub_ℕ : ℕ → ℕ → ℤ
sub_ℕ a b = if leb b a then pos (a - b) else negsuc (b - a - 1)

-- The least and greatest values of an int64 are -2^63 and `max_int64`.
abbrev pub max_int64 : ℕ
max_int64 = 9223372036854775807

-- The 64-bit integer that a number below 2^64 wraps around to.
abbrev pub int64 : ℕ → ℤ
int64 n = if leb n max_int64 then pos n else negsuc (18446744073709551616 - n - 1)
