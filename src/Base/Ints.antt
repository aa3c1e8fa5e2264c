-- ===== src/Base/Ints.antt =====
-- Go's signed ints, where a sign can occur: `negsuc n` is -(n + 1).
use Prim.Native.Nat.{ℕ, zero, suc, ◌-◌, ◌*◌, ◌%◌, ◌^◌}
use mathlib.Core.Bool.{Bool, true, false}
use chipfs.Base.Tests.{ltb, if◌then◌else◌}

pub data ℤ : Type 0 where
  pos : ℕ → ℤ
  negsuc : ℕ → ℤ

-- `n <= 0`
abbrev pub is_not_positive : ℤ → Bool
is_not_positive (pos zero) = true
is_not_positive (pos (suc n)) = false
is_not_positive (negsuc n) = true

-- The number that a positive int stands for.
abbrev pub magnitude : ℤ → ℕ
magnitude (pos n) = n
magnitude (negsuc n) = suc n

-- `n * k` for a positive constant `k`, before it is cut to 64 bits: -(n + 1) * k = -((n + 1) * k).
abbrev pub scaled : ℤ → ℕ → ℤ
scaled (pos n) k = pos (n * k)
scaled (negsuc n) k = negsuc (suc n * k - 1)

-- The int with the low 64 bits of a number that is not negative, in two's complement
abbrev pub from_bits : ℕ → ℤ
from_bits r = if ltb r (2 ^ 63) then pos r else negsuc (2 ^ 64 - 1 - r)

-- What is left of a number in an int: arithmetic wraps around.
abbrev pub int64 : ℤ → ℤ
int64 (pos n) = from_bits (n % 2 ^ 64)
int64 (negsuc n) = from_bits (2 ^ 64 - 1 - n % 2 ^ 64)
