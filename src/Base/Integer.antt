-- ===== src/Base/Integer.antt =====
-- Signed integers over the native numbers, with the division of `BigInt`, which rounds toward zero.
use Prim.Native.Nat.{ℕ, zero, suc, ◌-◌, ◌/◌, ◌%◌}
use freeagents.Base.Tests.{leb, if◌then◌else◌}

-- `negsuc n` is -(n + 1).
pub data ℤ : Type 0 where
  pos : ℕ → ℤ
  negsuc : ℕ → ℤ

-- -n
abbrev pub neg : ℕ → ℤ
neg zero = pos 0
neg (suc n) = negsuc n

-- `m - n` of two integers from zero up
abbrev pub minus : ℕ → ℕ → ℤ
minus m n = if leb n m then pos (m - n) else neg (n - m)

-- `z / d` and `z % d` for a positive `d`: the remainder has the sign of `z`.
abbrev pub quotient : ℤ → ℕ → ℤ
quotient (pos n) d = pos (n / d)
quotient (negsuc n) d = neg (suc n / d)

abbrev pub remainder : ℤ → ℕ → ℤ
remainder (pos n) d = pos (n % d)
remainder (negsuc n) d = neg (suc n % d)
