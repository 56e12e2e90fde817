-- ===== src/Base/Number.antt =====
-- A `number` that a caller hands over where a count or an index is wanted.
use Prim.Native.Nat.{ℕ}

-- A whole number from zero up, a whole number below zero (`below n` is -(n + 1)), or any other:
-- a fraction, `NaN`, an infinity.
pub data Number : Type 0 where
  whole : ℕ → Number
  below : ℕ → Number
  other : Number
