-- ===== src/Payment/Legs.antt =====
-- The fee on a price and the two legs of a price, of `src/domain/payment.ts`: what amounts they
-- are.
use freeagents.Base.{ℕ, ◌+◌, ◌*◌, ◌/◌, ◌-◌, ◌≤◌, ◌<◌, ◌≡◌, ap, arith, ok}
use native.Mathlib.Nat.{mul-le-mul_left}
use freeagents.Base.Text.{Text}
use freeagents.Base.Number.{whole}
use freeagents.Base.Integer.{pos, minus}
use freeagents.Payment.Numeral.{amount_usd, price_usd, deposit_label}
use freeagents.Payment.Amount.{
  parse_decimal_to_hundredths, hundredths_to_decimal_string, rounded_hundredth, calculate_fee,
  deposit_usd, remainder_usd,
}
use freeagents.Payment.Printing.{
  parse_decimal_to_hundredths-label, parse-hundredths_to_decimal_string,
}

rounded_hundredth_lem : (x : ℕ) → rounded_hundredth x ≡ (x + 50) / 100
rounded_hundredth_lem x = ground arith

-- The fee at a whole percentage is that part of the amount as it is read, rounded to the nearest
-- hundredth, and a tie is rounded up.
pub calculate_fee_lem :
    (amount : Text) (rate a : ℕ)
    → parse_decimal_to_hundredths amount amount_usd ≡ ok a
    → calculate_fee amount (whole rate)
      ≡ ok (hundredths_to_decimal_string (pos ((a * rate + 50) / 100)))
unfolding calculate_fee
calculate_fee_lem amount rate a h =
    rw h (ap (λ n. ok (hundredths_to_decimal_string (pos n))) (rounded_hundredth_lem (a * rate)))

part_le : (p percent : ℕ) → percent ≤ 100 → (p * percent + 50) / 100 ≤ p
part_le p percent h = let k = mul-le-mul_left p h in omega arith

-- The two legs of a price at a percentage of at most one hundred: the deposit and the remainder
-- are printed amounts that add up to the price as it is read, and the deposit is that percentage
-- of the price, rounded to the nearest hundredth with a tie rounded up.
pub legs_lem :
    (price : Text) (percent p : ℕ)
    → percent ≤ 100
    → parse_decimal_to_hundredths price price_usd ≡ ok p
    → (d : ℕ) × (r : ℕ) × (deposit_usd price (whole percent)
        ≡ ok (hundredths_to_decimal_string (pos d)))
      × (remainder_usd price (whole percent) ≡ ok (hundredths_to_decimal_string (pos r)))
      × (d + r ≡ p)
      × (100 * d ≤ p * percent + 50)
      × (p * percent + 50 < 100 * d + 100)
unfolding deposit_usd remainder_usd
legs_lem price percent p le h =
    let d = (p * percent + 50) / 100 in
    let fee =
      calculate_fee_lem price percent p
        (parse_decimal_to_hundredths-label price price_usd amount_usd h) in
    let back = parse-hundredths_to_decimal_string d deposit_label in
    let small = part_le p percent le in
    (
      d,
      p - d,
      fee,
      rw (h, fee, back) (ap (λ z. ok (hundredths_to_decimal_string z)) (minus_lem p d small)),
      omega arith,
      omega arith,
      omega arith,
    )
  where
    minus_lem : (m n : ℕ) → n ≤ m → minus m n ≡ pos (m - n)
    minus_lem m n h = ground arith
