-- ===== src/Payment/Amount.antt =====
-- Amounts of dollars in hundredths, the fee and the two legs of a price, of
-- `src/domain/payment.ts`.
use freeagents.Base.{
  ℕ, ◌+◌, ◌*◌, ◌/◌, ◌%◌, Bool, false, [], ◌∷◌, ◌++◌, Result, ok, err, ◌>>=◌, leb, if◌then◌else◌,
  take, drop,
}
use freeagents.Base.Text.{Text}
use freeagents.Base.Decimal.{show}
use freeagents.Base.Number.{Number, whole}
use freeagents.Base.Integer.{ℤ, pos, negsuc, minus, quotient, remainder}
use freeagents.Payment.Numeral.{
  Label, amount_usd, price_usd, deposit_label, PaymentFault, bad_rate_percent, Numeral,
  read_numeral, big_int, pad_end, pad_start,
}

abbrev pub abt_fee_rate_percent : ℕ
abt_fee_rate_percent = 3

abbrev pub usdc_fee_rate_percent : ℕ
usdc_fee_rate_percent = 6

-- `remainderDigits.length > 0 && Number(remainderDigits[0]) >= 5`
abbrev pub rounds_up : Text → Bool
rounds_up [] = false
rounds_up (d ∷ ds) = leb b'5' d

abbrev pub round_up_if : Bool → ℕ → ℕ
round_up_if up base = if up then base + 1 else base

abbrev pub hundredths_of : Numeral → ℕ
hundredths_of m =
    let fraction = pad_end m.fraction 2 in
    round_up_if (rounds_up (drop 2 fraction)) (big_int m.whole * 100 + big_int (take 2 fraction))

unfoldable pub parse_decimal_to_hundredths : Text → Label → Result PaymentFault ℕ
unfolding read_numeral big_int
parse_decimal_to_hundredths value label = do m ← read_numeral value label; ok (hundredths_of m)

-- `z.toString()`
abbrev pub show_integer : ℤ → Text
show_integer (pos n) = show n
show_integer (negsuc n) = b'-' ∷ show (n + 1)

unfoldable pub hundredths_to_decimal_string : ℤ → Text
unfolding show
hundredths_to_decimal_string hundredths =
    show_integer (quotient hundredths 100)
    ++ (b'.' ∷ pad_start (show_integer (remainder hundredths 100)) 2)

-- `!Number.isInteger(ratePercent) || ratePercent < 0` is refused.
abbrev pub whole_or : PaymentFault → Number → Result PaymentFault ℕ
whole_or fault (whole n) = ok n
whole_or fault _ = err fault

-- `scaled / 100n`, one more if the rest is a half or more
abbrev pub rounded_hundredth : ℕ → ℕ
rounded_hundredth scaled = round_up_if (leb 100 (scaled % 100 * 2)) (scaled / 100)

unfoldable pub calculate_fee : Text → Number → Result PaymentFault Text
unfolding parse_decimal_to_hundredths hundredths_to_decimal_string
calculate_fee amount rate_percent = do
  rate ← whole_or (bad_rate_percent rate_percent) rate_percent
  amount_hundredths ← parse_decimal_to_hundredths amount amount_usd
  ok (hundredths_to_decimal_string (pos (rounded_hundredth (amount_hundredths * rate))))

unfoldable pub deposit_usd : Text → Number → Result PaymentFault Text
unfolding calculate_fee
deposit_usd price deposit_percent = calculate_fee price deposit_percent

unfoldable pub remainder_usd : Text → Number → Result PaymentFault Text
unfolding deposit_usd parse_decimal_to_hundredths hundredths_to_decimal_string
remainder_usd price deposit_percent = do
  price_hundredths ← parse_decimal_to_hundredths price price_usd
  deposit ← deposit_usd price deposit_percent
  deposit_hundredths ← parse_decimal_to_hundredths deposit deposit_label
  ok (hundredths_to_decimal_string (minus price_hundredths deposit_hundredths))
