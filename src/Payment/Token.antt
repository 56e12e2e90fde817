-- ===== src/Payment/Token.antt =====
-- Token amounts of `src/domain/payment.ts`: a price in tokens at a rate, and a token amount in the
-- token's smallest unit.
use freeagents.Base.{
  ℕ, ◌+◌, ◌*◌, ◌/◌, ◌%◌, ◌^◌, [], ◌∷◌, ◌++◌, Result, ok, ◌>>=◌, ◌>>◌, throw_if, ◌==◌, if◌then◌else◌,
  take, drop,
}
use freeagents.Base.Text.{Text}
use freeagents.Base.Decimal.{show}
use freeagents.Base.Number.{Number}
use freeagents.Payment.Numeral.{
  Label, amount_usd, usd_per_token, amount_token, PaymentFault, bad_decimals, zero_rate, Numeral,
  read_numeral, big_int, pad_end, pad_start,
}
use freeagents.Payment.Amount.{rounds_up, round_up_if, whole_or, parse_decimal_to_hundredths}

abbrev pub rate_precision : ℕ
rate_precision = 8

-- `PRECISION` of `usdToTokenAmount`
abbrev pub token_precision : ℕ
token_precision = 8

abbrev pub scaled_of : ℕ → Numeral → ℕ
scaled_of scale m =
    let fraction = pad_end m.fraction scale in
    round_up_if (rounds_up (drop scale fraction))
      (big_int m.whole * 10 ^ scale + big_int (take scale fraction))

unfoldable pub parse_decimal_scaled : Text → ℕ → Label → Result PaymentFault ℕ
unfolding read_numeral big_int
parse_decimal_scaled value scale label = do m ← read_numeral value label; ok (scaled_of scale m)

-- `.replace(/0+$/, '')`
abbrev pub keep_before : ℕ → Text → Text
keep_before c [] = if c == b'0' then [] else c ∷ []
keep_before c (d ∷ s) = c ∷ d ∷ s

unfoldable pub trim_zeros : Text → Text
trim_zeros [] = []
trim_zeros (c ∷ s) = keep_before c (trim_zeros s)

-- `fraction === '' ? whole : whole.fraction`
abbrev pub with_fraction : Text → Text → Text
with_fraction front [] = front
with_fraction front (d ∷ ds) = front ++ (b'.' ∷ d ∷ ds)

-- A count of `10 ** -precision` in decimal, with no zero at the end of the fraction.
unfoldable pub show_scaled : ℕ → ℕ → Text
unfolding show trim_zeros
show_scaled precision n =
    with_fraction (show (n / 10 ^ precision))
      (trim_zeros (pad_start (show (n % 10 ^ precision)) precision))

-- `(amountHundredths * rateScale * scale) / (100n * rateScaled)`
abbrev pub scaled_quotient : ℕ → ℕ → ℕ
scaled_quotient amount_hundredths rate_scaled =
    amount_hundredths * 10 ^ rate_precision * 10 ^ token_precision / (100 * rate_scaled)

unfoldable pub usd_to_token_amount : Text → Text → Result PaymentFault Text
unfolding parse_decimal_to_hundredths parse_decimal_scaled show_scaled
usd_to_token_amount amount rate = do
  amount_hundredths ← parse_decimal_to_hundredths amount amount_usd
  rate_scaled ← parse_decimal_scaled rate rate_precision usd_per_token
  throw_if (rate_scaled == 0) zero_rate
  ok (show_scaled token_precision (scaled_quotient amount_hundredths rate_scaled))

abbrev pub units_of : ℕ → Numeral → ℕ
units_of decimals m =
    big_int m.whole * 10 ^ decimals + big_int (take decimals (pad_end m.fraction decimals))

unfoldable pub to_base_units : Text → Number → Result PaymentFault Text
unfolding read_numeral show big_int
to_base_units amount decimals = do
  places ← whole_or (bad_decimals decimals) decimals
  m ← read_numeral amount amount_token
  ok (show (units_of places m))
