-- ===== src/Payment/Examples.antt =====
-- The theorems on `src/domain/payment.ts` applied to concrete prices, rates and amounts.
use freeagents.Base.{ℕ, ◌≡◌, ◌<◌, ◌≤◌, ◌*◌, ◌+◌, ◌^◌, ◌/◌, refl, ok, arith, leb}
use freeagents.Base.Text.{Text, codes}
use freeagents.Base.Number.{whole}
use freeagents.Base.Integer.{pos}
use freeagents.Base.Decimal.{show}
use freeagents.Payment.Numeral.{amount_usd, price_usd, usd_per_token, amount_token, agreed_usd}
use freeagents.Payment.Amount.{
  parse_decimal_to_hundredths, hundredths_to_decimal_string, calculate_fee, deposit_usd,
  remainder_usd,
}
use freeagents.Payment.Token.{parse_decimal_scaled, usd_to_token_amount, to_base_units}
use freeagents.Payment.Worth.{ExactDecimal, parse_exact_decimal, covers_agreed_usd}
use freeagents.Payment.Printing.{parse-hundredths_to_decimal_string}
use freeagents.Payment.Legs.{calculate_fee_lem, legs_lem}
use freeagents.Payment.Units.{to_base_units_lem}
use freeagents.Payment.Quote.{usd_to_token_amount_lem}
use freeagents.Payment.Cover.{covers_agreed_usd_lem}

abbrev price : Text
price = codes "99.99"

price_read : parse_decimal_to_hundredths price price_usd ≡ ok 9999
unfolding parse_decimal_to_hundredths
price_read = refl

price_as_amount : parse_decimal_to_hundredths price amount_usd ≡ ok 9999
unfolding parse_decimal_to_hundredths
price_as_amount = refl

abbrev rate : Text
rate = codes "0.0345"

rate_scaled : parse_decimal_scaled rate 8 usd_per_token ≡ ok 3450000
unfolding parse_decimal_scaled
rate_scaled = refl

abbrev rate_digits : ExactDecimal
rate_digits = record { digits = 345; scale = 4 }

rate_exact : parse_exact_decimal rate usd_per_token ≡ ok rate_digits
unfolding parse_exact_decimal
rate_exact = refl

abbrev held : Text
held = codes "2898.2608695"

abbrev held_digits : ExactDecimal
held_digits = record { digits = 28982608695; scale = 7 }

held_exact : parse_exact_decimal held amount_token ≡ ok held_digits
unfolding parse_exact_decimal
held_exact = refl

abbrev price_digits : ExactDecimal
price_digits = record { digits = 9999; scale = 2 }

price_exact : parse_exact_decimal price agreed_usd ≡ ok price_digits
unfolding parse_exact_decimal
price_exact = refl

parse-hundredths_to_decimal_string_example :
    parse_decimal_to_hundredths (hundredths_to_decimal_string (pos 1205)) amount_usd ≡ ok 1205
parse-hundredths_to_decimal_string_example = parse-hundredths_to_decimal_string 1205 amount_usd

calculate_fee_lem_example :
    calculate_fee price (whole 3) ≡ ok (hundredths_to_decimal_string (pos ((9999 * 3 + 50) / 100)))
calculate_fee_lem_example = calculate_fee_lem price 3 9999 price_as_amount

legs_lem_example :
    (d : ℕ) × (r : ℕ) × (deposit_usd price (whole 25) ≡ ok (hundredths_to_decimal_string (pos d)))
    × (remainder_usd price (whole 25) ≡ ok (hundredths_to_decimal_string (pos r)))
    × (d + r ≡ 9999)
    × (100 * d ≤ 9999 * 25 + 50)
    × (9999 * 25 + 50 < 100 * d + 100)
legs_lem_example = legs_lem price 25 9999 (omega arith) price_read

to_base_units_lem_example : to_base_units held (whole 6) ≡ ok (show (28982608695 * 10 ^ 6 / 10 ^ 7))
to_base_units_lem_example = to_base_units_lem held 6 held_exact

usd_to_token_amount_lem_example :
    (quote : Text) × (u : ℕ) × (usd_to_token_amount price rate ≡ ok quote)
    × (to_base_units quote (whole 8) ≡ ok (show u))
    × (u * (100 * 3450000) ≤ 9999 * 10 ^ 8 * 10 ^ 8)
    × (9999 * 10 ^ 8 * 10 ^ 8 < (u + 1) * (100 * 3450000))
usd_to_token_amount_lem_example =
    usd_to_token_amount_lem price rate 9999 3450000 price_as_amount rate_scaled (omega arith)

covers_agreed_usd_lem_example :
    covers_agreed_usd held rate price ≡ ok (leb (9999 * 10 ^ (7 + 4)) (28982608695 * 345 * 10 ^ 2))
covers_agreed_usd_lem_example =
    covers_agreed_usd_lem held rate price held_digits rate_digits price_digits held_exact rate_exact
      price_exact
