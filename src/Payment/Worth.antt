-- ===== src/Payment/Worth.antt =====
-- What a token amount is worth at a later rate, of `src/domain/payment.ts`.
use freeagents.Base.{
  ℕ, ◌+◌, ◌-◌, ◌*◌, ◌/◌, ◌^◌, Bool, ◌++◌, Result, ok, ◌>>=◌, leb, ltb, if◌then◌else◌, length, max,
}
use freeagents.Base.Text.{Text}
use freeagents.Payment.Numeral.{
  Label, usd_per_token, amount_token, agreed_usd, PaymentFault, read_numeral, big_int,
}
use freeagents.Payment.Token.{show_scaled}

abbrev pub worth_precision : ℕ
worth_precision = 8

pub record ExactDecimal : Type 0 where
  pub digits : ℕ
  pub scale : ℕ

unfoldable pub parse_exact_decimal : Text → Label → Result PaymentFault ExactDecimal
unfolding read_numeral big_int
parse_exact_decimal value label = do
  m ← read_numeral value label
  ok (record { digits = big_int (m.whole ++ m.fraction); scale = length m.fraction })

abbrev pub exact_product : ExactDecimal → ExactDecimal → ExactDecimal
exact_product a b = record { digits = a.digits * b.digits; scale = a.scale + b.scale }

unfoldable pub exact_worth : Text → Text → Result PaymentFault ExactDecimal
unfolding parse_exact_decimal
exact_worth amount rate = do
  a ← parse_exact_decimal amount amount_token
  r ← parse_exact_decimal rate usd_per_token
  ok (exact_product a r)

-- the digits at `worth_precision` places, those behind dropped
abbrev pub floored : ExactDecimal → ℕ
floored worth =
    if ltb worth_precision worth.scale
    then worth.digits / 10 ^ (worth.scale - worth_precision)
    else worth.digits * 10 ^ (worth_precision - worth.scale)

unfoldable pub token_amount_worth_usd : Text → Text → Result PaymentFault Text
unfolding exact_worth show_scaled
token_amount_worth_usd amount rate = do
  worth ← exact_worth amount rate
  ok (show_scaled worth_precision (floored worth))

-- `worth >= agreed`, both at the finer of their scales
abbrev pub is_at_least : ExactDecimal → ExactDecimal → Bool
is_at_least worth agreed =
    let scale = max worth.scale agreed.scale in
    leb (agreed.digits * 10 ^ (scale - agreed.scale)) (worth.digits * 10 ^ (scale - worth.scale))

unfoldable pub covers_agreed_usd : Text → Text → Text → Result PaymentFault Bool
unfolding exact_worth parse_exact_decimal
covers_agreed_usd amount rate agreed = do
  worth ← exact_worth amount rate
  a ← parse_exact_decimal agreed agreed_usd
  ok (is_at_least worth a)
