-- ===== src/Payment/Tests.antt =====
-- Small runs of the arithmetic of `src/domain/payment.ts`, as its tests run it.
use freeagents.Base.{◌≡◌, refl, ok, err, true, false}
use freeagents.Base.Text.{codes}
use freeagents.Base.Number.{whole, below}
use freeagents.Payment.Numeral.{bad_rate_percent, zero_rate}
use freeagents.Payment.Amount.{calculate_fee, deposit_usd, remainder_usd}
use freeagents.Payment.Token.{usd_to_token_amount, to_base_units}
use freeagents.Payment.Worth.{token_amount_worth_usd, covers_agreed_usd}

-- the tie of 0.50 at three percent
fee_tie : calculate_fee (codes "0.50") (whole 3) ≡ ok (codes "0.02")
unfolding calculate_fee
fee_tie = refl

fee_negative : calculate_fee (codes "0.50") (below 2) ≡ err (bad_rate_percent (below 2))
unfolding calculate_fee
fee_negative = refl

deposit_test : deposit_usd (codes "99.99") (whole 25) ≡ ok (codes "25.00")
unfolding deposit_usd
deposit_test = refl

remainder_test : remainder_usd (codes "99.99") (whole 25) ≡ ok (codes "74.99")
unfolding remainder_usd
remainder_test = refl

quote_test : usd_to_token_amount (codes "10.00") (codes "3") ≡ ok (codes "3.33333333")
unfolding usd_to_token_amount
quote_test = refl

quote_zero : usd_to_token_amount (codes "10.00") (codes "0.000000001") ≡ err zero_rate
unfolding usd_to_token_amount
quote_zero = refl

units_test : to_base_units (codes "1.2345678") (whole 6) ≡ ok (codes "1234567")
unfolding to_base_units
units_test = refl

worth_test : token_amount_worth_usd (codes "3") (codes "0.29") ≡ ok (codes "0.87")
unfolding token_amount_worth_usd
worth_test = refl

covers_test : covers_agreed_usd (codes "3") (codes "0.29") (codes "0.87") ≡ ok true
unfolding covers_agreed_usd
covers_test = refl

covers_short : covers_agreed_usd (codes "2.9999") (codes "0.29") (codes "0.87") ≡ ok false
unfolding covers_agreed_usd
covers_short = refl

-- The amount is rounded when it is read, and the fee again: 0.00495 is nearer to 0.00.
fee_twice : calculate_fee (codes "0.165") (whole 3) ≡ ok (codes "0.01")
unfolding calculate_fee
fee_twice = refl
