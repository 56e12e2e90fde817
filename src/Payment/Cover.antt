-- ===== src/Payment/Cover.antt =====
-- `coversAgreedUsd` and `tokenAmountWorthUsd` of `src/domain/payment.ts` against exact products.
use freeagents.Base.{
  ℕ, ◌+◌, ◌-◌, ◌*◌, ◌/◌, ◌^◌, ◌≤◌, ◌<◌, ◌≡◌, ◌↔◌, refl, ap, ◌∙◌, sym, arith, true, false, ok, leb,
  ltb, max,
}
use native.Mathlib.Nat.{
  mul-le-mul_right, le_of_mul-le-mul_right, mul-div-mul_right, mul-div_cancel, mul_assoc,
}
use native.Mathlib.Decide.{dec_lt}
use freeagents.Base.Text.{Text}
use freeagents.Base.Number.{whole}
use freeagents.Base.Decimal.{show}
use freeagents.Payment.Numeral.{amount_token, usd_per_token, agreed_usd}
use freeagents.Payment.Token.{show_scaled, to_base_units}
use freeagents.Payment.Scale.{pow_add, pow_pos}
use freeagents.Payment.Quote.{to_base_units-show_scaled}
use freeagents.Payment.Worth.{
  ExactDecimal, parse_exact_decimal, exact_product, exact_worth, floored, token_amount_worth_usd,
  is_at_least, covers_agreed_usd,
}

leb_of_iff : {a b c d : ℕ} → ((a ≤ b) ↔ (c ≤ d)) → leb a b ≡ leb c d
leb_of_iff (f, g) = ground arith

cross : (w g p q k l : ℕ) → p * k ≡ q * l → 0 < k → 0 < p → (g * q ≤ w * p) ↔ (g * k ≤ w * l)
cross w g p q k l e hk hp = (
  λ h.
      let scaled = mul-le-mul_right l h in
      let same = ap (λ x. g * x) e in
      let moved : g * k * p ≤ w * l * p = grind arith in le_of_mul-le-mul_right moved hp,
  λ h.
      let scaled = mul-le-mul_right q h in
      let same = ap (λ x. w * x) e in
      let moved : g * q * k ≤ w * p * k = grind arith in le_of_mul-le-mul_right moved hk,
)

-- Two decimals compared at a common scale are compared by cross multiplication.
is_at_least_lem :
    (w g : ExactDecimal) → is_at_least w g ≡ leb (g.digits * 10 ^ w.scale) (w.digits * 10 ^ g.scale)
is_at_least_lem w g =
    let s = max w.scale g.scale in
    let fits : (w.scale ≤ s) × (g.scale ≤ s) = ground arith in
    let same : 10 ^ (s - w.scale) * 10 ^ w.scale ≡ 10 ^ (s - g.scale) * 10 ^ g.scale =
      sym (pow_add (s - w.scale) w.scale)
      ∙ ap (λ k. 10 ^ k) (omega arith)
      ∙ pow_add (s - g.scale) g.scale in
    leb_of_iff (
      cross w.digits g.digits (10 ^ (s - w.scale)) (10 ^ (s - g.scale)) (10 ^ w.scale)
        (10 ^ g.scale) same (pow_pos w.scale) (pow_pos (s - w.scale)))

-- A token amount covers the agreed dollars exactly when the amount times the rate, at every digit
-- that they carry, is at least the agreed decimal: nothing is rounded.
pub covers_agreed_usd_lem :
    (amount rate agreed : Text) (a r g : ExactDecimal)
    → parse_exact_decimal amount amount_token ≡ ok a
    → parse_exact_decimal rate usd_per_token ≡ ok r
    → parse_exact_decimal agreed agreed_usd ≡ ok g
    → covers_agreed_usd amount rate agreed
      ≡ ok (leb (g.digits * 10 ^ (a.scale + r.scale)) (a.digits * r.digits * 10 ^ g.scale))
unfolding covers_agreed_usd exact_worth
covers_agreed_usd_lem amount rate agreed a r g ha hr hg =
    rw (ha, hr, hg) (ap ok (is_at_least_lem (exact_product a r) g))

floored_lem : (w : ExactDecimal) → floored w ≡ w.digits * 10 ^ 8 / 10 ^ w.scale
floored_lem w = elim (dec_lt 8 w.scale) [
  | yes h ↦
      let test : ltb 8 w.scale ≡ true = ground arith in
      let power : 10 ^ (w.scale - 8) * 10 ^ 8 ≡ 10 ^ w.scale =
        sym (pow_add (w.scale - 8) 8) ∙ ap (λ k. 10 ^ k) (omega arith) in
      rw test (
        sym (mul-div-mul_right w.digits (10 ^ (w.scale - 8)) (pow_pos 8))
        ∙ ap (λ k. w.digits * 10 ^ 8 / k) power)
  | no h ↦
      let test : ltb 8 w.scale ≡ false = ground arith in
      let places : 8 - w.scale + w.scale ≡ 8 = omega arith in
      let power : 10 ^ (8 - w.scale) * 10 ^ w.scale ≡ 10 ^ 8 =
        sym (pow_add (8 - w.scale) w.scale) ∙ ap (λ k. 10 ^ k) places in
      rw test (
        sym (mul-div_cancel (w.digits * 10 ^ (8 - w.scale)) (pow_pos w.scale))
        ∙ ap (λ k. k / 10 ^ w.scale)
            (mul_assoc w.digits (10 ^ (8 - w.scale)) (10 ^ w.scale) ∙ ap (λ k. w.digits * k) power))
]

-- The worth shown is floored at the eighth place: of an amount and a rate that are read exactly,
-- a worth is shown, and it is the whole part of their product at that place.
pub token_amount_worth_usd_lem :
    (amount rate : Text) (a r : ExactDecimal)
    → parse_exact_decimal amount amount_token ≡ ok a
    → parse_exact_decimal rate usd_per_token ≡ ok r
    → (worth : Text) × (token_amount_worth_usd amount rate ≡ ok worth)
      × (to_base_units worth (whole 8)
          ≡ ok (show (a.digits * r.digits * 10 ^ 8 / 10 ^ (a.scale + r.scale))))
unfolding token_amount_worth_usd exact_worth
token_amount_worth_usd_lem amount rate a r ha hr =
    let w = exact_product a r in
    (
      show_scaled 8 (floored w),
      rw (ha, hr) refl,
      to_base_units-show_scaled 7 (floored w) ∙ ap (λ n. ok (show n)) (floored_lem w),
    )
