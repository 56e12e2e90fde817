-- ===== src/Payment/Units.antt =====
-- Token amounts in their smallest unit, of `src/domain/payment.ts`.
use freeagents.Base.{
  ℕ, zero, suc, ◌+◌, ◌-◌, ◌*◌, ◌/◌, ◌^◌, ◌≤◌, ◌<◌, ◌++◌, length, replicate, take, drop, ◌≡◌, refl,
  ap, ap₂, ◌∙◌, sym, arith, ok, length-append, >>=-eq-ok, ok-injective,
}
use native.Mathlib.Nat.{div-eq_of_lt-le, mul-lt-mul_of_pos_right}
use mathlib.Core.List.{append-nil}
use native.Mathlib.Decide.{dec_lt}
use mathlib.Core.Path.{subst}
use freeagents.Base.Text.{Text}
use freeagents.Payment.Digits.{AllDigits, big_int-append}
use freeagents.Payment.Numeral.{
  PaymentFault, Numeral, big_int, pad_end, digits_onto, amount_token, read_numeral,
}
use freeagents.Payment.Scale.{
  pow_add, pow_pos, big_int-lt, length-take-drop, AllDigits-drop, take-length, IsNumeral,
  read_numeral-IsNumeral,
}
use freeagents.Payment.Token.{units_of, to_base_units}
use freeagents.Payment.Printing.{length-replicate}
use freeagents.Payment.Worth.{parse_exact_decimal, ExactDecimal}
use freeagents.Base.Number.{whole}
use freeagents.Base.Decimal.{show}

-- Digits cut off behind the first `d` are worth less than one at the last place.
cut_bounds :
    (d : ℕ) (f : Text)
    → AllDigits f
    → d ≤ length f
    → (big_int (take d f) * 10 ^ length f ≤ big_int f * 10 ^ d)
      × (big_int f * 10 ^ d < (big_int (take d f) + 1) * 10 ^ length f)
cut_bounds d f h le =
    let (parts, len) = length-take-drop d f le in
    let value : big_int (take d f) * 10 ^ (length f - d) + big_int (drop d f) ≡ big_int f =
      rw (sym len, sym (big_int-append (take d f) (drop d f)), parts) refl in
    let small : big_int (drop d f) < 10 ^ (length f - d) =
      rw (sym len) (big_int-lt (drop d f) (AllDigits-drop d f h)) in
    let power : 10 ^ (length f - d) * 10 ^ d ≡ 10 ^ length f =
      sym (pow_add (length f - d) d) ∙ ap (λ k. 10 ^ k) (omega arith) in
    bounds (big_int (take d f)) _ _ _ (10 ^ d) _ value power small (pow_pos d)
  where
    bounds :
        (t r p F q l : ℕ)
        → t * p + r ≡ F
        → p * q ≡ l
        → r < p
        → 0 < q
        → (t * l ≤ F * q) × (F * q < (t + 1) * l)
    bounds t r p F q l e g h k =
        let rest = mul-lt-mul_of_pos_right h k in rw (sym e, sym g) (grind arith, grind arith)

-- The digits that `d` places keep of a fraction, zeros added behind it.
abbrev pub kept : ℕ → Text → ℕ
kept d f = big_int (take d (pad_end f d))

big_int-replicate : (k : ℕ) → big_int (replicate k b'0') ≡ 0
unfolding big_int digits_onto
big_int-replicate zero = refl
big_int-replicate (suc k) = big_int-replicate k

big_int-padded : (f : Text) (k : ℕ) → big_int (f ++ replicate k b'0') ≡ big_int f * 10 ^ k
big_int-padded f k =
    big_int-append f (replicate k b'0')
    ∙ ap₂ (λ a b. big_int f * 10 ^ a + b) (length-replicate {A = ℕ} k b'0') (big_int-replicate k)
    ∙ omega arith

pub take_all : (n : ℕ) (s : Text) → length s ≡ n → take n s ≡ s
take_all n s e = subst (λ k. take k s ≡ s) e (take-length s)

kept-long : (d : ℕ) (f : Text) → d ≤ length f → kept d f ≡ big_int (take d f)
kept-long d f le =
    let none_added : d - length f ≡ 0 = omega arith in
    ap (λ s. big_int (take d s)) (ap (λ k. f ++ replicate k b'0') none_added ∙ append-nil f)

kept-short : (d : ℕ) (f : Text) → length f ≤ d → kept d f ≡ big_int f * 10 ^ (d - length f)
kept-short d f le =
    ap big_int (
      take_all d (pad_end f d) (
        length-append f (replicate (d - length f) b'0')
        ∙ ap (λ k. length f + k) (length-replicate {A = ℕ} (d - length f) b'0')
        ∙ omega arith))
    ∙ big_int-padded f (d - length f)

pub kept_bounds :
    (d : ℕ) (f : Text)
    → AllDigits f
    → (kept d f * 10 ^ length f ≤ big_int f * 10 ^ d)
      × (big_int f * 10 ^ d < (kept d f + 1) * 10 ^ length f)
kept_bounds d f h = elim (dec_lt (length f) d) [
  | yes lt ↦ rw (kept-short d f (omega arith)) (
      exact (big_int f) _ _ _
        (sym (pow_add (d - length f) (length f)) ∙ ap (λ k. 10 ^ k) (omega arith))
        (pow_pos (length f)))
  | no ge ↦ rw (kept-long d f (omega arith)) (cut_bounds d f h (omega arith))
]
  where
    exact : (F p q l : ℕ) → p * q ≡ l → 0 < q → (F * p * q ≤ F * l) × (F * l < (F * p + 1) * q)
    exact F p q l e h = rw (sym e) (grind arith, grind arith)

-- The whole part of a numeral at `decimals` places.
pub units_of_lem :
    (decimals : ℕ) (m : Numeral)
    → IsNumeral m
    → units_of decimals m ≡ big_int (m.whole ++ m.fraction) * 10 ^ decimals / 10 ^ length m.fraction
units_of_lem decimals m (hw, hf) =
    let (lower, upper) = kept_bounds decimals m.fraction hf in
    let (a, b) =
      bounds (big_int m.whole) (kept decimals m.fraction) (big_int m.fraction)
        (10 ^ length m.fraction) (10 ^ decimals) lower upper in
    sym (
      div-eq_of_lt-le (10 ^ length m.fraction) (rw (big_int-append m.whole m.fraction) a)
        (rw (big_int-append m.whole m.fraction) b))
  where
    bounds :
        (w v F l q : ℕ)
        → v * l ≤ F * q
        → F * q < (v + 1) * l
        → ((w * q + v) * l ≤ (w * l + F) * q) × ((w * l + F) * q < (w * q + v + 1) * l)
    bounds w v F l q g h = (grind arith, grind arith)

-- A token amount in the smallest unit is floored: of an amount that is read exactly as some digits
-- at some scale, it is the whole part at the given number of decimals, whatever that number is.
pub to_base_units_lem :
    (amount : Text) (decimals : ℕ) {e : ExactDecimal}
    → parse_exact_decimal amount amount_token ≡ ok e
    → to_base_units amount (whole decimals) ≡ ok (show (e.digits * 10 ^ decimals / 10 ^ e.scale))
unfolding to_base_units parse_exact_decimal
to_base_units_lem amount decimals {e = e} h =
    let (m, r, k) = >>=-eq-ok (read_numeral amount amount_token) _ h in
    let units = units_of_lem decimals m (read_numeral-IsNumeral amount amount_token r) in
    rw r (
      ap (λ n. ok (show n)) units
      ∙ ap (λ x. ok (show (x.digits * 10 ^ decimals / 10 ^ x.scale))) (ok-injective PaymentFault k))
