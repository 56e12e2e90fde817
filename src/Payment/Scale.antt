-- ===== src/Payment/Scale.antt =====
-- Powers of ten, and the fraction digits that `src/domain/payment.ts` keeps at a number of places.
use freeagents.Base.{
  ℕ, zero, suc, ◌+◌, ◌-◌, ◌*◌, ◌^◌, ◌≤◌, ◌<◌, [], ◌∷◌, ◌++◌, length, take, drop, ◌≡◌, refl, ap, ◌∙◌,
  arith, Bool, true, false, Option, none, some, ok, ◌==◌, Bool-cases, inl, inr,
}
use native.Mathlib.Nat.{mul-le-mul_right, one-le-pow}
use native.Mathlib.Omega.{pow_step}
use mathlib.Core.Path.{subst}
use freeagents.Base.Text.{Text, is_digit, trim}
use freeagents.Payment.Digits.{AllDigits, digits_onto_lem}
use freeagents.Payment.Numeral.{
  Label, PaymentFault, Numeral, numeral_or, numeral_of, fraction_group, fraction_digits,
  not_a_decimal, digit_run, match_numeral, read_numeral, digits_onto, big_int,
}

pub pow_add : (a b : ℕ) → 10 ^ (a + b) ≡ 10 ^ a * 10 ^ b
pow_add zero b = grind arith
pow_add (suc a) b =
    ap (λ n. 10 ^ n) (omega arith)
    ∙ pow_step 10 (a + b)
    ∙ rw (pow_add a b, pow_step 10 a) (grind arith)

pub pow_pos : (k : ℕ) → 0 < 10 ^ k
pow_pos k = one-le-pow k 10 (omega arith)

-- A digit is worth at most nine, so `k` digits are worth less than `10 ^ k`.
pub big_int-lt : (s : Text) → AllDigits s → big_int s < 10 ^ length s
unfolding big_int digits_onto
big_int-lt [] h = omega arith
big_int-lt (c ∷ s) (hc, hs) =
    let digit : c - b'0' ≤ 9 = ground arith in
    let rest = big_int-lt s hs in
    let scaled = mul-le-mul_right (10 ^ length s) digit in
    rw (digits_onto_lem (0 + (c - b'0')) s, pow_step 10 (length s))
      (small (c - b'0') _ _ scaled rest)
  where
    small : (d p v : ℕ) → d * p ≤ 9 * p → v < p → (0 + d) * p + v < 10 * p
    small d p v h k = grind arith

pub length-take-drop :
    (n : ℕ) (s : Text)
    → n ≤ length s
    → (take n s ++ drop n s ≡ s) × (length (drop n s) ≡ length s - n)
length-take-drop zero s h = (refl, omega arith)
length-take-drop (suc n) [] h = absurd (omega arith)
length-take-drop (suc n) (c ∷ s) h =
    let (a, b) = length-take-drop n s (omega arith) in (ap (λ t. c ∷ t) a, omega arith)

pub AllDigits-drop : (n : ℕ) (s : Text) → AllDigits s → AllDigits (drop n s)
AllDigits-drop zero s h = h
AllDigits-drop (suc n) [] h = h
AllDigits-drop (suc n) (c ∷ s) h = AllDigits-drop n s h.1

pub take-length : (s : Text) → take (length s) s ≡ s
take-length [] = refl
take-length (c ∷ s) = ap (λ t. c ∷ t) (take-length s)

pub digit_run-all : (s : Text) → AllDigits (digit_run s).0
unfolding digit_run
digit_run-all [] = tt
digit_run-all (c ∷ s) = elim (Bool-cases (is_digit c)) [
  | inl e ↦ rw e (e, digit_run-all s)
  | inr e ↦ rw e tt
]

some-injective : {A : Type 0} {a b : A} → ◌≡◌ {A = Option A} (some a) (some b) → a ≡ b
some-injective h = cc

fraction_digits-AllDigits :
    (point : Bool) (run : Text × Text) {f : Text}
    → AllDigits run.0
    → fraction_digits point run ≡ some f
    → AllDigits f
fraction_digits-AllDigits true (d ∷ ds, []) h e = subst AllDigits (some-injective e) h
fraction_digits-AllDigits true ([], rest) h e = cc
fraction_digits-AllDigits true (d ∷ ds, c ∷ rest) h e = cc
fraction_digits-AllDigits false run h e = cc

fraction_group-AllDigits : (s : Text) {f : Text} → fraction_group s ≡ some f → AllDigits f
fraction_group-AllDigits [] e = subst AllDigits (some-injective e) tt
fraction_group-AllDigits (c ∷ s) e =
    fraction_digits-AllDigits (c == b'.') (digit_run s) (digit_run-all s) e

abbrev pub IsNumeral : Numeral → Type 0
IsNumeral m = AllDigits m.whole × AllDigits m.fraction

numeral_of-IsNumeral :
    (w : Text) (o : Option Text) {m : Numeral}
    → AllDigits w
    → ((f : Text) → o ≡ some f → AllDigits f)
    → numeral_of w o ≡ some m
    → IsNumeral m
numeral_of-IsNumeral [] o hw hf e = cc
numeral_of-IsNumeral (d ∷ ds) none hw hf e = cc
numeral_of-IsNumeral (d ∷ ds) (some f) hw hf e = subst IsNumeral (some-injective e) (hw, hf f refl)

numeral_or-eq-ok :
    (fault : PaymentFault) (o : Option Numeral) {m : Numeral}
    → numeral_or fault o ≡ ok m
    → o ≡ some m
numeral_or-eq-ok fault none e = cc
numeral_or-eq-ok fault (some n) e = cc

-- Both parts of a numeral that was read consist of digits.
pub read_numeral-IsNumeral :
    (value : Text) (label : Label) {m : Numeral} → read_numeral value label ≡ ok m → IsNumeral m
unfolding read_numeral match_numeral
read_numeral-IsNumeral value label h =
    let run = digit_run (trim value) in
    numeral_of-IsNumeral run.0 (fraction_group run.1) (digit_run-all (trim value))
      (λ f e. fraction_group-AllDigits run.1 e)
      (numeral_or-eq-ok (not_a_decimal label value) (numeral_of run.0 (fraction_group run.1)) h)
