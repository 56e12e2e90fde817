-- ===== src/Payment/Printing.antt =====
-- The dollar amounts that `src/domain/payment.ts` prints, read again.
use freeagents.Base.{
  ℕ, zero, suc, ◌+◌, ◌-◌, ◌*◌, ◌/◌, ◌%◌, ◌^◌, ◌≤◌, ◌<◌, [], ◌∷◌, ◌++◌, length, replicate, ◌≡◌, refl,
  ap, ap₂, ◌∙◌, arith, Option, none, some, ok, >>=-eq-ok, length-append,
}
use freeagents.Base.Text.{Text, trim}
use freeagents.Base.Order.{lt_wf}
use freeagents.Base.Integer.{pos}
use freeagents.Base.Decimal.{show}
use freeagents.Payment.Digits.{
  AllDigits, AllDigits-show_acc, show_acc-front, length-show_acc, big_int-show, big_int-zeros,
}
use freeagents.Payment.Numeral.{
  Label, Numeral, numeral_or, not_a_decimal, match_numeral, read_numeral, pad_start,
}
use freeagents.Payment.Reading.{read_numeral-point}
use freeagents.Payment.Amount.{parse_decimal_to_hundredths, hundredths_to_decimal_string}

pub AllDigits-show : (n : ℕ) → AllDigits (show n)
unfolding show
AllDigits-show n = AllDigits-show_acc n (lt_wf.apply n) [] tt

pub show-front : (n : ℕ) → (d : ℕ) × (ds : Text) × (show n ≡ d ∷ ds)
unfolding show
show-front n = show_acc-front n (lt_wf.apply n) []

pub length-show : (n p : ℕ) → n < 10 ^ suc p → length (show n) ≤ suc p
unfolding show
length-show n p h = omega (arith, length-show_acc n (lt_wf.apply n) [] p h)

pub length-replicate : {A : Type 0} (n : ℕ) (a : A) → length (replicate n a) ≡ n
length-replicate zero a = refl
length-replicate (suc n) a = omega (arith, length-replicate n a)

pub AllDigits-zeros : (k : ℕ) (s : Text) → AllDigits s → AllDigits (replicate k b'0' ++ s)
AllDigits-zeros zero s h = h
AllDigits-zeros (suc k) s h = (refl, AllDigits-zeros k s h)

-- A number below `10 ^ p`, padded to `p` places.
pub length-pad_start : (n p : ℕ) → n < 10 ^ suc p → length (pad_start (show n) (suc p)) ≡ suc p
length-pad_start n p h =
    let zeros = suc p - length (show n) in
    length-append (replicate zeros b'0') (show n)
    ∙ rw (length-replicate {A = ℕ} zeros b'0') (omega (arith, length-show n p h))

pub length-two : (s : Text) → length s ≡ 2 → (a : ℕ) × (b : ℕ) × (s ≡ a ∷ b ∷ [])
length-two [] h = absurd (omega arith)
length-two (a ∷ []) h = absurd (omega arith)
length-two (a ∷ b ∷ []) h = (a, b, refl)
length-two (a ∷ b ∷ c ∷ s) h = absurd (omega arith)

-- The label of a message plays no part in what is read.
pub read_numeral-label :
    (value : Text) (l l' : Label) {m : Numeral}
    → read_numeral value l ≡ ok m
    → read_numeral value l' ≡ ok m
unfolding read_numeral
read_numeral-label value l l' h = go (match_numeral (trim value)) h
  where
    go :
        (o : Option Numeral) {m : Numeral}
        → numeral_or (not_a_decimal l value) o ≡ ok m
        → numeral_or (not_a_decimal l' value) o ≡ ok m
    go none h = cc
    go (some m) h = cc

pub parse_decimal_to_hundredths-label :
    (value : Text) (l l' : Label) {n : ℕ}
    → parse_decimal_to_hundredths value l ≡ ok n
    → parse_decimal_to_hundredths value l' ≡ ok n
unfolding parse_decimal_to_hundredths
parse_decimal_to_hundredths-label value l l' h =
    let (m, r, e) = >>=-eq-ok (read_numeral value l) _ h in rw (read_numeral-label value l l' r) e

-- An amount of hundredths that was printed is read back as that amount, under any label.
pub parse-hundredths_to_decimal_string :
    (n : ℕ) (label : Label)
    → parse_decimal_to_hundredths (hundredths_to_decimal_string (pos n)) label ≡ ok n
unfolding parse_decimal_to_hundredths hundredths_to_decimal_string
parse-hundredths_to_decimal_string n label =
    let (d, ds, front) = show-front (n / 100) in
    let zeros = 2 - length (show (n % 100)) in
    let (a, b, back) =
      length-two (pad_start (show (n % 100)) 2) (length-pad_start (n % 100) 1 (omega arith)) in
    let digits = (rw front at (AllDigits-show (n / 100))) in
    let tail = (rw back at (AllDigits-zeros zeros (show (n % 100)) (AllDigits-show (n % 100)))) in
    let dollars = (rw front at (big_int-show (n / 100))) in
    let cents = (rw back at (big_int-zeros zeros (show (n % 100)) ∙ big_int-show (n % 100))) in
    rw (front, back, read_numeral-point d ds a (b ∷ []) label digits tail)
      (ap ok (ap₂ (λ x y. x * 100 + y) dollars cents ∙ omega arith))
