-- ===== src/Payment/Digits.antt =====
-- What the digits of a text are worth, and the digits of a number.
use freeagents.Base.{
  ℕ, zero, suc, ◌+◌, ◌-◌, ◌*◌, ◌/◌, ◌%◌, ◌^◌, ◌≤◌, ◌<◌, [], ◌∷◌, ◌++◌, length, replicate, ◌≡◌, refl,
  ap, ◌∙◌, sym, arith, true,
}
use mathlib.Core.WellFounded.{Acc}
use mathlib.Core.Logic.{dite}
use native.Mathlib.Omega.{pow_step}
use native.Mathlib.Decide.{dec_lt}
use freeagents.Base.Text.{Text, is_digit}
use freeagents.Base.Decimal.{show_acc, show}
use freeagents.Base.Order.{lt_wf}
use freeagents.Payment.Numeral.{digits_onto, big_int}

pub digits_onto-append :
    (n : ℕ) (xs ys : Text) → digits_onto n (xs ++ ys) ≡ digits_onto (digits_onto n xs) ys
unfolding digits_onto
digits_onto-append n [] ys = refl
digits_onto-append n (x ∷ xs) ys = digits_onto-append (n * 10 + (x - b'0')) xs ys

-- Digits behind a number shift it to the left.
pub digits_onto_lem : (n : ℕ) (s : Text) → digits_onto n s ≡ n * 10 ^ length s + digits_onto 0 s
unfolding digits_onto
digits_onto_lem n [] = grind arith
digits_onto_lem n (c ∷ s) =
    let d = c - b'0' in
    digits_onto_lem (n * 10 + d) s
    ∙ shift n d (10 ^ length s) (digits_onto 0 s)
    ∙ rw (pow_step 10 (length s), sym (digits_onto_lem (0 + d) s)) refl
  where
    shift : (n d p v : ℕ) → (n * 10 + d) * p + v ≡ n * (10 * p) + ((0 + d) * p + v)
    shift n d p v = grind arith

pub big_int-append : (xs ys : Text) → big_int (xs ++ ys) ≡ big_int xs * 10 ^ length ys + big_int ys
unfolding big_int
big_int-append xs ys = digits_onto-append 0 xs ys ∙ digits_onto_lem (digits_onto 0 xs) ys

pub big_int-zeros : (k : ℕ) (s : Text) → big_int (replicate k b'0' ++ s) ≡ big_int s
unfolding big_int digits_onto
big_int-zeros zero s = refl
big_int-zeros (suc k) s = big_int-zeros k s

pub dite_lem {ℓ κ} :
    {P : Type 0} {A : Type ℓ} (Q : A → Type κ) (d : Dec P) (f : P → A) (g : ¬ P → A)
    → ((h : P) → Q (f h))
    → ((h : ¬ P) → Q (g h))
    → Q (dite d f g)
dite_lem Q (yes h) f g hf hg = hf h
dite_lem Q (no h) f g hf hg = hg h

pub digits_onto-show_acc :
    (n : ℕ) (a : Acc ◌<◌ n) (out : Text) → digits_onto 0 (show_acc n a out) ≡ digits_onto n out
unfolding show_acc digits_onto
digits_onto-show_acc n (Acc.intro _ smaller) out =
    dite_lem (λ s. digits_onto 0 s ≡ digits_onto n out) (dec_lt 9 n) _ _
      (λ h.
        digits_onto-show_acc (n / 10) (smaller (n / 10) _) ((b'0' + n % 10) ∷ out)
        ∙ ap (λ k. digits_onto k out) (omega arith))
      (λ h. ap (λ k. digits_onto k out) (omega arith))

pub big_int-show : (n : ℕ) → big_int (show n) ≡ n
unfolding big_int show digits_onto
big_int-show n = digits_onto-show_acc n (lt_wf.apply n) []

-- what the text of a number looks like
abbrev pub AllDigits : Text → Type 0
AllDigits [] = Unit
AllDigits (c ∷ s) = (is_digit c ≡ true) × AllDigits s

pub AllDigits-show_acc :
    (n : ℕ) (a : Acc ◌<◌ n) (out : Text) → AllDigits out → AllDigits (show_acc n a out)
unfolding show_acc
AllDigits-show_acc n (Acc.intro _ smaller) out h =
    dite_lem AllDigits (dec_lt 9 n) _ _
      (λ k.
        AllDigits-show_acc (n / 10) (smaller (n / 10) _) ((b'0' + n % 10) ∷ out) (ground arith, h))
      (λ k. (ground arith, h))

-- One digit at least.
pub show_acc-front :
    (n : ℕ) (a : Acc ◌<◌ n) (out : Text) → (d : ℕ) × (ds : Text) × (show_acc n a out ≡ d ∷ ds)
unfolding show_acc
show_acc-front n (Acc.intro _ smaller) out =
    dite_lem (λ t. (d : ℕ) × (ds : Text) × (t ≡ d ∷ ds)) (dec_lt 9 n) _ _
      (λ k. show_acc-front (n / 10) (smaller (n / 10) _) ((b'0' + n % 10) ∷ out))
      (λ k. (b'0' + n, out, refl))

-- A number below `10 ^ p` has at most `p` digits.
pub length-show_acc :
    (n : ℕ) (a : Acc ◌<◌ n) (out : Text) (p : ℕ)
    → n < 10 ^ suc p
    → length (show_acc n a out) ≤ suc p + length out
unfolding show_acc
length-show_acc n (Acc.intro _ smaller) out zero h =
    dite_lem (λ t. length t ≤ 1 + length out) (dec_lt 9 n) _ (λ _. (b'0' + n) ∷ out)
      (λ k. absurd (omega arith)) (λ k. omega arith)
length-show_acc n (Acc.intro _ smaller) out (suc p) h =
    let e = pow_step 10 (suc p) in
    dite_lem (λ t. length t ≤ suc (suc p) + length out) (dec_lt 9 n) _ (λ _. (b'0' + n) ∷ out)
      (λ k.
        move p (length out)
          (length-show_acc (n / 10) (smaller (n / 10) _) ((b'0' + n % 10) ∷ out) p (omega arith)))
      (λ k. omega arith)
  where
    move : {x : ℕ} (p m : ℕ) → x ≤ suc p + suc m → x ≤ suc (suc p) + m
    move p m h = omega arith
