-- ===== src/Payment/Reading.antt =====
-- What `src/domain/payment.ts` reads in a text that consists of digits and a point.
use freeagents.Base.{ℕ, [], ◌∷◌, ◌++◌, ◌≡◌, refl, arith, true, false, ok}
use freeagents.Base.Text.{Text, is_digit, is_space, trim, trim_start, trim_end}
use freeagents.Payment.Digits.{AllDigits}
use freeagents.Payment.Numeral.{Label, digit_run, match_numeral, read_numeral}

abbrev pub AllSolid : Text → Type 0
AllSolid [] = Unit
AllSolid (c ∷ s) = (is_space c ≡ false) × AllSolid s

trim_end-AllSolid : (s : Text) → AllSolid s → trim_end s ≡ s
unfolding trim_end
trim_end-AllSolid [] h = refl
trim_end-AllSolid (c ∷ s) (hc, hs) = rw (hc, trim_end-AllSolid s hs) refl

pub trim-AllSolid : (s : Text) → AllSolid s → trim s ≡ s
unfolding trim trim_start trim_end
trim-AllSolid [] h = refl
trim-AllSolid (c ∷ s) (hc, hs) = rw (hc, trim_end-AllSolid s hs, hc) refl

pub is_space-digit : (c : ℕ) → is_digit c ≡ true → is_space c ≡ false
unfolding is_space
is_space-digit c h = ground arith

pub AllDigits-AllSolid : (s : Text) → AllDigits s → AllSolid s
AllDigits-AllSolid [] h = tt
AllDigits-AllSolid (c ∷ s) (hc, hs) = (is_space-digit c hc, AllDigits-AllSolid s hs)

pub AllSolid-append : (s t : Text) → AllSolid s → AllSolid t → AllSolid (s ++ t)
AllSolid-append [] t h k = k
AllSolid-append (c ∷ s) t (hc, hs) k = (hc, AllSolid-append s t hs k)

digit_run-AllDigits : (s : Text) → AllDigits s → digit_run s ≡ (s, [])
unfolding digit_run
digit_run-AllDigits [] h = refl
digit_run-AllDigits (c ∷ s) (hc, hs) = rw (digit_run-AllDigits s hs, hc) refl

digit_run-point : (s t : Text) → AllDigits s → digit_run (s ++ (b'.' ∷ t)) ≡ (s, b'.' ∷ t)
unfolding digit_run
digit_run-point [] t h = refl
digit_run-point (c ∷ s) t (hc, hs) = rw (digit_run-point s t hs, hc) refl

-- A whole part, a point and a fraction.
pub read_numeral-point :
    (d : ℕ) (ds : Text) (e : ℕ) (es : Text) (label : Label)
    → AllDigits (d ∷ ds)
    → AllDigits (e ∷ es)
    → read_numeral ((d ∷ ds) ++ (b'.' ∷ e ∷ es)) label
      ≡ ok (record { whole = d ∷ ds; fraction = e ∷ es })
unfolding read_numeral match_numeral
read_numeral-point d ds e es label h k =
    rw
      (
        trim-AllSolid ((d ∷ ds) ++ (b'.' ∷ e ∷ es)) (
            AllSolid-append (d ∷ ds) (b'.' ∷ e ∷ es) (AllDigits-AllSolid (d ∷ ds) h)
              (refl, AllDigits-AllSolid (e ∷ es) k)),
        digit_run-point (d ∷ ds) (e ∷ es) h,
        digit_run-AllDigits (e ∷ es) k,
      )
      refl

-- A whole part alone.
pub read_numeral-whole :
    (d : ℕ) (ds : Text) (label : Label)
    → AllDigits (d ∷ ds)
    → read_numeral (d ∷ ds) label ≡ ok (record { whole = d ∷ ds; fraction = [] })
unfolding read_numeral match_numeral
read_numeral-whole d ds label h =
    rw (trim-AllSolid (d ∷ ds) (AllDigits-AllSolid (d ∷ ds) h), digit_run-AllDigits (d ∷ ds) h) refl
