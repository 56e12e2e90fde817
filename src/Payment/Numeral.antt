-- ===== src/Payment/Numeral.antt =====
-- How `src/domain/payment.ts` reads a decimal: the match of `/^(\d+)(?:\.(\d+))?$/`, `BigInt` of
-- its digits and padding with zeros.
use freeagents.Base.{
  ℕ, ◌+◌, ◌-◌, ◌*◌, Bool, true, [], ◌∷◌, ◌++◌, Option, none, some, Result, ok, err, ◌==◌,
  if◌then◌else◌, length, replicate, ◌≡◌, refl,
}
use freeagents.Base.Text.{Text, codes, is_digit, trim}
use freeagents.Base.Number.{Number}

-- the `label` of a message
pub data Label : Type 0 where
  amount_usd usd_per_token price_usd deposit_label amount_token agreed_usd : Label

-- `PaymentDomainError`, with what its message says
pub data PaymentFault : Type 0 where
  not_a_decimal : Label → Text → PaymentFault
  bad_rate_percent bad_decimals : Number → PaymentFault
  zero_rate : PaymentFault

-- `match[1]` and `match[2] ?? ''`
pub record Numeral : Type 0 where
  pub whole : Text
  pub fraction : Text

-- the longest run of digits, and what follows it
unfoldable pub digit_run : Text → Text × Text
digit_run [] = ([], [])
digit_run (c ∷ s) =
    let rest = digit_run s in if is_digit c then (c ∷ rest.0, rest.1) else ([], c ∷ s)

-- `\.(\d+)$`, from whether there is a point and the run behind it
abbrev pub fraction_digits : Bool → Text × Text → Option Text
fraction_digits true (d ∷ ds, []) = some (d ∷ ds)
fraction_digits _ _ = none

-- `(?:\.(\d+))?$`
abbrev pub fraction_group : Text → Option Text
fraction_group [] = some []
fraction_group (c ∷ s) = fraction_digits (c == b'.') (digit_run s)

abbrev pub numeral_of : Text → Option Text → Option Numeral
numeral_of (d ∷ ds) (some fraction) = some (record { whole = d ∷ ds; fraction = fraction })
numeral_of _ _ = none

-- `/^(\d+)(?:\.(\d+))?$/.exec(value)`
unfoldable pub match_numeral : Text → Option Numeral
unfolding digit_run
match_numeral s = let run = digit_run s in numeral_of run.0 (fraction_group run.1)

abbrev pub numeral_or : PaymentFault → Option Numeral → Result PaymentFault Numeral
numeral_or fault none = err fault
numeral_or fault (some n) = ok n

-- `exec(value.trim())`, and the error when it answers null
unfoldable pub read_numeral : Text → Label → Result PaymentFault Numeral
unfolding match_numeral trim
read_numeral value label = numeral_or (not_a_decimal label value) (match_numeral (trim value))

-- `BigInt` of digits, which is zero for none
unfoldable pub digits_onto : ℕ → Text → ℕ
digits_onto n [] = n
digits_onto n (c ∷ s) = digits_onto (n * 10 + (c - b'0')) s

unfoldable pub big_int : Text → ℕ
unfolding digits_onto
big_int s = digits_onto 0 s

-- `s.padEnd(n, '0')` and `s.padStart(n, '0')`
abbrev pub pad_end : Text → ℕ → Text
pad_end s n = s ++ replicate (n - length s) b'0'

abbrev pub pad_start : Text → ℕ → Text
pad_start s n = replicate (n - length s) b'0' ++ s

read_test :
    read_numeral (codes " 12.50") amount_usd
    ≡ ok (record { whole = codes "12"; fraction = codes "50" })
unfolding read_numeral match_numeral digit_run trim
read_test = refl

read_point : read_numeral (codes "12.") amount_usd ≡ err (not_a_decimal amount_usd (codes "12."))
unfolding read_numeral match_numeral digit_run trim
read_point = refl

big_int_test : big_int (codes "0120") ≡ 120
unfolding big_int digits_onto
big_int_test = refl
