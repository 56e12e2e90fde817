-- ===== src/Payment/Quote.antt =====
-- The token amount that `usdToTokenAmount` of `src/domain/payment.ts` quotes, read in units of its
-- eighth place, and the reverse, `tokenAmountWorthUsd`.
use freeagents.Base.{
  ℕ, suc, ◌+◌, ◌-◌, ◌*◌, ◌/◌, ◌%◌, ◌^◌, ◌<◌, [], ◌∷◌, ◌++◌, length, replicate, take, ◌≡◌, refl, ap,
  ap₂, ◌∙◌, sym, arith, ok, Bool-cases, ◌==◌, inl, ==_iff, inr, ◌≤◌, false,
}
use native.Mathlib.Nat.{mod-lt, div-add-mod', lt-mul-div-succ, div-mul-le_self, mul_comm}
use mathlib.Core.Path.{subst}
use freeagents.Base.Text.{Text}
use freeagents.Base.Number.{whole}
use freeagents.Base.Decimal.{show}
use freeagents.Payment.Digits.{AllDigits, big_int-show, big_int-zeros}
use freeagents.Payment.Numeral.{
  Label, amount_token, pad_end, pad_start, big_int, Numeral, read_numeral, amount_usd,
  usd_per_token,
}
use freeagents.Payment.Token.{
  keep_before, trim_zeros, with_fraction, show_scaled, to_base_units, units_of, usd_to_token_amount,
  parse_decimal_scaled, scaled_quotient,
}
use freeagents.Payment.Printing.{show-front, AllDigits-show, AllDigits-zeros, length-pad_start}
use freeagents.Payment.Scale.{pow_pos}
use freeagents.Payment.Units.{take_all}
use freeagents.Payment.Reading.{read_numeral-whole, read_numeral-point}
use freeagents.Payment.Amount.{parse_decimal_to_hundredths}

-- What trimming zeros leaves are digits, and padding puts the zeros back.
trim_zeros-AllDigits : (s : Text) → AllDigits s → AllDigits (trim_zeros s)
unfolding trim_zeros
trim_zeros-AllDigits [] h = tt
trim_zeros-AllDigits (c ∷ s) (hc, hs) = keep (trim_zeros s) (trim_zeros-AllDigits s hs)
  where
    keep : (t : Text) → AllDigits t → AllDigits (keep_before c t)
    keep [] h = ground arith
    keep (d ∷ t) h = (hc, h)

pad_end-trim_zeros : (s : Text) → pad_end (trim_zeros s) (length s) ≡ s
unfolding trim_zeros
pad_end-trim_zeros [] = refl
pad_end-trim_zeros (c ∷ s) = keep (trim_zeros s) (pad_end-trim_zeros s)
  where
    zeros_front : (n : ℕ) → replicate (n - 0) b'0' ≡ s → replicate n b'0' ≡ s
    zeros_front n h = ap (λ k. replicate k b'0') (omega arith) ∙ h

    keep :
        (t : Text) → pad_end t (length s) ≡ s → pad_end (keep_before c t) (length (c ∷ s)) ≡ c ∷ s
    keep [] h = elim (Bool-cases (c == b'0')) [
      | inl e ↦
          let whole_length : suc (length s) - 0 ≡ suc (length s) = omega arith in
          let zero_char : c ≡ b'0' = (==_iff c b'0').0 e in
          rw e (
            ap (λ k. replicate k b'0') whole_length
            ∙ ap₂ (λ a b. a ∷ b) (sym zero_char) (zeros_front (length s) h))
      | inr e ↦ rw e (
          ap (λ k. c ∷ replicate k b'0') (omega arith) ∙ ap (λ u. c ∷ u) (zeros_front (length s) h))
    ]
    keep (d ∷ t) h = ap (λ k. c ∷ d ∷ (t ++ replicate k b'0')) (omega arith) ∙ ap (λ u. c ∷ u) h

-- The units at `p` places of a front with the trimmed digits of a fraction of `p` digits behind it.
units_of-trimmed :
    (p : ℕ) (d : ℕ) (ds f : Text) (label : Label)
    → AllDigits (d ∷ ds)
    → AllDigits f
    → length f ≡ p
    → (m : Numeral) × (read_numeral (with_fraction (d ∷ ds) (trim_zeros f)) label ≡ ok m)
      × (units_of p m ≡ big_int (d ∷ ds) * 10 ^ p + big_int f)
units_of-trimmed p d ds f label hw hf len =
    read (trim_zeros f) (trim_zeros-AllDigits f hf)
      (subst (λ k. pad_end (trim_zeros f) k ≡ f) len (pad_end-trim_zeros f))
  where
    value : (t : Text) → pad_end t p ≡ f → big_int (take p (pad_end t p)) ≡ big_int f
    value t e = ap big_int (take_all p (pad_end t p) (ap length e ∙ len) ∙ e)

    read :
        (t : Text)
        → AllDigits t
        → pad_end t p ≡ f
        → (m : Numeral) × (read_numeral (with_fraction (d ∷ ds) t) label ≡ ok m)
          × (units_of p m ≡ big_int (d ∷ ds) * 10 ^ p + big_int f)
    read [] h e = (
      record { whole = d ∷ ds; fraction = [] },
      read_numeral-whole d ds label hw,
      ap (λ n. big_int (d ∷ ds) * 10 ^ p + n) (value [] e),
    )
    read (c ∷ t) h e = (
      record { whole = d ∷ ds; fraction = c ∷ t },
      read_numeral-point d ds c t label hw h,
      ap (λ n. big_int (d ∷ ds) * 10 ^ p + n) (value (c ∷ t) e),
    )

-- A printed count of units of the last place is read back.
pub to_base_units-show_scaled :
    (p n : ℕ) → to_base_units (show_scaled (suc p) n) (whole (suc p)) ≡ ok (show n)
unfolding to_base_units show_scaled
to_base_units-show_scaled p n =
    let q = 10 ^ suc p in
    let rest : n % q < q = mod-lt n (pow_pos (suc p)) in
    let f = pad_start (show (n % q)) (suc p) in
    let zeros = suc p - length (show (n % q)) in
    let (d, ds, front) = show-front (n / q) in
    let (m, r, u) =
      units_of-trimmed (suc p) d ds f amount_token (rw front at (AllDigits-show (n / q)))
        (AllDigits-zeros zeros (show (n % q)) (AllDigits-show (n % q)))
        (length-pad_start (n % q) p rest) in
    let dollars = (rw front at (big_int-show (n / q))) in
    let cents = big_int-zeros zeros (show (n % q)) ∙ big_int-show (n % q) in
    rw (front, r)
      (ap (λ k. ok (show k)) (u ∙ ap₂ (λ x y. x * q + y) dollars cents ∙ div-add-mod' n q))

-- The quote in tokens is floored at the eighth place: of a price and a rate above zero, as they
-- are read, there is a quote, and it is the largest count of units of that place that is worth no
-- more than the price at that rate.
pub usd_to_token_amount_lem :
    (amount rate : Text) (a r : ℕ)
    → parse_decimal_to_hundredths amount amount_usd ≡ ok a
    → parse_decimal_scaled rate 8 usd_per_token ≡ ok r
    → 0 < r
    → (quote : Text) × (u : ℕ) × (usd_to_token_amount amount rate ≡ ok quote)
      × (to_base_units quote (whole 8) ≡ ok (show u))
      × (u * (100 * r) ≤ a * 10 ^ 8 * 10 ^ 8)
      × (a * 10 ^ 8 * 10 ^ 8 < (u + 1) * (100 * r))
unfolding usd_to_token_amount
usd_to_token_amount_lem amount rate a r ha hr pos =
    let u = scaled_quotient a r in
    let positive : 0 < 100 * r = omega arith in
    let above = lt-mul-div-succ (a * 10 ^ 8 * 10 ^ 8) positive in
    let nonzero : (r == 0) ≡ false = ground arith in
    (
      show_scaled 8 u,
      u,
      rw (ha, hr, nonzero) refl,
      to_base_units-show_scaled 7 u,
      div-mul-le_self (a * 10 ^ 8 * 10 ^ 8) (100 * r),
      rw (mul_comm (u + 1) (100 * r)) above,
    )
