-- ===== src/Job/Price.antt =====
-- The price of a proposal, of `proposeCriteria` in `src/domain/job.ts`, and the cents format of
-- `isDecimalUsd`.
use freeagents.Base.{
  ◌>>◌, ◌==◌, if◌then◌else◌, Result, ok, ◌>>=◌, throw_if, ℕ, Bool, false, not, ◌&&◌, Option, none,
  some, [], ◌∷◌,
}
use freeagents.Base.Text.{Text, codes, text_eq, is_digit}
use freeagents.Job.Model.{Rail, abt, usdc, abt_eth, Job, bad_price, bad_rail, JobFault, job_error}
use freeagents.Job.Agreement.{default_delivery_window_days}
use freeagents.Job.Lines.{or_throw}

pub record PriceProposal : Type 0 where
  pub price_usd : Text
  pub rail : Option Text
  pub delivery_window_days : Option ℕ

abbrev pub parse_rail : Text → Option Rail
parse_rail s =
    if text_eq s (codes "abt")
    then some abt
    else if text_eq s (codes "usdc")
    then some usdc
    else if text_eq s (codes "abt_eth")
    then some abt_eth
    else none

-- `/^\d+\.\d{2}$/`, behind the first digit
abbrev pub is_cents_tail : Text → Bool
is_cents_tail (p ∷ a ∷ b ∷ []) = p == b'.' && is_digit a && is_digit b
is_cents_tail _ = false

unfoldable pub decimal_tail : Text → Bool
decimal_tail [] = false
decimal_tail (c ∷ s) =
    let rest = decimal_tail s in if is_digit c then rest else is_cents_tail (c ∷ s)

unfoldable pub is_decimal_usd : Text → Bool
unfolding decimal_tail
is_decimal_usd [] = false
is_decimal_usd (c ∷ s) = is_digit c && decimal_tail s

-- the price line of a job
pub record PriceFields : Type 0 where
  pub price_usd : Option Text
  pub rail : Option Rail
  pub delivery_window_days : Option ℕ
  pub price_accepted_by_buyer : Bool
  pub price_accepted_by_agent : Bool

abbrev pub price_fields : Job → PriceFields
price_fields job = record {
  price_usd = job.price_usd;
  rail = job.rail;
  delivery_window_days = job.delivery_window_days;
  price_accepted_by_buyer = job.price_accepted_by_buyer;
  price_accepted_by_agent = job.price_accepted_by_agent;
}

abbrev pub same_text? : Option Text → Text → Bool
same_text? none s = false
same_text? (some t) s = text_eq t s

abbrev pub same_number? : Option ℕ → ℕ → Bool
same_number? none n = false
same_number? (some m) n = m == n

abbrev pub rail_code : Option Rail → ℕ
rail_code none = 0
rail_code (some abt) = 1
rail_code (some usdc) = 2
rail_code (some abt_eth) = 3

abbrev pub or_default {ℓ} : {A : Type ℓ} → Option A → A → A
or_default none d = d
or_default (some a) d = a

-- The rail that a proposal names; one that names none leaves the job's.
abbrev pub resolve_rail : Option Rail → Option Text → Result JobFault (Option Rail)
resolve_rail current none = ok current
resolve_rail current (some name) =
    or_throw (parse_rail name) (job_error bad_rail) >>= λ r. ok (some r)

-- The `price` part of `proposeCriteria`: a price, rail and window as stored keep both marks, and
-- any other clears them.
unfoldable pub revise_price : PriceFields → Option PriceProposal → Result JobFault PriceFields
unfolding is_decimal_usd
revise_price old none = ok old
revise_price old (some p) = do
  throw_if (not (is_decimal_usd p.price_usd)) (job_error bad_price)
  rail ← resolve_rail old.rail p.rail
  let window = or_default p.delivery_window_days default_delivery_window_days
  let unchanged =
      same_text? old.price_usd p.price_usd
      && rail_code old.rail == rail_code rail
      && same_number? old.delivery_window_days window
  ok (record {
    price_usd = some p.price_usd;
    rail = rail;
    delivery_window_days = some window;
    price_accepted_by_buyer = unchanged && old.price_accepted_by_buyer;
    price_accepted_by_agent = unchanged && old.price_accepted_by_agent;
  })
