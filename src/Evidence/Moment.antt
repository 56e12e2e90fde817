-- ===== src/Evidence/Moment.antt =====
-- A stored time as the read-time rules find it, and `parseInstant` of `src/domain/liveness.ts`, of
-- which `src/domain/compromise.ts` has a copy.
use freeagents.Base.{ℕ, Option, none, some}
use freeagents.Base.Text.{Text}

-- A `Date` with its milliseconds, a `Date` that is invalid, a text, or any other value.
pub data Moment : Type 0 where
  date : ℕ → Moment
  invalid_date : Moment
  text : Text → Moment
  other : Moment

-- `date_parse` is `Date.parse`, which answers NaN (none) for a text that is no date.
abbrev pub parse_instant : (Text → Option ℕ) → Moment → Option ℕ
parse_instant date_parse (date ms) = some ms
parse_instant date_parse invalid_date = none
parse_instant date_parse (text s) = date_parse s
parse_instant date_parse other = none
