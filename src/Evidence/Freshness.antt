-- ===== src/Evidence/Freshness.antt =====
-- When a record last changed, of `src/domain/freshness.ts`, whose `parseInstant` is the one of
-- Evidence/Moment. An instant stands for its ISO text.
use freeagents.Base.{
  ℕ, ◌≤◌, List, [], ◌∷◌, Option, none, some, ltb, if◌then◌else◌, ◌≡◌, ◌⊎◌, inl, inr, refl, sym,
  arith, Bool-cases, ap, ◌∙◌,
}
use mathlib.Core.Path.{subst}
use freeagents.Base.Text.{Text}
use freeagents.Evidence.Moment.{Moment, parse_instant}

pub record RecordFacts : Type 0 where
  pub created_at : Moment
  pub key_rotations : List Moment

-- one turn of a loop: a time that is missing or no date is skipped
abbrev pub keep_later : ℕ → Option ℕ → ℕ
keep_later latest none = latest
keep_later latest (some ms) = if ltb latest ms then ms else latest

unfoldable pub latest_from : (Text → Option ℕ) → ℕ → List Moment → ℕ
latest_from date_parse latest [] = latest
latest_from date_parse latest (m ∷ ms) =
    latest_from date_parse (keep_later latest (parse_instant date_parse m)) ms

abbrev pub keep_later? : Option ℕ → Option ℕ → Option ℕ
keep_later? latest none = latest
keep_later? none (some ms) = some ms
keep_later? (some latest) (some ms) = some (keep_later latest (some ms))

-- `lastHireCompletedAt`, of the completion times
unfoldable pub last_hire_from : (Text → Option ℕ) → Option ℕ → List Moment → Option ℕ
last_hire_from date_parse latest [] = latest
last_hire_from date_parse latest (m ∷ ms) =
    last_hire_from date_parse (keep_later? latest (parse_instant date_parse m)) ms

unfoldable pub last_hire_completed_at : (Text → Option ℕ) → List Moment → Option ℕ
unfolding last_hire_from
last_hire_completed_at date_parse hires = last_hire_from date_parse none hires

-- `?? 0`
abbrev pub or_epoch : Option ℕ → ℕ
or_epoch none = 0
or_epoch (some ms) = ms

unfoldable pub record_last_changed_at : (Text → Option ℕ) → RecordFacts → List Moment → ℕ
unfolding latest_from
record_last_changed_at date_parse agent hires =
    latest_from date_parse
      (latest_from date_parse (or_epoch (parse_instant date_parse agent.created_at)) hires)
      agent.key_rotations

-- every time of a list that is a date is at most a bound
abbrev pub AllUpTo : (Text → Option ℕ) → ℕ → List Moment → Type 0
AllUpTo date_parse bound [] = Unit
AllUpTo date_parse bound (m ∷ ms) =
    (or_epoch (parse_instant date_parse m) ≤ bound) × AllUpTo date_parse bound ms

-- a time of a list is this date
abbrev pub IsAmong : (Text → Option ℕ) → ℕ → List Moment → Type 0
IsAmong date_parse t [] = ⊥
IsAmong date_parse t (m ∷ ms) = (parse_instant date_parse m ≡ some t) ⊎ IsAmong date_parse t ms

latest_from-ge :
    (date_parse : Text → Option ℕ) (n : ℕ) (ms : List Moment) → n ≤ latest_from date_parse n ms
unfolding latest_from
latest_from-ge date_parse n [] = omega arith
latest_from-ge date_parse n (m ∷ ms) =
    let rest = latest_from-ge date_parse (keep_later n (parse_instant date_parse m)) ms in
    step n (parse_instant date_parse m) _ rest
  where
    step : (n : ℕ) (o : Option ℕ) (k : ℕ) → keep_later n o ≤ k → n ≤ k
    step n none k h = h
    step n (some x) k h = ground arith

latest_from-AllUpTo :
    (date_parse : Text → Option ℕ) (n : ℕ) (ms : List Moment)
    → AllUpTo date_parse (latest_from date_parse n ms) ms
unfolding latest_from
latest_from-AllUpTo date_parse n [] = tt
latest_from-AllUpTo date_parse n (m ∷ ms) =
    let next = keep_later n (parse_instant date_parse m) in
    (
      step n (parse_instant date_parse m) _ (latest_from-ge date_parse next ms),
      latest_from-AllUpTo date_parse next ms,
    )
  where
    step : (n : ℕ) (o : Option ℕ) (k : ℕ) → keep_later n o ≤ k → or_epoch o ≤ k
    step n none k h = omega arith
    step n (some x) k h = ground arith

kept : (n : ℕ) (o : Option ℕ) (k : ℕ) → k ≡ keep_later n o → (k ≡ n) ⊎ (o ≡ some k)
kept n none k h = inl h
kept n (some x) k h = elim (Bool-cases (ltb n x)) [
  | inl e ↦ inr (sym (ap some (rw e at h)))
  | inr e ↦ inl (rw e at h)
]

AllUpTo-widen :
    (date_parse : Text → Option ℕ) (a b : ℕ) (ms : List Moment)
    → a ≤ b
    → AllUpTo date_parse a ms
    → AllUpTo date_parse b ms
AllUpTo-widen date_parse a b [] le h = tt
AllUpTo-widen date_parse a b (m ∷ ms) le (h, hs) =
    (omega arith, AllUpTo-widen date_parse a b ms le hs)

latest_from-IsAmong :
    (date_parse : Text → Option ℕ) (n : ℕ) (ms : List Moment)
    → (latest_from date_parse n ms ≡ n) ⊎ IsAmong date_parse (latest_from date_parse n ms) ms
unfolding latest_from
latest_from-IsAmong date_parse n [] = inl refl
latest_from-IsAmong date_parse n (m ∷ ms) =
    elim (latest_from-IsAmong date_parse (keep_later n (parse_instant date_parse m)) ms) [
      | inr among ↦ inr (inr among)
      | inl same ↦ elim (kept n (parse_instant date_parse m) _ same) [
        | inl old ↦ inl old
        | inr new ↦ inr (inl new)
      ]
    ]

-- The time of the last change is at least the time of creation (the epoch, if that is no date) and
-- every completion and rotation that is a date, and it is one of these.
pub record_last_changed_at_lem :
    (date_parse : Text → Option ℕ) (agent : RecordFacts) (hires : List Moment)
    → (or_epoch (parse_instant date_parse agent.created_at)
        ≤ record_last_changed_at date_parse agent hires)
      × AllUpTo date_parse (record_last_changed_at date_parse agent hires) hires
      × AllUpTo date_parse (record_last_changed_at date_parse agent hires) agent.key_rotations
      × ((record_last_changed_at date_parse agent hires
            ≡ or_epoch (parse_instant date_parse agent.created_at))
          ⊎ (IsAmong date_parse (record_last_changed_at date_parse agent hires) hires
              ⊎ IsAmong date_parse
                  (record_last_changed_at date_parse agent hires)
                  agent.key_rotations))
unfolding record_last_changed_at
record_last_changed_at_lem date_parse agent hires =
    let created = or_epoch (parse_instant date_parse agent.created_at) in
    let first = latest_from date_parse created hires in
    let rotations = agent.key_rotations in
    let up = latest_from-ge date_parse first rotations in
    let low = latest_from-ge date_parse created hires in
    (
      omega arith,
      AllUpTo-widen date_parse first _ hires up (latest_from-AllUpTo date_parse created hires),
      latest_from-AllUpTo date_parse first rotations,
      elim (latest_from-IsAmong date_parse first rotations) [
        | inr among ↦ inr (inr among)
        | inl same ↦ elim (latest_from-IsAmong date_parse created hires) [
          | inl old ↦ inl (same ∙ old)
          | inr among ↦ inr (inl (subst (λ k. IsAmong date_parse k hires) (sym same) among))
        ]
      ],
    )
