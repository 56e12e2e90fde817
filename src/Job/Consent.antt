-- ===== src/Job/Consent.antt =====
-- Whose acceptances a job shows: no operation of `src/domain/job.ts` accepts for a party but that
-- party's own call.
pub mod Marks
use mathlib.Core.Path.{subst}
use freeagents.Job.Status.{JobStatus, proposed}
use freeagents.Base.{
  ◌≢◌, ◌∙◌, ◌==◌, is_some, ok, Result-cases, Option-cases, >>=-eq-ok, throw_if, ok-injective, count,
  ℕ, ◌+◌, ◌<◌, ◌≤◌, ◌≡◌, ◌⊎◌, inl, inr, refl, sym, Bool, true, false, not, ◌&&◌, Option, none, some,
  List, [], ◌∷◌, arith, zero, suc, ◌>>=◌,
}
use freeagents.Base.Text.{Text, trim}
use freeagents.Job.Model.{
  Rail, Instant, Party, buyer, agent, Criterion, Job, JobFault, days, bad_price, job_error,
}
use freeagents.Job.Agreement.{
  opened, JobInput, create_job, agreement_gap, default_delivery_window_days,
}
use freeagents.Job.Lines.{ProposedLine, find_match, revise, revise_lines}
use freeagents.Job.Price.{
  resolve_rail, PriceProposal, PriceFields, price_fields, revise_price, is_decimal_usd, same_text?,
  same_number?, rail_code, or_default,
}
use freeagents.Job.Exchange.{accept_line, accept_at, with_terms, accept_price_line}
use freeagents.Job.Event.{Event, perform, run, keep_on_error}
use freeagents.Job.Step.{
  Acceptance, line_by, price_by, StepBy, idle, proposes, accepts, accepts_price, confirms, attaches,
  follows, stages, asks_redo, refuses_redo, submits, cites, completes, deems, moves,
}
use freeagents.Job.Perform.{IsAcceptance, perform-StepBy}
use freeagents.Job.Revision.{accepted_by, one_if, find_match-count, revise_lines-cons}
use freeagents.Job.Confirm.{All, IsAcceptedLine, count-All}
use freeagents.Job.Lifecycle.{attach_staging_repository}
use freeagents.Job.Runs.{IsSound, run-IsSound, create_job-eq-ok}
use freeagents.Job.Consent.Marks.{
  price_accepted_by, lines_accepted_by, revise_lines-marks, accept_at-marks, fields_mark,
  revise_price-mark, fields_mark-price_fields, with_terms-mark, other_price_mark,
}

-- one of the calls on the job is the acceptance, and is not refused
abbrev pub HasAccepted : (Text → Text) → Acceptance → Job → List Event → Type 0
HasAccepted sha a job [] = ⊥
HasAccepted sha a job (e ∷ es) =
    (IsAcceptance e a × (b : Job) × (perform sha e job ≡ ok b))
    ⊎ HasAccepted sha a (keep_on_error job (perform sha e job)) es

-- what a mark that is there rests on: on the mark before the step, or on the acceptance
abbrev IsMarked : Acceptance → Job → Type 0
IsMarked (line_by party) job = 0 < lines_accepted_by party job
IsMarked (price_by party) job = price_accepted_by party job ≡ true

-- a step that leaves the marks alone
same_price :
    (party : Party) (a b : Job)
    → b.price_accepted_by_buyer ≡ a.price_accepted_by_buyer
    → b.price_accepted_by_agent ≡ a.price_accepted_by_agent
    → price_accepted_by party b ≡ true
    → price_accepted_by party a ≡ true
same_price buyer a b e f h = cc
same_price agent a b e f h = cc

module _ {may : Acceptance → Type 0} (sha : Text → Text) (other : Party) where
  StepBy-line :
      {job b : Job}
      → StepBy may sha job b
      → 0 < lines_accepted_by other b
      → may (line_by other) ⊎ (0 < lines_accepted_by other job)
  unfolding attach_staging_repository
  StepBy-line idle h = inr h
  StepBy-line {job} (proposes input price lines fields o el ef) h =
      let bound = revise_lines-marks other job.criteria input el in inr (omega arith)
  StepBy-line {job} (accepts i party m e lt) h = elim (accept_at-marks party other i job.criteria) [
    | inl same ↦ inl (subst (λ p. may (line_by p)) same m)
    | inr same ↦ inr (rw same at h)
  ]
  StepBy-line (accepts_price buyer m e priced) h = inr h
  StepBy-line (accepts_price agent m e priced) h = inr h
  StepBy-line (confirms now e gap railed) h = inr h
  StepBy-line (attaches staging base) h = inr h
  StepBy-line (follows name e) h = inr h
  StepBy-line (stages commit now edge) h = inr h
  StepBy-line (asks_redo i now edge lt left) h = inr h
  StepBy-line (refuses_redo now e) h = inr h
  StepBy-line (submits url now edge) h = inr h
  StepBy-line (cites i reason now edge lt e) h = inr h
  StepBy-line (completes commit time edge) h = inr h
  StepBy-line (deems now w) h = inr h
  StepBy-line (moves to edge only) h = inr h

  StepBy-price :
      {job b : Job}
      → StepBy may sha job b
      → price_accepted_by other b ≡ true
      → may (price_by other) ⊎ (price_accepted_by other job ≡ true)
  unfolding attach_staging_repository
  StepBy-price idle h = inr h
  StepBy-price {job} (proposes input price lines fields o el ef) h =
      let shown : fields_mark other fields ≡ true =
        sym (with_terms-mark other job proposed lines fields) ∙ h in
      inr (
        sym (fields_mark-price_fields other job)
        ∙ revise_price-mark other (price_fields job) price ef shown)
  StepBy-price {job} (accepts i party m e lt) h = inr (same_price other job _ refl refl h)
  StepBy-price {job} (accepts_price party m e priced) h = elim (other_price_mark party other job) [
    | inl same ↦ inl (subst (λ p. may (price_by p)) same m)
    | inr same ↦ inr (sym same ∙ h)
  ]
  StepBy-price {job} (confirms now e gap railed) h = inr (same_price other job _ refl refl h)
  StepBy-price {job} (attaches staging base) h = inr (same_price other job _ refl refl h)
  StepBy-price {job} (follows name e) h = inr (same_price other job _ refl refl h)
  StepBy-price {job} (stages commit now edge) h = inr (same_price other job _ refl refl h)
  StepBy-price {job} (asks_redo i now edge lt left) h = inr (same_price other job _ refl refl h)
  StepBy-price {job} (refuses_redo now e) h = inr (same_price other job _ refl refl h)
  StepBy-price {job} (submits url now edge) h = inr (same_price other job _ refl refl h)
  StepBy-price {job} (cites i reason now edge lt e) h = inr (same_price other job _ refl refl h)
  StepBy-price {job} (completes commit time edge) h = inr (same_price other job _ refl refl h)
  StepBy-price {job} (deems now w) h = inr (same_price other job _ refl refl h)
  StepBy-price {job} (moves to edge only) h = inr (same_price other job _ refl refl h)

StepBy-IsMarked :
    {may : Acceptance → Type 0} (sha : Text → Text) (a : Acceptance) {job b : Job}
    → StepBy may sha job b
    → IsMarked a b
    → may a ⊎ IsMarked a job
StepBy-IsMarked sha (line_by party) s h = StepBy-line sha party s h
StepBy-IsMarked sha (price_by party) s h = StepBy-price sha party s h

-- one call, refused or not
call-IsMarked :
    (sha : Text → Text) (a : Acceptance) (e : Event) (job : Job)
    → IsMarked a (keep_on_error job (perform sha e job))
    → (IsAcceptance e a × (b : Job) × (perform sha e job ≡ ok b)) ⊎ IsMarked a job
call-IsMarked sha a e job h = elim (Result-cases (perform sha e job)) [
  | inl (b, p) ↦ elim (StepBy-IsMarked sha a (perform-StepBy sha e job p) (rw p at h)) [
    | inl called ↦ inl (called, b, p)
    | inr before ↦ inr before
  ]
  | inr (fault, p) ↦ inr (rw p at h)
]

run-IsMarked :
    (sha : Text → Text) (a : Acceptance) (es : List Event) (job : Job)
    → IsMarked a (run sha es job)
    → HasAccepted sha a job es ⊎ IsMarked a job
unfolding run
run-IsMarked sha a [] job h = inr h
run-IsMarked sha a (e ∷ es) job h =
    elim (run-IsMarked sha a es (keep_on_error job (perform sha e job)) h) [
      | inl later ↦ inl (inr later)
      | inr now ↦ elim (call-IsMarked sha a e job now) [
        | inl called ↦ inl (inl called)
        | inr before ↦ inr before
      ]
    ]

opened-IsMarked :
    (a : Acceptance) (digest : Text) (input : JobInput) (now : Instant)
    → ¬ IsMarked a (opened digest input now)
opened-IsMarked (line_by party) digest input now h = omega arith
opened-IsMarked (price_by buyer) digest input now h = cc
opened-IsMarked (price_by agent) digest input now h = cc

-- What a job shows of an acceptance: a line or the price that bears the party's mark, or that the
-- job was confirmed, which takes every acceptance.
pub data Shows (job : Job) : Acceptance → Type 0 where
  marked_line : {party : Party} → 0 < lines_accepted_by party job → Shows job (line_by party)
  marked_price : {party : Party} → price_accepted_by party job ≡ true → Shows job (price_by party)
  was_confirmed : {a : Acceptance} → is_some job.confirmed_at ≡ true → Shows job a

All-marks :
    (party : Party) (cs : List Criterion)
    → cs ≢ []
    → All IsAcceptedLine cs
    → 0 < count (accepted_by party) cs
All-marks party [] n h = absurd (n refl)
All-marks buyer (c ∷ cs) n h = rw h.0.0 (omega arith)
All-marks agent (c ∷ cs) n h = rw h.0.1 (omega arith)

agreed_facts :
    (job : Job)
    → agreement_gap job ≡ none
    → (job.criteria ≢ [])
      × All IsAcceptedLine job.criteria
      × (job.price_accepted_by_buyer ≡ true)
      × (job.price_accepted_by_agent ≡ true)
unfolding agreement_gap
agreed_facts job gap = ground (arith, count-All job.criteria)

agreed-IsMarked : (a : Acceptance) (job : Job) → agreement_gap job ≡ none → IsMarked a job
agreed-IsMarked (line_by party) job gap =
    let (filled, lines, b, g) = agreed_facts job gap in All-marks party job.criteria filled lines
agreed-IsMarked (price_by buyer) job gap = (agreed_facts job gap).2
agreed-IsMarked (price_by agent) job gap = (agreed_facts job gap).3

Shows-IsMarked :
    (sha : Text → Text) (job : Job) (a : Acceptance)
    → IsSound sha job
    → Shows job a
    → IsMarked a job
Shows-IsMarked sha job a sound (marked_line h) = h
Shows-IsMarked sha job a sound (marked_price h) = h
Shows-IsMarked sha job a sound (was_confirmed h) = agreed-IsMarked a job (sound.agreement.agreed h)

-- After any calls, refused ones included, on a job that createJob made: if a line or the price
-- bears a party's mark, or the job was confirmed, then that party itself called the acceptance of
-- a line or of the price, and one such call was not refused. For a confirmed job these are all
-- four: either party's, of a line and of the price.
pub run-HasAccepted :
    (sha : Text → Text) (input : JobInput) (now : Instant) (es : List Event) {job : Job}
    (a : Acceptance)
    → create_job sha input now ≡ ok job
    → Shows (run sha es job) a
    → HasAccepted sha a job es
run-HasAccepted sha input now es {job} a h shown =
    let made = (create_job-eq-ok sha input now h).0 in
    let marked = Shows-IsMarked sha (run sha es job) a (run-IsSound sha input now es h) shown in
    elim (run-IsMarked sha a es job marked) [
      | inl called ↦ called
      | inr before ↦ absurd (opened-IsMarked a _ input now (subst (IsMarked a) made before))
    ]
