-- ===== src/Conduct/History.antt =====
-- The rows that `src/domain/buyer-conduct.ts` reads are jobs of `src/domain/job.ts`:
-- `DOWNSTREAM_OF_CONFIRMED` against the stored time of the confirmation.
use freeagents.Base.{true, List, is_some, ok, ◌≡◌, refl, Option-cases, inl, inr, Bool-cases}
use freeagents.Base.Text.{Text}
use freeagents.Job.Status.{
  JobStatus, status_text, draft, proposed, confirmed, staged, redo_requested, submitted, completed,
  declined, closed_unmerged, stale, withdrawn, staged_declined, closed_unpaid, expired_unstaged,
  deemed_completed, cited_closed, paid_undelivered,
}
use freeagents.Job.Model.{Instant, Job}
use freeagents.Job.Agreement.{JobInput, create_job}
use freeagents.Job.Event.{Event, run}
use freeagents.Job.Invariant.Agreed.{IsAgreed, is_past_confirm}
use freeagents.Job.Runs.{run-IsSound}
use freeagents.Conduct.Buyer.{BuyerJobFacts, was_confirmed, has, downstream_of_confirmed}

-- a stored job as a row
abbrev pub facts_of : Job → BuyerJobFacts
facts_of job = record {
  status = status_text job.status;
  confirmed_at = job.confirmed_at;
  redo_requested_at = job.redo_requested_at;
}

-- Every status of the set lies behind `confirmed`.
has-is_past_confirm :
    (s : JobStatus) → has downstream_of_confirmed (status_text s) ≡ true → is_past_confirm s ≡ true
has-is_past_confirm draft h = cc
has-is_past_confirm proposed h = cc
has-is_past_confirm declined h = cc
has-is_past_confirm withdrawn h = cc
has-is_past_confirm confirmed h = refl
has-is_past_confirm staged h = refl
has-is_past_confirm redo_requested h = refl
has-is_past_confirm submitted h = refl
has-is_past_confirm completed h = refl
has-is_past_confirm closed_unmerged h = refl
has-is_past_confirm stale h = refl
has-is_past_confirm staged_declined h = refl
has-is_past_confirm closed_unpaid h = refl
has-is_past_confirm expired_unstaged h = refl
has-is_past_confirm deemed_completed h = refl
has-is_past_confirm cited_closed h = refl
has-is_past_confirm paid_undelivered h = refl

was_confirmed-IsAgreed :
    (sha : Text → Text) (job : Job)
    → IsAgreed sha job
    → was_confirmed (facts_of job) ≡ is_some job.confirmed_at
unfolding was_confirmed
was_confirmed-IsAgreed sha job h = elim (Option-cases job.confirmed_at) [
  | inl e ↦ elim (Bool-cases (has downstream_of_confirmed (status_text job.status))) [
    | inl k ↦ rw (h.dated (has-is_past_confirm job.status k)) refl
    | inr k ↦ rw (e, k) refl
  ]
  | inr (a, e) ↦ rw e refl
]

-- After any calls on a job that `createJob` made, the row counts as confirmed exactly if the time
-- of the confirmation is stored: the status alone never makes a job count as confirmed.
pub was_confirmed-run :
    (sha : Text → Text) (input : JobInput) (now : Instant) (es : List Event) {job : Job}
    → create_job sha input now ≡ ok job
    → was_confirmed (facts_of (run sha es job)) ≡ is_some (run sha es job).confirmed_at
was_confirmed-run sha input now es {job = job} h =
    was_confirmed-IsAgreed sha (run sha es job) (run-IsSound sha input now es h).agreement
