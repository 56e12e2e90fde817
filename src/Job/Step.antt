-- ===== src/Job/Step.antt =====
-- What one call may do to a job, as a relation: a constructor for each way to succeed, with what
-- then holds of the job before, and the job after. `perform-Step` shows that the operations do
-- nothing else, and accept for no other party than the call names.

use freeagents.Base.{
  is_some, ok, length, ℕ, ◌+◌, ◌<◌, ◌≡◌, ◌⊎◌, Bool, true, false, Option, none, some, List,
}
use freeagents.Base.Text.{Text, trim}
use freeagents.Job.Status.{
  JobStatus, draft, proposed, confirmed, staged, redo_requested, submitted, completed, declined,
  closed_unmerged, stale, withdrawn, staged_declined, closed_unpaid, expired_unstaged,
  deemed_completed, cited_closed, paid_undelivered,
}
use freeagents.Job.Model.{Instant, days, Party, Criterion, Repo, Job}
use freeagents.Job.Hashing.{hash_spec}
use freeagents.Job.Agreement.{is_blank, agreement_gap, spec_text}
use freeagents.Job.Lines.{ProposedLine, revise_lines}
use freeagents.Job.Price.{PriceProposal, PriceFields, price_fields, revise_price}
use freeagents.Job.Exchange.{with_terms, accept_at, accept_price_line}
use freeagents.Job.Lifecycle.{
  stale_after_days, redo_lapse_extension_days, attach_staging_repository,
}
use freeagents.Job.Clocks.{deem_window_has_passed}
use freeagents.Job.Edges.{◌⟶◌}

-- The statuses that come with no other fact.
abbrev pub is_status_only : JobStatus → Bool
is_status_only declined = true
is_status_only withdrawn = true
is_status_only stale = true
is_status_only closed_unmerged = true
is_status_only staged_declined = true
is_status_only expired_unstaged = true
is_status_only closed_unpaid = true
is_status_only paid_undelivered = true
is_status_only s = false

-- an acceptance: of a line, or of the price, by a party
pub data Acceptance : Type 0 where
  line_by price_by : Party → Acceptance

-- `may` is what is known of the acceptances that the call makes.
pub data StepBy (may : Acceptance → Type 0) (sha : Text → Text) (job : Job) : Job → Type 0 where
  idle : StepBy may sha job job
  proposes :
      (input : List ProposedLine) (price : Option PriceProposal) (lines : List Criterion)
      (fields : PriceFields)
      → (job.status ≡ draft) ⊎ (job.status ≡ proposed)
      → revise_lines job.criteria input ≡ ok lines
      → revise_price (price_fields job) price ≡ ok fields
      → StepBy may sha job (with_terms job proposed lines fields)
  accepts :
      (i : ℕ) (party : Party)
      → may (line_by party)
      → job.status ≡ proposed
      → i < length job.criteria
      → StepBy may sha job (record job { criteria = accept_at i party job.criteria })
  accepts_price :
      (party : Party)
      → may (price_by party)
      → job.status ≡ proposed
      → is_some job.price_usd ≡ true
      → StepBy may sha job (accept_price_line party job)
  confirms :
      (now : Instant)
      → job.status ≡ proposed
      → agreement_gap job ≡ none
      → is_some job.rail ≡ true
      → StepBy may sha job (record job {
        status = confirmed;
        confirmed_spec_hash = some (hash_spec sha (spec_text job));
        confirmed_at = some now;
      })
  attaches :
      (staging : Repo) (base : Text)
      → StepBy may sha job (attach_staging_repository job staging base)
  follows :
      (name : Text) → job.status ≡ confirmed → StepBy may sha job (record job { repository = name })
  stages :
      (commit : Text) (now : Instant)
      → job.status ⟶ staged
      → StepBy may sha job
          (record job { status = staged; staged_commit = some commit; staged_at = some now })
  asks_redo :
      (i : ℕ) (now : Instant)
      → job.status ⟶ redo_requested
      → i < length job.criteria
      → job.redo_used_count < job.redo_allowance
      → StepBy may sha job (record job {
        status = redo_requested;
        redo_used_count = job.redo_used_count + 1;
        redo_requested_criterion_index = some i;
        redo_requested_at = some now;
        staged_lapse_extension_days = job.staged_lapse_extension_days + redo_lapse_extension_days;
      })
  refuses_redo :
      (now : Instant)
      → job.status ≡ redo_requested
      → StepBy may sha job (record job { status = staged; redo_refused_at = some now })
  submits :
      (url : Text) (now : Instant)
      → job.status ⟶ submitted
      → StepBy may sha job (record job {
        status = submitted;
        pull_request_url = some url;
        submitted_at = some now;
        deadline = some (now + days stale_after_days);
      })
  cites :
      (i : ℕ) (reason : Text) (now : Instant)
      → job.status ⟶ cited_closed
      → i < length job.criteria
      → is_blank reason ≡ false
      → StepBy may sha job (record job {
        status = cited_closed;
        cited_close_criterion_index = some i;
        cited_close_reason_text = some (trim reason);
        cited_close_author_did = some job.buyer_did;
        cited_close_at = some now;
      })
  completes :
      (commit : Text) (time : Instant)
      → job.status ⟶ completed
      → StepBy may sha job
          (record job { status = completed; merge_commit = some commit; merged_at = some time })
  deems :
      (now : Instant)
      → deem_window_has_passed job now ≡ true
      → StepBy may sha job
          (record job { status = deemed_completed; deemed_completed_at = some now })
  -- The operations and clocks that write the status alone.
  moves :
      (to : JobStatus)
      → job.status ⟶ to
      → is_status_only to ≡ true
      → StepBy may sha job (record job { status = to })

-- a step by whichever acceptance
abbrev pub Step : (Text → Text) → Job → Job → Type 0
Step sha job b = StepBy (λ a. Unit) sha job b

pub StepBy-Step :
    {may : Acceptance → Type 0} {sha : Text → Text} {job b : Job}
    → StepBy may sha job b
    → Step sha job b
StepBy-Step idle = idle
StepBy-Step (proposes input price lines fields o el ef) = proposes input price lines fields o el ef
StepBy-Step (accepts i party m e lt) = accepts i party tt e lt
StepBy-Step (accepts_price party m e priced) = accepts_price party tt e priced
StepBy-Step (confirms now e gap railed) = confirms now e gap railed
StepBy-Step (attaches staging base) = attaches staging base
StepBy-Step (follows name e) = follows name e
StepBy-Step (stages commit now edge) = stages commit now edge
StepBy-Step (asks_redo i now edge lt left) = asks_redo i now edge lt left
StepBy-Step (refuses_redo now e) = refuses_redo now e
StepBy-Step (submits url now edge) = submits url now edge
StepBy-Step (cites i reason now edge lt e) = cites i reason now edge lt e
StepBy-Step (completes commit time edge) = completes commit time edge
StepBy-Step (deems now w) = deems now w
StepBy-Step (moves to edge only) = moves to edge only
