-- ===== src/Job/Invariant/Outcome.antt =====
-- The facts that come in pairs with one writer, and the statuses that they go with.
use freeagents.Base.{
  if◌then◌else◌, is_some, ◌≡◌, refl, ◌⊎◌, inr, Bool, true, false, none, some, arith, inl,
}
use freeagents.Job.Status.{
  JobStatus, draft, proposed, confirmed, staged, submitted, completed, declined, closed_unmerged,
  stale, withdrawn, expired_unstaged, deemed_completed, cited_closed,
}
use freeagents.Job.Model.{Job, buyer, agent}
use freeagents.Job.Edges.{
  ◌⟶◌, draft_proposed, confirmed_staged, staged_submitted, redo_staged, proposed_confirmed,
}
use freeagents.Job.Clocks.{plus_days}
use freeagents.Job.Step.{
  is_status_only, Step, idle, proposes, accepts, accepts_price, confirms, attaches, follows, stages,
  asks_redo, refuses_redo, submits, cites, completes, deems, moves,
}
use freeagents.Job.Lifecycle.{attach_staging_repository}
use freeagents.Base.Text.{Text}
use freeagents.Job.Lapses.{deem-status}

-- staged, and what only a staged job can become
abbrev pub is_past_staging : JobStatus → Bool
is_past_staging draft = false
is_past_staging proposed = false
is_past_staging confirmed = false
is_past_staging declined = false
is_past_staging withdrawn = false
is_past_staging expired_unstaged = false
is_past_staging s = true

-- submitted, and what only a submitted job can become
abbrev pub is_past_submit : JobStatus → Bool
is_past_submit submitted = true
is_past_submit completed = true
is_past_submit deemed_completed = true
is_past_submit stale = true
is_past_submit closed_unmerged = true
is_past_submit cited_closed = true
is_past_submit s = false

abbrev pub is_completed : JobStatus → Bool
is_completed completed = true
is_completed s = false

abbrev pub is_deemed : JobStatus → Bool
is_deemed deemed_completed = true
is_deemed s = false

abbrev pub is_cited : JobStatus → Bool
is_cited cited_closed = true
is_cited s = false

pub record IsOutcomeSound (job : Job) : Type 0 where
  pub staged_pair : is_some job.staged_commit ≡ is_some job.staged_at
  pub staged_dated : is_past_staging job.status ≡ true → is_some job.staged_at ≡ true
  pub submitted_pair : is_some job.pull_request_url ≡ is_some job.submitted_at
  pub submitted_dated : is_past_submit job.status ≡ true → is_some job.submitted_at ≡ true
  pub deadline : job.deadline ≡ plus_days job.submitted_at 30
  -- a merge is on record exactly in `completed`
  pub merged_pair : is_some job.merge_commit ≡ is_some job.merged_at
  pub merged : is_some job.merged_at ≡ is_completed job.status
  pub deemed : is_some job.deemed_completed_at ≡ is_deemed job.status
  -- a cited close is on record exactly in `cited_closed`, and its author is the buyer
  pub cited : is_some job.cited_close_at ≡ is_cited job.status
  pub cited_line : is_some job.cited_close_criterion_index ≡ is_cited job.status
  pub cited_reason : is_some job.cited_close_reason_text ≡ is_cited job.status
  pub cited_author :
      job.cited_close_author_did ≡ (if is_cited job.status then some job.buyer_did else none)

record IsLive (s : JobStatus) : Type 0 where
  live_completed : is_completed s ≡ false
  live_deemed : is_deemed s ≡ false
  live_cited : is_cited s ≡ false

-- No edge leaves a status with an outcome on record.
edge-IsLive : {s t : JobStatus} → s ⟶ t → IsLive s
edge-IsLive draft_proposed = record { live_completed = refl; live_deemed = refl; live_cited = refl }
edge-IsLive _ = record { live_completed = refl; live_deemed = refl; live_cited = refl }

status_only-IsLive : (s : JobStatus) → is_status_only s ≡ true → IsLive s
status_only-IsLive completed o = cc
status_only-IsLive deemed_completed o = cc
status_only-IsLive cited_closed o = cc
status_only-IsLive _ o = record { live_completed = refl; live_deemed = refl; live_cited = refl }

-- A status behind staging or submission is reached from one, but for the edge that enters it.
edge-past_staging :
    {s t : JobStatus} → s ⟶ t → is_past_staging t ≡ true → (is_past_staging s ≡ true) ⊎ (t ≡ staged)
edge-past_staging confirmed_staged p = inr refl
edge-past_staging redo_staged p = inr refl
edge-past_staging e p = ground arith

edge-past_submit :
    {s t : JobStatus}
    → s ⟶ t
    → is_past_submit t ≡ true
    → (is_past_submit s ≡ true) ⊎ (t ≡ submitted)
edge-past_submit staged_submitted p = inr refl
edge-past_submit e p = ground arith

open_IsLive : {s : JobStatus} → (s ≡ draft) ⊎ (s ≡ proposed) → IsLive s
open_IsLive (inl e) = rw e (edge-IsLive draft_proposed)
open_IsLive (inr e) = rw e (edge-IsLive proposed_confirmed)

-- Every step keeps the pairs, and an outcome goes on record with its status alone.
pub Step-IsOutcomeSound :
    (sha : Text → Text) {job job' : Job}
    → Step sha job job'
    → IsOutcomeSound job
    → IsOutcomeSound job'
unfolding attach_staging_repository
Step-IsOutcomeSound sha idle h = h
Step-IsOutcomeSound sha (proposes input price lines fields unsettled el ef) h =
    ground (arith, open_IsLive unsettled)
Step-IsOutcomeSound sha (accepts i party m e lt) h = ground arith
Step-IsOutcomeSound sha (accepts_price buyer m e priced) h = ground arith
Step-IsOutcomeSound sha (accepts_price agent m e priced) h = ground arith
Step-IsOutcomeSound sha (confirms now e gap railed) h = ground arith
Step-IsOutcomeSound sha (attaches staging base) h = ground arith
Step-IsOutcomeSound sha (follows name e) h = ground arith
Step-IsOutcomeSound sha (stages commit now edge) h = ground (arith, edge-IsLive edge)
Step-IsOutcomeSound sha (asks_redo i now edge lt room) h =
    ground (arith, edge-IsLive edge, edge-past_staging edge)
Step-IsOutcomeSound sha (refuses_redo now e) h = ground arith
Step-IsOutcomeSound sha (submits url now edge) h =
    ground (arith, edge-IsLive edge, edge-past_staging edge)
Step-IsOutcomeSound sha (cites i reason now edge lt prose) h =
    ground (arith, edge-IsLive edge, edge-past_staging edge, edge-past_submit edge)
Step-IsOutcomeSound sha (completes commit time edge) h =
    ground (arith, edge-IsLive edge, edge-past_staging edge, edge-past_submit edge)
Step-IsOutcomeSound sha (deems now past) h = ground (arith, deem-status _ now past)
Step-IsOutcomeSound sha (moves to edge only) h = ground (
  arith,
  edge-IsLive edge,
  status_only-IsLive to only,
  edge-past_staging edge,
  edge-past_submit edge,
)
