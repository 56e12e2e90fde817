-- ===== src/Job/Lifecycle.antt =====
-- The operations of `src/domain/job.ts` on an agreed job: staging, the redo, the pull request,
-- and the recorded outcomes.
use freeagents.Base.{ℕ, Bool, some, Result, ok, err, ◌>>=◌, ◌>>◌, throw_if, ◌+◌, leb, length}
use freeagents.Base.Text.{Text, trim}
use freeagents.Job.Status.{
  JobStatus, confirmed, staged, redo_requested, submitted, completed, declined, closed_unmerged,
  stale, withdrawn, staged_declined, cited_closed,
}
use freeagents.Job.Model.{
  Instant, days, Repo, Job, CompletedJob, no_prose, follow_a_repository_move, refuse_a_redo,
  JobFault, job_error, cannot, deposit_settled, redo_allowance_exhausted, validate,
}
use freeagents.Job.Model.{DepositSettledAction}
use freeagents.Job.Agreement.{is_blank}
use freeagents.Job.Exchange.{in_range}
use freeagents.Base.Number.{Number}

abbrev pub stale_after_days : ℕ
stale_after_days = 30

abbrev pub redo_lapse_extension_days : ℕ
redo_lapse_extension_days = 7

abbrev pub staging_repo_cleanup_after_days : ℕ
staging_repo_cleanup_after_days = 30

-- `stageWork`
unfoldable pub stage_work : Job → Text → Instant → Result JobFault Job
stage_work job commit now = do
  validate job.status staged
  ok (record job { status = staged; staged_commit = some commit; staged_at = some now })

-- `attachStagingRepository`
unfoldable pub attach_staging_repository : Job → Repo → Text → Job
attach_staging_repository job staging base = record job {
  staging_repo = some staging;
  base_commit = some base;
}

abbrev pub only_confirmed : JobStatus → JobFault → Result JobFault (Unit {0})
only_confirmed confirmed e = ok tt
only_confirmed s e = err e

-- `followRepositoryMove`
unfoldable pub follow_repository_move : Job → Text → Result JobFault Job
follow_repository_move job full_name = do
  only_confirmed job.status (cannot job.status follow_a_repository_move)
  ok (record job { repository = full_name })

-- `requestRedo`
unfoldable pub request_redo : Job → Number → Instant → Result JobFault Job
request_redo job criterion_index now = do
  validate job.status redo_requested
  i ← in_range criterion_index (length job.criteria)
  throw_if (leb job.redo_allowance job.redo_used_count) redo_allowance_exhausted
  ok (record job {
    status = redo_requested;
    redo_used_count = job.redo_used_count + 1;
    redo_requested_criterion_index = some i;
    redo_requested_at = some now;
    staged_lapse_extension_days = job.staged_lapse_extension_days + redo_lapse_extension_days;
  })

abbrev pub only_redo_requested : JobStatus → JobFault → Result JobFault (Unit {0})
only_redo_requested redo_requested e = ok tt
only_redo_requested s e = err e

-- `refuseRedo`
unfoldable pub refuse_redo : Job → Instant → Result JobFault Job
refuse_redo job now = do
  only_redo_requested job.status (cannot job.status refuse_a_redo)
  validate job.status staged
  ok (record job { status = staged; redo_refused_at = some now })

-- `recordStagedDeclined`
unfoldable pub record_staged_declined : Job → Result JobFault Job
record_staged_declined job = do
  validate job.status staged_declined
  ok (record job { status = staged_declined })

-- `computeStagingRepoDeleteAfter`
unfoldable pub compute_staging_repo_delete_after : Instant → Instant
compute_staging_repo_delete_after terminal_at = terminal_at + days staging_repo_cleanup_after_days

-- `submitPullRequest`
unfoldable pub submit_pull_request : Job → Text → Instant → Result JobFault Job
submit_pull_request job url now = do
  validate job.status submitted
  ok (record job {
    status = submitted;
    pull_request_url = some url;
    submitted_at = some now;
    deadline = some (now + days stale_after_days);
  })

-- `recordClosedUnmerged`
unfoldable pub record_closed_unmerged : Job → Result JobFault Job
record_closed_unmerged job = do
  validate job.status closed_unmerged
  ok (record job { status = closed_unmerged })

-- `recordCitedClose`
unfoldable pub record_cited_close : Job → Number → Text → Instant → Result JobFault Job
record_cited_close job criterion_index reason now = do
  validate job.status cited_closed
  i ← in_range criterion_index (length job.criteria)
  throw_if (is_blank reason) (job_error no_prose)
  ok (record job {
    status = cited_closed;
    cited_close_criterion_index = some i;
    cited_close_reason_text = some (trim reason);
    cited_close_author_did = some job.buyer_did;
    cited_close_at = some now;
  })

-- `recordStale`
unfoldable pub record_stale : Job → Result JobFault Job
record_stale job = do validate job.status stale; ok (record job { status = stale })

-- `recordWithdrawn`
unfoldable pub record_withdrawn : Job → Bool → Result JobFault Job
record_withdrawn job settled = do
  validate job.status withdrawn
  throw_if settled (deposit_settled DepositSettledAction.withdraw)
  ok (record job { status = withdrawn })

-- `completeJob`
unfoldable pub complete_job : Job → Text → Instant → Result JobFault (Job × CompletedJob)
complete_job job commit at = do
  validate job.status completed
  ok (
    record job { status = completed; merge_commit = some commit; merged_at = some at },
    record {
      job_id = job.id;
      buyer_did = job.buyer_did;
      agent_did = job.agent_did;
      merge_commit = commit;
      completed_at = at;
    },
  )

-- `decline`
unfoldable pub decline_job : Job → Bool → Result JobFault Job
decline_job job settled = do
  validate job.status declined
  throw_if settled (deposit_settled DepositSettledAction.decline)
  ok (record job { status = declined })
