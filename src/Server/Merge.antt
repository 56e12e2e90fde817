-- ===== src/Server/Merge.antt =====
-- `POST /jobs/:jobId/merge` in `src/api/app.ts`.
use freeagents.Base.{
  leb, if◌then◌else◌, Result, err, ok, Bool, true, false, Option, none, some, List, [], ◌∷◌,
}
use freeagents.Base.Text.{Text}
use freeagents.Job.Status.{
  JobStatus, draft, proposed, confirmed, staged, redo_requested, submitted, completed, declined,
  closed_unmerged, stale, withdrawn, staged_declined, closed_unpaid, expired_unstaged,
  deemed_completed, cited_closed, paid_undelivered, includes,
}
use freeagents.Job.Model.{Instant, buyer, agent, Job, JobFault}
use freeagents.Job.Lifecycle.{record_closed_unmerged, record_stale}
use freeagents.Server.Ports.{
  job_fault, cannot_merge, head_moved, already_stale, still_open, closed_not_merged,
  PullRequestState, open_state, closed_state, merged_state, Summary, Request, Ports, CredentialRow,
  Success, receipt,
}
use freeagents.Server.Route.{Route, ◌>>=◌, ◌>>◌, error, pure, send, send_if, thrown, now}
use freeagents.Server.Observe.{
  Observation, corrupted, answered, moved_head, observed, Completion, no_commit_sha, refused,
  completed_as, observe_pull_request, complete_merged_pull_request,
}
use freeagents.Server.Exchange.{no_hook, persist, require_signed_party}

abbrev pub non_observation_statuses : List JobStatus
non_observation_statuses =
    draft ∷ proposed ∷ confirmed ∷ completed ∷ closed_unmerged ∷ withdrawn ∷ declined ∷ staged
    ∷ staged_declined ∷ closed_unpaid ∷ expired_unstaged ∷ deemed_completed ∷ redo_requested
    ∷ cited_closed ∷ paid_undelivered ∷ []

abbrev pub is_stale : JobStatus → Bool
is_stale stale = true
is_stale s = false

abbrev pub is_submitted_status : JobStatus → Bool
is_submitted_status submitted = true
is_submitted_status s = false

-- `job.deadline !== null && Date.now() >= job.deadline`
abbrev pub is_over_deadline : Option Instant → Instant → Bool
is_over_deadline none time = false
is_over_deadline (some end) time = leb end time

abbrev pub or_outcome : Result JobFault Job → Route Job
or_outcome (err fault) = send (error 409 (job_fault fault))
or_outcome (ok job) = pure job

abbrev pub merged_answer : Completion → Route Success
merged_answer no_commit_sha = send thrown
merged_answer (refused r) = send r
merged_answer (completed_as row credential) = pure (receipt row credential)

module _ (ports : Ports) where
  -- `recordOutcome`
  unfoldable pub record_outcome : Result JobFault Job → Route Success
  record_outcome outcome = do next ← or_outcome outcome; persist ports next no_hook

  abbrev pub open_outcome : Job → Route Success
  open_outcome job = if is_stale job.status then send (error 409 already_stale) else do
    time ← now ports
    if is_over_deadline job.deadline time
        then record_outcome (record_stale job)
        else send (error 409 still_open)

  abbrev pub closed_outcome : Job → Route Success
  closed_outcome job =
      if is_submitted_status job.status
      then send (error 409 closed_not_merged)
      else record_outcome (record_closed_unmerged job)

  abbrev pub outcome_of : Job → Summary → Text → PullRequestState → Route Success
  outcome_of job summary url open_state = open_outcome job
  outcome_of job summary url closed_state = closed_outcome job
  outcome_of job summary url merged_state = do
    completion ← complete_merged_pull_request ports job summary url
    merged_answer completion

  abbrev pub merge_observation : Job → Observation → Route Success
  merge_observation job corrupted = send thrown
  merge_observation job (answered r) = send r
  merge_observation job moved_head = send (error 409 head_moved)
  merge_observation job (observed summary url) = outcome_of job summary url summary.state

  -- a job that this load completed is answered with its receipt
  abbrev pub merge_unless_completed : Job → Option CredentialRow → Route Success
  merge_unless_completed job (some credential) = pure (receipt job credential)
  merge_unless_completed job none = do
    send_if (includes non_observation_statuses job.status) (error 409 (cannot_merge job.status))
    observation ← observe_pull_request ports job
    merge_observation job observation

  unfoldable pub merge_route : Text → Request → Route Success
  merge_route job_id request = do
    gate ← require_signed_party ports job_id request (buyer ∷ agent ∷ [])
    merge_unless_completed gate.loaded.job gate.loaded.completed_now
