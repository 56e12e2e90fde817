-- ===== src/Job/Event.antt =====
-- The calls that a job takes after `createJob`, as data, and a run of them. An operation that
-- throws leaves the job as it was, since the caller keeps the old value.
use freeagents.Base.{Result, ok, err, ◌>>=◌, Bool, Option, List, [], ◌∷◌}
use freeagents.Base.Text.{Text}
use freeagents.Job.Model.{Instant, Party, Repo, Job, CompletedJob, JobFault}
use freeagents.Job.Agreement.{confirm_spec}
use freeagents.Job.Lines.{ProposedLine}
use freeagents.Job.Price.{PriceProposal}
use freeagents.Job.Exchange.{propose, accept_criterion, accept_price, request_changes_on}
use freeagents.Job.Lifecycle.{
  stage_work, attach_staging_repository, follow_repository_move, request_redo, refuse_redo,
  record_staged_declined, submit_pull_request, record_closed_unmerged, record_cited_close,
  record_stale, record_withdrawn, complete_job, decline_job,
}
use freeagents.Job.Clocks.{apply_lapses}
use freeagents.Base.Number.{Number}

pub data Event : Type 0 where
  propose_event : List ProposedLine → Option PriceProposal → Bool → Event
  changes_event : Event
  accept_event : Number → Party → Event
  accept_price_event : Party → Event
  confirm_event : Instant → Event
  attach_event : Repo → Text → Event
  follow_event : Text → Event
  stage_event : Text → Instant → Event
  redo_event : Number → Instant → Event
  refuse_event : Instant → Event
  staged_declined_event : Event
  submit_event : Text → Instant → Event
  closed_unmerged_event : Event
  cited_event : Number → Text → Instant → Event
  stale_event : Event
  withdraw_event : Bool → Event
  complete_event : Text → Instant → Event
  decline_event : Bool → Event
  lapse_event : Instant → Bool → Option Instant → Event

-- the job of `completeJob`'s answer
abbrev pub completed_part : Job × CompletedJob → Result JobFault Job
completed_part (job, anchor) = ok job

unfoldable pub perform : (Text → Text) → Event → Job → Result JobFault Job
perform sha (propose_event input price settled) job = propose job input price settled
perform sha changes_event job = request_changes_on job
perform sha (accept_event index party) job = accept_criterion job index party
perform sha (accept_price_event party) job = accept_price job party
perform sha (confirm_event now) job = confirm_spec sha job now
perform sha (attach_event staging base) job = ok (attach_staging_repository job staging base)
perform sha (follow_event name) job = follow_repository_move job name
perform sha (stage_event commit now) job = stage_work job commit now
perform sha (redo_event index now) job = request_redo job index now
perform sha (refuse_event now) job = refuse_redo job now
perform sha staged_declined_event job = record_staged_declined job
perform sha (submit_event url now) job = submit_pull_request job url now
perform sha closed_unmerged_event job = record_closed_unmerged job
perform sha (cited_event index reason now) job = record_cited_close job index reason now
perform sha stale_event job = record_stale job
perform sha (withdraw_event settled) job = record_withdrawn job settled
perform sha (complete_event commit time) job = complete_job job commit time >>= completed_part
perform sha (decline_event settled) job = decline_job job settled
perform sha (lapse_event now settled settled_at) job = ok (apply_lapses job now settled settled_at)

abbrev pub keep_on_error : Job → Result JobFault Job → Job
keep_on_error old (ok job) = job
keep_on_error old (err e) = old

unfoldable pub run : (Text → Text) → List Event → Job → Job
run sha [] job = job
run sha (e ∷ es) job = run sha es (keep_on_error job (perform sha e job))
