-- ===== src/Job/Model.antt =====
-- The data of `src/domain/job.ts`: a job with its criteria, and the errors that the operations
-- throw. A `Date` is its milliseconds since the epoch, and a digest or an id is a text.
use freeagents.Base.{ℕ, Bool, List, Option, Result, err, ok, ◌*◌}
use freeagents.Base.Number.{Number}
use freeagents.Base.Text.{Text}
use freeagents.Job.Status.{JobStatus, TransitionError, validate_transition}

abbrev pub Instant : Type 0
Instant = ℕ

abbrev pub day_ms : ℕ
day_ms = 86400000

abbrev pub days : ℕ → Instant
days n = n * day_ms

pub data Party : Type 0 where
  buyer agent : Party

pub data Rail : Type 0 where
  abt usdc abt_eth : Rail

pub record Criterion : Type 0 where
  pub text : Text
  pub proposed_by : Party
  pub accepted_by_buyer : Bool
  pub accepted_by_agent : Bool

pub record Repo : Type 0 where
  pub owner : Text
  pub repo : Text

pub record Job : Type 0 where
  pub id : Text
  pub buyer_did : Text
  pub agent_did : Text
  pub request_id : Option Text
  pub repository : Text
  pub brief : Text
  pub brief_hash : Text
  pub criteria : List Criterion
  pub price_usd : Option Text
  pub rail : Option Rail
  pub price_accepted_by_buyer : Bool
  pub price_accepted_by_agent : Bool
  pub deposit_percent : ℕ
  pub redo_allowance : ℕ
  pub redo_used_count : ℕ
  pub redo_requested_criterion_index : Option ℕ
  pub redo_requested_at : Option Instant
  pub redo_refused_at : Option Instant
  pub staged_lapse_extension_days : ℕ
  pub delivery_window_days : Option ℕ
  pub confirmed_spec_hash : Option Text
  pub status : JobStatus
  pub pull_request_url : Option Text
  pub merge_commit : Option Text
  pub merged_at : Option Instant
  pub confirmed_at : Option Instant
  pub submitted_at : Option Instant
  pub staged_at : Option Instant
  pub staged_commit : Option Text
  pub staging_repo : Option Repo
  pub base_commit : Option Text
  pub staging_repo_delete_after : Option Instant
  pub cited_close_criterion_index : Option ℕ
  pub cited_close_reason_text : Option Text
  pub cited_close_author_did : Option Text
  pub cited_close_at : Option Instant
  pub deemed_completed_at : Option Instant
  pub deadline : Option Instant
  pub created_at : Instant

-- `CompletedJob` without the id that storage gives it
pub record CompletedJob : Type 0 where
  pub job_id : Text
  pub buyer_did : Text
  pub agent_did : Text
  pub merge_commit : Text
  pub completed_at : Instant

-- What a `JobError` says.
pub data Complaint : Type 0 where
  no_brief nothing_agreed no_proposal empty_text bad_proposer bad_price bad_rail : Complaint
  no_price_yet no_prose : Complaint
  outstanding : ℕ → ℕ → Complaint
  no_criterion : Number → Complaint

pub data PriceComplaint : Type 0 where
  no_agreed_price price_not_accepted : PriceComplaint

pub data DepositSettledAction : Type 0 where
  decline change_its_terms withdraw : DepositSettledAction

-- an action that `JobTransitionError` names where no target status is in question
pub data Action : Type 0 where
  follow_a_repository_move refuse_a_redo propose_criteria request_changes : Action
  accept_a_criterion accept_the_price : Action

-- What an operation may throw, by the error's class.
pub data JobFault : Type 0 where
  job_error : Complaint → JobFault
  job_price_error : PriceComplaint → JobFault
  transition_error : TransitionError → JobFault
  cannot : JobStatus → Action → JobFault
  deposit_settled : DepositSettledAction → JobFault
  redo_allowance_exhausted : JobFault

-- `validateJobTransition` as an operation calls it
unfoldable pub validate : JobStatus → JobStatus → Result JobFault JobStatus
unfolding validate_transition
validate from to = lift (validate_transition from to)
  where
    lift : Result TransitionError JobStatus → Result JobFault JobStatus
    lift (ok s) = ok s
    lift (err e) = err (transition_error e)
