-- ===== src/Job/Settlement.antt =====
-- The settlement intent of `src/domain/settlement.ts`, and which side an offer waits on, of
-- `src/domain/incoming.ts`.
use freeagents.Base.{Bool, true, ◌&&◌, List, [], ◌∷◌, Option, none, Result, ok, err, if◌then◌else◌}
use freeagents.Base.Text.{Text}
use freeagents.Job.Status.{JobStatus, completed, same_status}
use freeagents.Job.Model.{Job, Criterion}

pub data SettlementState : Type 0 where
  recorded_intent : SettlementState

pub record Settlement : Type 0 where
  pub job_id : Text
  pub amount : Option Text
  pub currency : Option Text
  pub platform_fee : Option Text
  pub state : SettlementState

-- `SettlementError`, with the status that its message names
pub data SettlementFault : Type 0 where
  not_completed : JobStatus → SettlementFault

unfoldable pub record_settlement_intent : Job → Result SettlementFault Settlement
record_settlement_intent job =
    if same_status job.status completed
    then ok (record {
      job_id = job.id;
      amount = none;
      currency = none;
      platform_fee = none;
      state = recorded_intent;
    })
    else err (not_completed job.status)

pub data WaitingOn : Type 0 where
  no_reply waiting_on_buyer waiting_on_operator : WaitingOn

-- `criteria.every((criterion) => criterion.acceptedByAgent)`
abbrev pub every_accepted : List Criterion → Bool
every_accepted [] = true
every_accepted (c ∷ cs) = c.accepted_by_agent && every_accepted cs

unfoldable pub waiting_on_of : List Criterion → WaitingOn
waiting_on_of [] = no_reply
waiting_on_of (c ∷ cs) = if every_accepted (c ∷ cs) then waiting_on_buyer else waiting_on_operator
