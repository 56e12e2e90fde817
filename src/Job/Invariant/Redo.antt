-- ===== src/Job/Invariant/Redo.antt =====
-- The redo allowance, and the extension that it buys.
use freeagents.Base.{ltb, is_some, ◌*◌, ◌≤◌, ◌≡◌, ◌≢◌, true, arith}
use freeagents.Base.Text.{Text}
use freeagents.Job.Status.{JobStatus, redo_requested, declined}
use freeagents.Job.Model.{buyer, agent, Job}
use freeagents.Job.Step.{
  is_status_only, Step, idle, proposes, accepts, accepts_price, confirms, attaches, follows, stages,
  asks_redo, refuses_redo, submits, cites, completes, deems, moves,
}
use freeagents.Job.Lifecycle.{attach_staging_repository}

pub record IsRedoSound (job : Job) : Type 0 where
  pub deposit : job.deposit_percent ≡ 25
  pub allowance : job.redo_allowance ≡ 1
  pub used : job.redo_used_count ≤ job.redo_allowance
  -- seven days for each redo asked for, whether it was refused or not
  pub extension : job.staged_lapse_extension_days ≡ 7 * job.redo_used_count
  pub asked : is_some job.redo_requested_at ≡ ltb 0 job.redo_used_count
  pub cited_line : is_some job.redo_requested_criterion_index ≡ is_some job.redo_requested_at
  pub refused : is_some job.redo_refused_at ≡ true → is_some job.redo_requested_at ≡ true
  pub pending : job.status ≡ redo_requested → is_some job.redo_requested_at ≡ true

status_only_not_redo : (s : JobStatus) → is_status_only s ≡ true → s ≢ redo_requested
status_only_not_redo redo_requested o e = cc
status_only_not_redo declined o e = cc
status_only_not_redo _ o e = cc

-- Every step keeps the redo's account.
pub Step-IsRedoSound :
    (sha : Text → Text) {job job' : Job} → Step sha job job' → IsRedoSound job → IsRedoSound job'
unfolding attach_staging_repository
Step-IsRedoSound sha idle h = h
Step-IsRedoSound sha (proposes input price lines fields unsettled el ef) h = ground arith
Step-IsRedoSound sha (accepts i party m e lt) h = ground arith
Step-IsRedoSound sha (accepts_price buyer m e priced) h = ground arith
Step-IsRedoSound sha (accepts_price agent m e priced) h = ground arith
Step-IsRedoSound sha (confirms now e gap railed) h = ground arith
Step-IsRedoSound sha (attaches staging base) h = ground arith
Step-IsRedoSound sha (follows name e) h = ground arith
Step-IsRedoSound sha (stages commit now edge) h = ground arith
Step-IsRedoSound sha (asks_redo i now edge lt room) h = ground arith
Step-IsRedoSound sha (refuses_redo now e) h = ground arith
Step-IsRedoSound sha (submits url now edge) h = ground arith
Step-IsRedoSound sha (cites i reason now edge lt prose) h = ground arith
Step-IsRedoSound sha (completes commit time edge) h = ground arith
Step-IsRedoSound sha (deems now past) h = ground arith
Step-IsRedoSound sha (moves to edge only) h = ground (arith, status_only_not_redo to only)
