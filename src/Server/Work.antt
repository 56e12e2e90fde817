-- ===== src/Server/Work.antt =====
-- The routes on staged work in `src/api/app.ts`: stage, staged-decline, redo, redo-refuse and
-- cited-close.
use freeagents.Base.{
  if◌then◌else◌, Result, err, ok, Bool, true, false, not, Option, none, some, List, [], ◌∷◌, ◌++◌,
}
use freeagents.Base.Text.{Text}
use freeagents.Base.Number.{Number, whole, below}
use freeagents.Base.Table.{get, set}
use freeagents.Job.Status.{JobStatus, staged}
use freeagents.Job.Model.{buyer, agent, Repo, Job, JobFault, validate}
use freeagents.Job.Agreement.{is_blank}
use freeagents.Job.Lifecycle.{
  stage_work, request_redo, refuse_redo, record_staged_declined, record_cited_close,
}
use freeagents.Payment.Amount.{remainder_usd}
use freeagents.Server.Ports.{
  AttestationFault, attestation_error, build_fault, remainder, decline_staged, redo_it, Refusal,
  github_unavailable, staging_unavailable, observation_unavailable, attestation_failed,
  signing_unavailable, too_large_to_attest, attestation_stored, bad_body, job_fault, no_push_access,
  no_such_commit, not_a_descendant, Failure, work_staged, State, AgentRow, ObserveFault, truncated,
  observe_failed, Permission, no_permission, read_permission, Request, Ports, Success,
}
use freeagents.Server.Route.{
  Route, ◌>>=◌, ◌>>◌, error, pure, send, try, or_send, ask, send_if, no_storage, now, store, thrown,
}
use freeagents.Server.Holds.{refuse_staged_move_when_paid}
use freeagents.Server.Notices.{system_row}
use freeagents.Server.Exchange.{
  PaymentGate, Hook, no_hook, persist, apply_and_persist, require_signed_party, unpaid_answer,
}
use freeagents.Server.Ancestry.{descends_from}
use freeagents.Server.Terms.{Field, given, read_text}

-- a field that holds a text which is not blank
abbrev pub read_prose : Field Text → Option Text
read_prose (given s) = if is_blank s then none else some s
read_prose field = none

-- `typeof x === 'number' && Number.isInteger(x)`
abbrev pub read_integer : Field Number → Option Number
read_integer (given (whole n)) = some (whole n)
read_integer (given (below n)) = some (below n)
read_integer field = none

-- the login of an agent that proved it
abbrev pub verified_login : Option AgentRow → Option Text
verified_login none = none
verified_login (some row) = if row.is_verified then row.github_login else none

abbrev pub staging_of : Job → Option (Repo × Text)
staging_of job = elim job.staging_repo [
  | none ↦ none
  | some repo ↦ elim job.base_commit [ none ↦ none | some base ↦ some (repo, base) ]
]

abbrev pub lacks_push : Option Permission → Bool
lacks_push (some no_permission) = true
lacks_push (some read_permission) = true
lacks_push permission = false

abbrev pub commit_refusal : Bool → Refusal
commit_refusal true = no_push_access
commit_refusal false = no_such_commit

abbrev pub or_transition : Result JobFault JobStatus → Route (Unit {0})
or_transition (err fault) = send (error 409 (job_fault fault))
or_transition (ok s) = pure tt

-- a domain error that the route does not catch
abbrev pub or_thrown : Result JobFault Job → Route Job
or_thrown (err fault) = send thrown
or_thrown (ok job) = pure job

abbrev pub observe_answer : ObserveFault → Failure
observe_answer truncated = error 422 too_large_to_attest
observe_answer observe_failed = error 503 observation_unavailable

abbrev pub or_observation : Result ObserveFault Text → Route Text
or_observation (err fault) = send (observe_answer fault)
or_observation (ok observation) = pure observation

abbrev pub attestation_answer : AttestationFault → Failure
attestation_answer attestation_error = error 503 attestation_failed
attestation_answer build_fault = thrown

abbrev pub or_attestation : Result AttestationFault Text → Route Text
or_attestation (err fault) = send (attestation_answer fault)
or_attestation (ok attestation) = pure attestation

abbrev pub appended : Option (List Text) → Text → List Text
appended none signed = signed ∷ []
appended (some existing) signed = existing ++ (signed ∷ [])

abbrev pub put_attestation : Text → Text → State → State
put_attestation job_id signed s = record s {
  attestations = set job_id (appended (get job_id s.attestations) signed) s.attestations;
}

abbrev pub remainder_gate : PaymentGate
remainder_gate = record { leg = remainder; unsettled = unpaid_answer remainder remainder_usd }

module _ (ports : Ports) where
  -- a staged commit that is not there, or is not visible since the agent lacks push access
  abbrev pub commit_missing : Repo → Text → Option (List Text) → Route (Unit {0})
  commit_missing repo login (some parents) = pure tt
  commit_missing repo login none = do
    permission ← try λ t. ports.permission t repo login
    send (error 409 (commit_refusal (lacks_push permission)))

  -- `attestationRepo.save`: a row behind the rows of the job, unless the driver refuses it
  unfoldable pub save_attestation : Text → Text → Route (Unit {0})
  save_attestation job_id signed = do
    refused ← try ports.attestation_conflict
    send_if refused (error 409 attestation_stored)
    stored ← store ports (λ s. tt) (put_attestation job_id signed)
    or_send no_storage stored

  -- the facts about the staged commit that are checked before the observer is asked
  unfoldable pub check_commit : Repo → Text → Text → Text → Route (Unit {0})
  check_commit repo base login commit = do
    seen ← try λ t. ports.commit_parents t repo commit
    commit_missing repo login seen
    is_descendant ← descends_from ports repo base commit
    send_if (not is_descendant) (error 409 not_a_descendant)

  -- observed, attested, signed and stored, in this order
  unfoldable pub attest : Job → Repo → Text → Text → Text → Job → Route (Unit {0})
  attest current repo base login commit staged_job = do
    tried ← try λ t. ports.observe t repo commit base login
    observation ← or_observation tried
    built ← try λ t. ports.build_attestation t staged_job observation
    attestation ← or_attestation built
    signed ← ask (error 503 signing_unavailable) λ t. ports.sign_attestation t attestation
    save_attestation current.id signed

  abbrev pub staged_hook : Hook
  staged_hook row = system_row ports row.id work_staged

  -- `POST /jobs/:jobId/stage`
  unfoldable pub stage_route : Text → Request → Field Text → Route Success
  stage_route job_id request staged_commit = do
    gate ← require_signed_party ports job_id request (agent ∷ [])
    commit ← or_send (error 400 bad_body) (read_prose staged_commit)
    let current = gate.loaded.job
    or_transition (validate current.status staged)
    staging ← or_send (error 503 staging_unavailable) (staging_of current)
    row ← ask no_storage λ t. ports.agent_row t current.agent_did
    login ← or_send (error 503 github_unavailable) (verified_login row)
    check_commit staging.0 staging.1 login commit
    time ← now ports
    staged_job ← or_thrown (stage_work current commit time)
    attest current staging.0 staging.1 login commit staged_job
    persist ports staged_job staged_hook

  -- `POST /jobs/:jobId/staged-decline`
  unfoldable pub staged_decline_route : Text → Request → Route Success
  staged_decline_route job_id request = do
    gate ← require_signed_party ports job_id request (buyer ∷ [])
    refuse_staged_move_when_paid ports gate.loaded.job decline_staged
    apply_and_persist ports gate.loaded.job record_staged_declined none no_hook

  -- `POST /jobs/:jobId/redo`
  unfoldable pub redo_route : Text → Request → Field Number → Route Success
  redo_route job_id request criterion_index = do
    gate ← require_signed_party ports job_id request (buyer ∷ [])
    index ← or_send (error 400 bad_body) (read_integer criterion_index)
    refuse_staged_move_when_paid ports gate.loaded.job redo_it
    time ← now ports
    apply_and_persist ports gate.loaded.job (λ job. request_redo job index time) none no_hook

  -- `POST /jobs/:jobId/redo-refuse`
  unfoldable pub redo_refuse_route : Text → Request → Route Success
  redo_refuse_route job_id request = do
    gate ← require_signed_party ports job_id request (agent ∷ [])
    time ← now ports
    apply_and_persist ports gate.loaded.job (λ job. refuse_redo job time) none no_hook

  -- `POST /jobs/:jobId/cited-close`
  unfoldable pub cited_close_route : Text → Request → Field Number → Field Text → Route Success
  cited_close_route job_id request criterion_index reason_text = do
    gate ← require_signed_party ports job_id request (buyer ∷ [])
    index ← or_send (error 400 bad_body) (read_integer criterion_index)
    reason ← or_send (error 400 bad_body) (read_text reason_text)
    time ← now ports
    apply_and_persist ports gate.loaded.job (λ job. record_cited_close job index reason time)
        (some remainder_gate) no_hook
