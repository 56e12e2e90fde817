-- ===== src/Server/Confirm.antt =====
-- `POST /jobs/:jobId/confirm` in `src/api/app.ts`.
use freeagents.Base.{
  if◌then◌else◌, is_some, Result, err, ok, Bool, true, false, not, ◌&&◌, ◌||◌, Option, none, some,
  List, [], ◌∷◌,
}
use freeagents.Base.Text.{Text, text_eq}
use freeagents.Base.Table.{Table}
use freeagents.Job.Status.{JobStatus, draft, proposed}
use freeagents.Job.Model.{
  Instant, Repo, Job, JobFault, job_price_error, deposit_settled, redo_allowance_exhausted,
}
use freeagents.Job.Agreement.{confirm_spec}
use freeagents.Job.Lifecycle.{attach_staging_repository, follow_repository_move, record_withdrawn}
use freeagents.Payment.Amount.{deposit_usd}
use freeagents.Server.Ports.{
  deposit, github_unavailable, job_fault, sibling_confirmed, no_settlement_record,
  no_verified_login, repository_not_accessible, Failure, staging_invited, sibling_withdrawn,
  new_message, SettlementRow, StagingFault, not_accessible, other_fault, Request, Ports, Success,
}
use freeagents.Server.Route.{
  Route, ◌>>=◌, ◌>>◌, error, pure, send, try, or_send, ask, send_if, thrown, no_storage, now, store,
  same_state, update_job,
}
use freeagents.Server.Parties.{Acting, resolve_job_acting_party, require_negotiation_allowed}
use freeagents.Server.Holds.{ask_gate}
use freeagents.Server.Notices.{system_row, notify_job_parties}
use freeagents.Server.Links.{to_slash, same_optional_text, chain_identifiers_match}
use freeagents.Server.Clocks.{load_for_exchange}
use freeagents.Server.Exchange.{Hook, persist, unpaid_answer}
use freeagents.Server.Work.{verified_login}

abbrev pub is_from_request : Text → Job → Bool
is_from_request request_id job = same_optional_text (some request_id) job.request_id

-- `findByRequestId` without the job itself
unfoldable pub siblings_in : Text → Text → Table Job → List Job
siblings_in id request_id [] = []
siblings_in id request_id ((key, job) ∷ rows) =
    let rest = siblings_in id request_id rows in
    if is_from_request request_id job && not (text_eq job.id id) then job ∷ rest else rest

abbrev pub some_confirmed : List Job → Bool
some_confirmed [] = false
some_confirmed (job ∷ jobs) = is_some job.confirmed_at || some_confirmed jobs

-- `slice(0, -1)`
abbrev pub without_last : Text → Text
without_last [] = []
without_last (c ∷ []) = []
without_last (c ∷ d ∷ s) = c ∷ without_last (d ∷ s)

-- the owner and the name of `job.repository`, by the index of its first slash
abbrev pub split_at : Text → Option (Text × Text) → Repo
split_at full none = record { owner = without_last full; repo = full }
split_at full (some (owner, name)) = record { owner = owner; repo = name }

abbrev pub source_repo : Text → Repo
source_repo full = split_at full (to_slash full)

-- the rail of an open quote, from the deposit's row
abbrev pub with_rail : Job → Option SettlementRow → Job
with_rail job none = job
with_rail job (some row) = record job { rail = some row.rail }

abbrev pub is_open_quote : Job → Bool
is_open_quote job = not (is_some job.rail)

-- a status that a sibling is withdrawn from
abbrev pub is_open_status : JobStatus → Bool
is_open_status draft = true
is_open_status proposed = true
is_open_status s = false

abbrev pub deposit_gate_answer : Job → Failure
deposit_gate_answer job = unpaid_answer deposit deposit_usd job

-- the statuses of the errors that `confirmSpec` throws; the others are not caught
abbrev pub confirm_fault_answer : JobFault → Failure
confirm_fault_answer (deposit_settled action) = thrown
confirm_fault_answer redo_allowance_exhausted = thrown
confirm_fault_answer fault = error 409 (job_fault fault)

abbrev pub is_price_fault : JobFault → Bool
is_price_fault (job_price_error complaint) = true
is_price_fault fault = false

abbrev pub staging_answer : StagingFault → Failure
staging_answer not_accessible = error 409 repository_not_accessible
staging_answer other_fault = error 503 github_unavailable

abbrev pub or_staging : {A : Type 0} → Result StagingFault A → Route A
or_staging (err fault) = send (staging_answer fault)
or_staging (ok a) = pure a

-- an error of `followRepositoryMove` is caught with those of GitHub
abbrev pub or_moved : Result JobFault Job → Route Job
or_moved (err fault) = send (error 503 github_unavailable)
or_moved (ok job) = pure job

module _ (ports : Ports) where
  abbrev pub siblings_of : Job → Option Text → Route (List Job)
  siblings_of job none = pure []
  siblings_of job (some request_id) = do
    read ← store ports (λ s. siblings_in job.id request_id s.rows) same_state
    siblings ← or_send no_storage read
    send_if (some_confirmed siblings) (error 409 sibling_confirmed)
    pure siblings

  -- the deposit's row where the quote left the currency open; a read that fails is not caught
  abbrev pub open_deposit : Job → Route (Option SettlementRow)
  open_deposit job =
      if is_open_quote job then ask thrown (λ t. ports.settlement t deposit job.id) else pure none

  -- the gate is asked why an open quote has no rail
  abbrev pub rail_missing : Job → Route Job
  rail_missing job = do
    settled ← ask_gate ports deposit job.id
    if settled then send (error 409 no_settlement_record) else send (deposit_gate_answer job)

  abbrev pub or_confirm_fault : Job → Bool → Result JobFault Job → Route Job
  or_confirm_fault current awaiting (ok job) = pure job
  or_confirm_fault current awaiting (err fault) =
      if is_price_fault fault && is_some current.price_usd && awaiting
      then rail_missing current
      else send (confirm_fault_answer fault)

  abbrev pub confirmed_by : Job → Option SettlementRow → Instant → Route Job
  confirmed_by current row time =
      or_confirm_fault current (is_open_quote current && not (is_some row))
        (confirm_spec ports.sha256_hex (with_rail current row) time)

  abbrev pub moved_to : Job → Text → Route Job
  moved_to job full_name =
      if chain_identifiers_match ports.lower_case (some full_name) (some job.repository)
      then pure job
      else or_moved (follow_repository_move job full_name)

  -- The calls of GitHub: the repository as it is now, the staging repository, the push grant.
  -- What comes back is the job and the address of a pending invitation.
  unfoldable pub create_staging_for : Job → Job → Text → Route (Job × Option Text)
  create_staging_for current confirmed_job login = do
    let source = source_repo current.repository
    read ← try λ t. ports.read_repository t source
    facts ← or_staging read
    followed ← moved_to confirmed_job facts.full_name
    made ← try λ t. ports.create_staging t current.id source facts.sha
    staging ← or_staging made
    tried ← try λ t. ports.grant_push t staging.0 login
    invitation ← or_staging tried
    pure (attach_staging_repository followed staging.0 staging.1, invitation)

  abbrev pub notify_withdrawn : Option (Option Job) → Route (Unit {0})
  notify_withdrawn (some (some row)) =
      notify_job_parties ports row sibling_withdrawn (some row.buyer_did)
  notify_withdrawn failed = pure tt

  abbrev pub store_withdrawn : Result JobFault Job → Route (Unit {0})
  store_withdrawn (err fault) = pure tt
  store_withdrawn (ok sibling) = do row ← update_job ports sibling; notify_withdrawn row

  -- every sibling that is still open is withdrawn, a failure skipped
  unfoldable pub withdraw_siblings : List Job → Route (Unit {0})
  withdraw_siblings [] = pure tt
  withdraw_siblings (sibling ∷ siblings) = do
    if is_open_status sibling.status
        then store_withdrawn (record_withdrawn sibling false)
        else pure tt
    withdraw_siblings siblings

  abbrev pub tell_invitation : Acting → Text → Option Text → Hook
  tell_invitation gate login none row = pure tt
  tell_invitation gate login (some url) row = do
    system_row ports row.id (staging_invited url login)
    notify_job_parties ports row new_message (some gate.did)

  abbrev pub confirm_hook : List Job → Acting → Text → Option Text → Hook
  confirm_hook siblings gate login invitation row = do
    withdraw_siblings siblings
    tell_invitation gate login invitation row

  -- the route once the agreement is confirmed: the money, the agent's login, GitHub, the write
  unfoldable pub confirm_agreed : Job → Acting → List Job → Job → Route Success
  confirm_agreed current gate siblings confirmed_job = do
    settled ← ask_gate ports deposit current.id
    send_if (not settled) (deposit_gate_answer confirmed_job)
    found ← ask no_storage λ t. ports.agent_row t current.agent_did
    login ← or_send (error 409 no_verified_login) (verified_login found)
    made ← create_staging_for current confirmed_job login
    persist ports made.0 (confirm_hook siblings gate login made.1)

  unfoldable pub confirm_route : Text → Request → Route Success
  confirm_route job_id request = do
    loaded ← load_for_exchange ports job_id
    let current = loaded.job
    gate ← resolve_job_acting_party ports request current
    require_negotiation_allowed ports current gate
    siblings ← siblings_of current current.request_id
    row ← open_deposit current
    time ← now ports
    confirmed_job ← confirmed_by current row time
    confirm_agreed current gate siblings confirmed_job
