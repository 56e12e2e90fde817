-- ===== src/Job/Perform.antt =====
-- Every successful call of an operation is a step of the relation.
use mathlib.Core.Path.{subst}
use freeagents.Base.{
  leb, ◌==◌, is_some, Result, ok, ◌>>=◌, ◌>>◌, throw_if, >>=-eq-ok, throw_if-eq-ok, ok-injective,
  length, ◌≡◌, refl, Bool, true, false, not, Option, List, arith,
}
use freeagents.Base.Text.{Text}
use freeagents.Job.Status.{
  JobStatus, confirmed, staged, redo_requested, submitted, completed, declined, closed_unmerged,
  stale, withdrawn, staged_declined, cited_closed,
}
use freeagents.Job.Model.{Instant, Party, Job, JobFault, validate}
use freeagents.Job.Agreement.{is_blank, agreement_gap, confirm_gate, confirm_spec}
use freeagents.Job.Lines.{ProposedLine, revise_lines}
use freeagents.Job.Price.{PriceProposal, price_fields, revise_price}
use freeagents.Job.Exchange.{
  proposal_status, propose, in_range, only_proposed, accept_criterion, accept_price,
  request_changes_on,
}
use freeagents.Job.Lifecycle.{
  stage_work, only_confirmed, follow_repository_move, request_redo, only_redo_requested,
  refuse_redo, record_staged_declined, submit_pull_request, record_closed_unmerged,
  record_cited_close, record_stale, record_withdrawn, complete_job, decline_job,
}
use freeagents.Job.Event.{
  Event, propose_event, changes_event, accept_event, accept_price_event, confirm_event,
  attach_event, follow_event, stage_event, redo_event, refuse_event, staged_declined_event,
  submit_event, closed_unmerged_event, cited_event, stale_event, withdraw_event, complete_event,
  decline_event, lapse_event, completed_part, perform,
}
use freeagents.Job.Edges.{validate-eq-ok}
use freeagents.Job.Lapses.{apply_lapses-Step}
use freeagents.Job.Step.{
  is_status_only, Acceptance, line_by, price_by, StepBy, StepBy-Step, Step, idle, proposes, accepts,
  accepts_price, confirms, attaches, follows, stages, asks_redo, refuses_redo, submits, cites,
  completes, moves,
}
use freeagents.Base.Number.{Number}
use freeagents.Job.Guards.{
  in_range-lt, only_proposed-eq, only_confirmed-eq, only_redo_requested-eq, proposal_status-eq,
  confirm_gate-eq, confirmed_source,
}

module _ {may : Acceptance → Type 0} (sha : Text → Text) (job : Job) where
  -- a step to the job that an operation answers
  answers :
      {a b : Job}
      → StepBy may sha job a
      → ◌≡◌ {A = Result JobFault Job} (ok a) (ok b)
      → StepBy may sha job b
  answers step e = subst (StepBy may sha job) (ok-injective JobFault e) step

  -- The operations that write the status alone, behind the table's check.
  moves-Step :
      (to : JobStatus) {b : Job}
      → is_status_only to ≡ true
      → (validate job.status to >> ok (record job { status = to })) ≡ ok b
      → StepBy may sha job b
  moves-Step to only h =
      let (edge, e) = validate-eq-ok job.status to (ok (record job { status = to })) h in
      answers (moves to edge only) e

  propose-Step :
      (input : List ProposedLine) (price : Option PriceProposal) (settled : Bool) {b : Job}
      → propose job input price settled ≡ ok b
      → StepBy may sha job b
  unfolding propose
  propose-Step input price settled h =
      let (u, eu, h₁) = >>=-eq-ok (throw_if settled _) _ h in
      let (v, ev, h₂) = >>=-eq-ok (throw_if (length input == 0) _) _ h₁ in
      let (lines, el, h₃) = >>=-eq-ok (revise_lines job.criteria input) _ h₂ in
      let (fields, ef, h₄) = >>=-eq-ok (revise_price (price_fields job) price) _ h₃ in
      let (s, es, h₅) = >>=-eq-ok (proposal_status job.status) _ h₄ in
      let (unsettled, target) = proposal_status-eq job.status es in
      answers (proposes input price lines fields unsettled el ef) (rw target at h₅)

  accept-Step :
      (index : Number) (party : Party) {b : Job}
      → may (line_by party)
      → accept_criterion job index party ≡ ok b
      → StepBy may sha job b
  unfolding accept_criterion
  accept-Step index party m h =
      let (u, eu, h₁) = >>=-eq-ok (only_proposed job.status _) _ h in
      let (i, ei, h₂) = >>=-eq-ok (in_range index (length job.criteria)) _ h₁ in
      answers (accepts i party m (only_proposed-eq _ _ eu) (in_range-lt index _ ei)) h₂

  accept_price-Step :
      (party : Party) {b : Job}
      → may (price_by party)
      → accept_price job party ≡ ok b
      → StepBy may sha job b
  unfolding accept_price
  accept_price-Step party m h =
      let (u, eu, h₁) = >>=-eq-ok (only_proposed job.status _) _ h in
      let (v, ev, h₂) = >>=-eq-ok (throw_if (not (is_some job.price_usd)) _) _ h₁ in
      answers
        (accepts_price party m (only_proposed-eq _ _ eu) (ground (arith, throw_if-eq-ok _ _ ev))) h₂

  changes-Step : {b : Job} → request_changes_on job ≡ ok b → StepBy may sha job b
  unfolding request_changes_on
  changes-Step h = let (u, eu, e) = >>=-eq-ok (only_proposed job.status _) _ h in answers idle e

  confirm-Step : (now : Instant) {b : Job} → confirm_spec sha job now ≡ ok b → StepBy may sha job b
  unfolding confirm_spec
  confirm-Step now h =
      let (edge, h₁) = validate-eq-ok job.status confirmed _ h in
      let (u, eu, e) = >>=-eq-ok (confirm_gate (agreement_gap job) job.rail) _ h₁ in
      let (gap, railed) = confirm_gate-eq (agreement_gap job) job.rail eu in
      answers (confirms now (confirmed_source edge) gap railed) e

  follow-Step :
      (name : Text) {b : Job} → follow_repository_move job name ≡ ok b → StepBy may sha job b
  unfolding follow_repository_move
  follow-Step name h =
      let (u, eu, e) = >>=-eq-ok (only_confirmed job.status _) _ h in
      answers (follows name (only_confirmed-eq _ _ eu)) e

  stage-Step :
      (commit : Text) (now : Instant) {b : Job}
      → stage_work job commit now ≡ ok b
      → StepBy may sha job b
  unfolding stage_work
  stage-Step commit now h =
      let (edge, e) = validate-eq-ok job.status staged _ h in answers (stages commit now edge) e

  redo-Step :
      (index : Number) (now : Instant) {b : Job}
      → request_redo job index now ≡ ok b
      → StepBy may sha job b
  unfolding request_redo
  redo-Step index now h =
      let (edge, h₁) = validate-eq-ok job.status redo_requested _ h in
      let (i, ei, h₂) = >>=-eq-ok (in_range index (length job.criteria)) _ h₁ in
      let (u, eu, h₃) = >>=-eq-ok (throw_if (leb job.redo_allowance job.redo_used_count) _) _ h₂ in
      let spent = throw_if-eq-ok _ _ eu in
      answers (asks_redo i now edge (in_range-lt index _ ei) (ground arith)) h₃

  refuse-Step : (now : Instant) {b : Job} → refuse_redo job now ≡ ok b → StepBy may sha job b
  unfolding refuse_redo
  refuse-Step now h =
      let (u, eu, h₁) = >>=-eq-ok (only_redo_requested job.status _) _ h in
      let (edge, e) = validate-eq-ok job.status staged _ h₁ in
      answers (refuses_redo now (only_redo_requested-eq _ _ eu)) e

  submit-Step :
      (url : Text) (now : Instant) {b : Job}
      → submit_pull_request job url now ≡ ok b
      → StepBy may sha job b
  unfolding submit_pull_request
  submit-Step url now h =
      let (edge, e) = validate-eq-ok job.status submitted _ h in answers (submits url now edge) e

  cited-Step :
      (index : Number) (reason : Text) (now : Instant) {b : Job}
      → record_cited_close job index reason now ≡ ok b
      → StepBy may sha job b
  unfolding record_cited_close
  cited-Step index reason now h =
      let (edge, h₁) = validate-eq-ok job.status cited_closed _ h in
      let (i, ei, h₂) = >>=-eq-ok (in_range index (length job.criteria)) _ h₁ in
      let (u, eu, h₃) = >>=-eq-ok (throw_if (is_blank reason) _) _ h₂ in
      answers (cites i reason now edge (in_range-lt index _ ei) (throw_if-eq-ok _ _ eu)) h₃

  complete-Step :
      (commit : Text) (time : Instant) {b : Job}
      → (complete_job job commit time >>= completed_part) ≡ ok b
      → StepBy may sha job b
  unfolding complete_job
  complete-Step commit time h =
      let (pair, ep, h₁) = >>=-eq-ok (complete_job job commit time) completed_part h in
      let (edge, e) = validate-eq-ok job.status completed _ ep in
      answers (completes commit time edge) (rw (← ok-injective JobFault e) at h₁)

  withdraw-Step :
      (settled : Bool) {b : Job} → record_withdrawn job settled ≡ ok b → StepBy may sha job b
  unfolding record_withdrawn
  withdraw-Step true h = let (edge, e) = validate-eq-ok job.status withdrawn _ h in cc
  withdraw-Step false h = moves-Step withdrawn refl h

  decline-Step : (settled : Bool) {b : Job} → decline_job job settled ≡ ok b → StepBy may sha job b
  unfolding decline_job
  decline-Step true h = let (edge, e) = validate-eq-ok job.status declined _ h in cc
  decline-Step false h = moves-Step declined refl h

-- whether a call is an acceptance
abbrev pub IsAcceptance : Event → Acceptance → Type 0
IsAcceptance (accept_event index party) a = line_by party ≡ a
IsAcceptance (accept_price_event party) a = price_by party ≡ a
IsAcceptance e a = ⊥

-- What a call makes of a job, if it does not throw, is a step, by an acceptance only if the call is
-- that acceptance.
pub perform-StepBy :
    (sha : Text → Text) (e : Event) (job : Job) {b : Job}
    → perform sha e job ≡ ok b
    → StepBy (IsAcceptance e) sha job b
unfolding perform
perform-StepBy sha (propose_event input price settled) job h =
    propose-Step sha job input price settled h
perform-StepBy sha changes_event job h = changes-Step sha job h
perform-StepBy sha (accept_event index party) job h = accept-Step sha job index party refl h
perform-StepBy sha (accept_price_event party) job h = accept_price-Step sha job party refl h
perform-StepBy sha (confirm_event now) job h = confirm-Step sha job now h
perform-StepBy sha (attach_event staging base) job h = answers sha job (attaches staging base) h
perform-StepBy sha (follow_event name) job h = follow-Step sha job name h
perform-StepBy sha (stage_event commit now) job h = stage-Step sha job commit now h
perform-StepBy sha (redo_event index now) job h = redo-Step sha job index now h
perform-StepBy sha (refuse_event now) job h = refuse-Step sha job now h
perform-StepBy sha staged_declined_event job h =
    moves-Step sha job staged_declined refl (unfold record_staged_declined in h)
perform-StepBy sha (submit_event url now) job h = submit-Step sha job url now h
perform-StepBy sha closed_unmerged_event job h =
    moves-Step sha job closed_unmerged refl (unfold record_closed_unmerged in h)
perform-StepBy sha (cited_event index reason now) job h = cited-Step sha job index reason now h
perform-StepBy sha stale_event job h = moves-Step sha job stale refl (unfold record_stale in h)
perform-StepBy sha (withdraw_event settled) job h = withdraw-Step sha job settled h
perform-StepBy sha (complete_event commit time) job h = complete-Step sha job commit time h
perform-StepBy sha (decline_event settled) job h = decline-Step sha job settled h
perform-StepBy sha (lapse_event now settled settled_at) job h =
    answers sha job (apply_lapses-Step sha job now settled settled_at) h

pub perform-Step :
    (sha : Text → Text) (e : Event) (job : Job) {b : Job}
    → perform sha e job ≡ ok b
    → Step sha job b
perform-Step sha e job h = StepBy-Step (perform-StepBy sha e job h)
