-- ===== src/Server/Exchange.antt =====
-- The skeletons that the routes of a job share in `src/api/app.ts`: `applyAndPersist`,
-- `runExchange`, `requireSignedParty` and `runPartyExchange`.
use freeagents.Base.{
  Result, err, ok, ℕ, Bool, true, false, not, ◌||◌, Option, none, some, List, [], ◌∷◌,
}
use freeagents.Base.Text.{Text, text_eq}
use freeagents.Base.Number.{Number, whole}
use freeagents.Job.Model.{Party, buyer, agent, Job, JobFault, job_error}
use freeagents.Server.Ports.{
  Leg, not_found, signature_not_a_party, only_seats, job_fault, unpaid, Failure, Request, Ports,
  Success, job_row,
}
use freeagents.Server.Route.{
  Route, ◌>>=◌, ◌>>◌, error, pure, send, or_send, ask, send_if, thrown, no_storage, update_job,
}
use freeagents.Server.Parties.{Acting, resolve_job_acting_party, require_negotiation_allowed}
use freeagents.Server.Clocks.{Loaded, load_for_exchange}
use freeagents.Payment.Numeral.{PaymentFault}

-- the status of a domain error: a `JobError` is a bad request, any other a conflict
abbrev pub fault_status : JobFault → ℕ
fault_status (job_error complaint) = 400
fault_status fault = 409

abbrev pub fault_answer : JobFault → Failure
fault_answer fault = error (fault_status fault) (job_fault fault)

abbrev pub or_fault : Result JobFault Job → Route Job
or_fault (err fault) = send (fault_answer fault)
or_fault (ok job) = pure job

-- `PaymentGateCheck`: the leg that the route asks for, and the answer while it has not settled
pub record PaymentGate : Type 0 where
  pub leg : Leg
  pub unsettled : Job → Failure

-- the hook that runs behind the write
abbrev pub Hook : Type 0
Hook = Job → Route (Unit {0})

abbrev pub no_hook : Hook
no_hook job = pure tt

abbrev pub is_named : Text → Job → Bool
is_named did job = text_eq did job.buyer_did || text_eq did job.agent_did

abbrev pub is_stranger : Option Text → Job → Bool
is_stranger none job = false
is_stranger (some did) job = not (is_named did job)

abbrev pub same_party : Party → Party → Bool
same_party buyer buyer = true
same_party agent agent = true
same_party a b = false

-- `allowed.includes(party)`
abbrev pub is_allowed : List Party → Party → Bool
is_allowed [] party = false
is_allowed (p ∷ ps) party = same_party p party || is_allowed ps party

-- what `requireSignedParty` answers: the job as loaded, and who acts
pub record Gate : Type 0 where
  pub loaded : Loaded
  pub acting : Acting

module _ (ports : Ports) where
  abbrev pub require_paid : Option PaymentGate → Job → Job → Route (Unit {0})
  require_paid none current updated = pure tt
  require_paid (some gate) current updated = do
    settled ← ask no_storage λ t. ports.gate t gate.leg current.id
    send_if (not settled) (gate.unsettled updated)

  -- `jobRepo.update` with its 503 and its 404, the hook, and the 200 with the row
  unfoldable pub persist : Job → Hook → Route Success
  persist updated on_persisted = do
    stored ← update_job ports updated
    found ← or_send no_storage stored
    row ← or_send (error 404 not_found) found
    on_persisted row
    pure (job_row row)

  -- `applyAndPersist`
  unfoldable pub apply_and_persist :
      Job → (Job → Result JobFault Job) → Option PaymentGate → Hook → Route Success
  apply_and_persist current apply gate on_persisted = do
    updated ← or_fault (apply current)
    require_paid gate current updated
    persist updated on_persisted

  -- `runExchange`
  unfoldable pub run_exchange :
      Text → (Job → Result JobFault Job) → Option Text → Hook → Route Success
  run_exchange job_id apply signer_did on_persisted = do
    current ← load_for_exchange ports job_id
    send_if (is_stranger signer_did current.job) (error 403 signature_not_a_party)
    apply_and_persist current.job apply none on_persisted

  -- who acts on a loaded job, where that seat may
  abbrev pub gated : Request → List Party → Loaded → Route Gate
  gated request allowed current = do
    gate ← resolve_job_acting_party ports request current.job
    send_if (not (is_allowed allowed gate.party)) (error 403 (only_seats allowed))
    pure (record { loaded = current; acting = gate })

  -- `requireSignedParty`
  unfoldable pub require_signed_party : Text → Request → List Party → Route Gate
  require_signed_party job_id request allowed = do
    current ← load_for_exchange ports job_id
    gated request allowed current

  -- `runPartyExchange`, which no caller gives a payment gate
  unfoldable pub run_party_exchange :
      Text → Request → (Job → Party → Result JobFault Job) → Route Success
  run_party_exchange job_id request apply = do
    current ← load_for_exchange ports job_id
    gate ← resolve_job_acting_party ports request current.job
    require_negotiation_allowed ports current.job gate
    apply_and_persist current.job (λ job. apply job gate.party) none no_hook

-- The 402 with what the leg still costs; a price that cannot be read throws.
abbrev pub owed_answer : Leg → Result PaymentFault Text → Failure
owed_answer leg (ok usd) = error 402 (unpaid leg (some usd))
owed_answer leg (err fault) = thrown

abbrev pub unpaid_answer : Leg → (Text → Number → Result PaymentFault Text) → Job → Failure
unpaid_answer leg owed job = elim job.price_usd [
  | none ↦ error 402 (unpaid leg none)
  | some price ↦ owed_answer leg (owed price (whole job.deposit_percent))
]
