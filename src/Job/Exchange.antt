-- ===== src/Job/Exchange.antt =====
-- The criteria and price exchange of `src/domain/job.ts`: `proposeCriteria`, `requestChanges`,
-- `acceptCriterion` and `acceptPrice`. What a request's body holds in place of a seat or a rail
-- is a text, since the code checks it.
use freeagents.Base.{
  ◌>>=◌, ◌>>◌, leb, ◌==◌, if◌then◌else◌, is_some, Result, err, ok, throw_if, length, ℕ, zero, suc,
  Bool, true, not, Option, List, [], ◌∷◌,
}
use freeagents.Job.Status.{JobStatus, draft, proposed}
use freeagents.Job.Model.{
  Party, buyer, agent, Criterion, Job, no_proposal, no_price_yet, no_criterion, change_its_terms,
  propose_criteria, request_changes, accept_a_criterion, accept_the_price, JobFault, job_error,
  cannot, deposit_settled, validate,
}
use freeagents.Base.Number.{Number, whole}
use freeagents.Job.Lines.{ProposedLine, revise_lines}
use freeagents.Job.Price.{PriceProposal, PriceFields, price_fields, revise_price}

-- The status after a proposal: a draft crosses to `proposed`, and a proposed job stays.
abbrev pub proposal_status : JobStatus → Result JobFault JobStatus
proposal_status draft = validate draft proposed
proposal_status proposed = ok proposed
proposal_status s = err (cannot s propose_criteria)

abbrev pub with_terms : Job → JobStatus → List Criterion → PriceFields → Job
with_terms job s lines price = record job {
  status = s;
  criteria = lines;
  price_usd = price.price_usd;
  rail = price.rail;
  delivery_window_days = price.delivery_window_days;
  price_accepted_by_buyer = price.price_accepted_by_buyer;
  price_accepted_by_agent = price.price_accepted_by_agent;
}

-- `proposeCriteria`
unfoldable pub propose : Job → List ProposedLine → Option PriceProposal → Bool → Result JobFault Job
unfolding revise_lines revise_price validate
propose job input price settled = do
  throw_if settled (deposit_settled change_its_terms)
  throw_if (length input == 0) (job_error no_proposal)
  lines ← revise_lines job.criteria input
  fields ← revise_price (price_fields job) price
  s ← proposal_status job.status
  ok (with_terms job s lines fields)

-- `!Number.isInteger(index) || index < 0 || index >= criteria.length` is refused.
abbrev pub in_range : Number → ℕ → Result JobFault ℕ
in_range (whole i) n = if leb n i then err (job_error (no_criterion (whole i))) else ok i
in_range i n = err (job_error (no_criterion i))

abbrev pub accept_line : Party → Criterion → Criterion
accept_line buyer c = record c { accepted_by_buyer = true }
accept_line agent c = record c { accepted_by_agent = true }

-- `criteria.map((criterion, i) => ...)`: the line at the index alone changes.
unfoldable pub accept_at : ℕ → Party → List Criterion → List Criterion
accept_at i party [] = []
accept_at zero party (c ∷ cs) = accept_line party c ∷ cs
accept_at (suc i) party (c ∷ cs) = c ∷ accept_at i party cs

-- `if (job.status !== 'proposed') throw new JobTransitionError(job.status, action)`
abbrev pub only_proposed : JobStatus → JobFault → Result JobFault (Unit {0})
only_proposed proposed e = ok tt
only_proposed s e = err e

-- `acceptCriterion`
unfoldable pub accept_criterion : Job → Number → Party → Result JobFault Job
unfolding accept_at
accept_criterion job index party = do
  only_proposed job.status (cannot job.status accept_a_criterion)
  i ← in_range index (length job.criteria)
  ok (record job { criteria = accept_at i party job.criteria })

abbrev pub accept_price_line : Party → Job → Job
accept_price_line buyer job = record job { price_accepted_by_buyer = true }
accept_price_line agent job = record job { price_accepted_by_agent = true }

-- `acceptPrice`
unfoldable pub accept_price : Job → Party → Result JobFault Job
accept_price job party = do
  only_proposed job.status (cannot job.status accept_the_price)
  throw_if (not (is_some job.price_usd)) (job_error no_price_yet)
  ok (accept_price_line party job)

-- `requestChanges` only checks that the job is open for negotiation.
unfoldable pub request_changes_on : Job → Result JobFault Job
request_changes_on job = do only_proposed job.status (cannot job.status request_changes); ok job
