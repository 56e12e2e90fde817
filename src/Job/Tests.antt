-- ===== src/Job/Tests.antt =====
-- The hire loop on a small hire: one brief, one criterion, a price of 500.00 on the ABT rail.
use freeagents.Base.{ok, ◌≡◌, refl, true, false, none, some, List, [], ◌∷◌}
use freeagents.Base.Text.{Text, codes, trim, join}
use freeagents.Job.Status.{proposed}
use freeagents.Job.Model.{buyer, agent, abt, Criterion, Job}
use freeagents.Job.Agreement.{JobInput, opened, create_job}
use freeagents.Job.Lines.{ProposedLine}
use freeagents.Job.Price.{PriceProposal}
use freeagents.Job.Exchange.{propose, accept_criterion, accept_price}
use freeagents.Job.Event.{
  Event, propose_event, accept_event, accept_price_event, confirm_event, stage_event, redo_event,
  refuse_event, submit_event, complete_event, perform, run,
}
use freeagents.Job.Hashing.{hash_spec, normalise}
use freeagents.Base.Number.{whole}

-- stands for SHA-256
abbrev pub plain : Text → Text
plain s = s

abbrev pub input : JobInput
input = record {
  id = codes "job-1";
  buyer_did = codes "did:abt:buyer";
  agent_did = codes "did:abt:agent";
  repository = codes "owner/repo";
  brief = codes "fix it";
  request_id = none;
}

abbrev pub first_job : Job
first_job = opened (codes "sha256:fix it") input 0

abbrev pub line_a : ProposedLine
line_a = record { text = codes " tests pass "; proposed_by = codes "agent" }

abbrev pub price : PriceProposal
price = record {
  price_usd = codes "500.00";
  rail = some (codes "abt");
  delivery_window_days = none;
}

abbrev pub agreeing : List Event
agreeing =
    propose_event (line_a ∷ []) (some price) false
    ∷ accept_event (whole 0) buyer
    ∷ accept_event (whole 0) agent
    ∷ accept_price_event buyer
    ∷ accept_price_event agent
    ∷ []

abbrev pub delivering : List Event
delivering =
    confirm_event 1000
    ∷ stage_event (codes "c0ffee") 2000
    ∷ redo_event (whole 0) 3000
    ∷ refuse_event 4000
    ∷ submit_event (codes "pull/1") 5000
    ∷ complete_event (codes "beef") 6000
    ∷ []

abbrev pub criterion_a : Criterion
criterion_a = record {
  text = codes "tests pass";
  proposed_by = agent;
  accepted_by_buyer = true;
  accepted_by_agent = true;
}

-- the job that `agreeing` leads to
abbrev pub agreed_job : Job
agreed_job = record first_job {
  status = proposed;
  criteria = criterion_a ∷ [];
  price_usd = some (codes "500.00");
  rail = some abt;
  delivery_window_days = some 14;
  price_accepted_by_buyer = true;
  price_accepted_by_agent = true;
}

pub opens : create_job plain input 0 ≡ ok first_job
unfolding create_job hash_spec trim normalise join
opens = refl

agrees : run plain agreeing first_job ≡ agreed_job
unfolding run perform propose accept_criterion accept_price trim
agrees = refl
