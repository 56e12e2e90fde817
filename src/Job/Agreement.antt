-- ===== src/Job/Agreement.antt =====
-- The operations of `src/domain/job.ts` up to confirm: `createJob`, the criteria exchange and
-- `confirmSpec`.
use freeagents.Base.{
  ℕ, Bool, true, false, not, ◌||◌, [], ◌∷◌, ◌++◌, map, Option, none, some, Result, ok, err, ◌>>◌,
  ◌==◌, if◌then◌else◌, length, count, is_some,
}
use freeagents.Base.Text.{Text, codes, text_eq, trim, join}
use freeagents.Base.Decimal.{show}
use freeagents.Job.Status.{draft, confirmed}
use freeagents.Job.Model.{
  Instant, Rail, abt, usdc, abt_eth, Criterion, Job, no_brief, nothing_agreed, outstanding,
  no_agreed_price, price_not_accepted, JobFault, job_error, job_price_error, validate,
}
use freeagents.Job.Hashing.{newline, hash_spec}

abbrev pub deposit_percent_v1 : ℕ
deposit_percent_v1 = 25

abbrev pub redo_allowance_v1 : ℕ
redo_allowance_v1 = 1

abbrev pub default_delivery_window_days : ℕ
default_delivery_window_days = 14

pub record JobInput : Type 0 where
  pub id : Text
  pub buyer_did : Text
  pub agent_did : Text
  pub repository : Text
  pub brief : Text
  pub request_id : Option Text

-- `text.trim() === ''`
abbrev pub is_blank : Text → Bool
is_blank s = text_eq (trim s) []

-- A new job. What the exchange and the later operations write is empty.
abbrev pub opened : Text → JobInput → Instant → Job
opened brief_hash input now = record {
  id = input.id;
  buyer_did = input.buyer_did;
  agent_did = input.agent_did;
  request_id = input.request_id;
  repository = input.repository;
  brief = input.brief;
  brief_hash = brief_hash;
  criteria = [];
  price_usd = none;
  rail = none;
  price_accepted_by_buyer = false;
  price_accepted_by_agent = false;
  deposit_percent = deposit_percent_v1;
  redo_allowance = redo_allowance_v1;
  redo_used_count = 0;
  redo_requested_criterion_index = none;
  redo_requested_at = none;
  redo_refused_at = none;
  staged_lapse_extension_days = 0;
  delivery_window_days = none;
  confirmed_spec_hash = none;
  status = draft;
  pull_request_url = none;
  merge_commit = none;
  merged_at = none;
  confirmed_at = none;
  submitted_at = none;
  staged_at = none;
  staged_commit = none;
  staging_repo = none;
  base_commit = none;
  staging_repo_delete_after = none;
  cited_close_criterion_index = none;
  cited_close_reason_text = none;
  cited_close_author_did = none;
  cited_close_at = none;
  deemed_completed_at = none;
  deadline = none;
  created_at = now;
}

-- `createJob`
unfoldable pub create_job : (Text → Text) → JobInput → Instant → Result JobFault Job
create_job sha256_hex input now =
    if is_blank input.brief
    then err (job_error no_brief)
    else ok (opened (hash_spec sha256_hex input.brief) input now)

pub data MissingParty : Type 0 where
  only_buyer only_agent both : MissingParty

pub data AgreementGap : Type 0 where
  no_criteria no_price : AgreementGap
  criteria_outstanding : ℕ → ℕ → AgreementGap
  price_unaccepted : MissingParty → AgreementGap

abbrev pub is_outstanding : Criterion → Bool
is_outstanding c = not c.accepted_by_buyer || not c.accepted_by_agent

-- the last test of `agreementGap`
abbrev pub price_gap : Bool → Bool → Option AgreementGap
price_gap true true = none
price_gap false false = some (price_unaccepted both)
price_gap false true = some (price_unaccepted only_buyer)
price_gap true false = some (price_unaccepted only_agent)

unfoldable pub agreement_gap : Job → Option AgreementGap
agreement_gap job =
    let open_lines = count is_outstanding job.criteria in
    if length job.criteria == 0
    then some no_criteria
    else if not (open_lines == 0)
    then some (criteria_outstanding open_lines (length job.criteria))
    else if not (is_some job.price_usd)
    then some no_price
    else price_gap job.price_accepted_by_buyer job.price_accepted_by_agent

abbrev pub rail_name : Rail → Text
rail_name abt = codes "abt"
rail_name usdc = codes "usdc"
rail_name abt_eth = codes "abt_eth"

-- `${value}` of a field that may be `null`
abbrev pub or_null : Option Text → Text
or_null none = codes "null"
or_null (some s) = s

abbrev pub option_map {ℓ κ} : {A : Type ℓ} {B : Type κ} → (A → B) → Option A → Option B
option_map f none = none
option_map f (some a) = some (f a)

abbrev pub criterion_text : Criterion → Text
criterion_text c = c.text

-- The text that `confirmSpec` hashes: the criteria in order, then the five lines of the price.
unfoldable pub spec_text : Job → Text
spec_text job = join (newline ∷ []) (
    map criterion_text job.criteria
    ++ (codes "price:" ++ or_null job.price_usd)
      ∷ (codes "rail:" ++ or_null (option_map rail_name job.rail))
      ∷ (codes "deposit:" ++ show job.deposit_percent)
      ∷ (codes "redo:" ++ show job.redo_allowance)
      ∷ (codes "window:" ++ or_null (option_map show job.delivery_window_days))
      ∷ [])

-- The tests of `confirmSpec` behind the transition: the gap, and the rail, which is asked for
-- where a missing price is.
abbrev pub confirm_gate : Option AgreementGap → Option Rail → Result JobFault (Unit {0})
confirm_gate (some no_criteria) rail = err (job_error nothing_agreed)
confirm_gate (some (criteria_outstanding k n)) rail = err (job_error (outstanding k n))
confirm_gate (some no_price) rail = err (job_price_error no_agreed_price)
confirm_gate (some (price_unaccepted p)) none = err (job_price_error no_agreed_price)
confirm_gate (some (price_unaccepted p)) (some r) = err (job_price_error price_not_accepted)
confirm_gate none none = err (job_price_error no_agreed_price)
confirm_gate none (some r) = ok tt

unfoldable pub confirm_spec : (Text → Text) → Job → Instant → Result JobFault Job
unfolding agreement_gap
confirm_spec sha256_hex job now = do
  validate job.status confirmed
  confirm_gate (agreement_gap job) job.rail
  ok (record job {
    status = confirmed;
    confirmed_spec_hash = some (hash_spec sha256_hex (spec_text job));
    confirmed_at = some now;
  })
