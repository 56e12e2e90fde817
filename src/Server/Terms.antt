-- ===== src/Server/Terms.antt =====
-- The routes before a hire is confirmed in `src/api/app.ts`: criteria, request-changes, the two
-- accepts, withdraw and decline.
use freeagents.Base.{
  if◌then◌else◌, is_some, length, ℕ, zero, suc, Bool, true, false, not, ◌&&◌, Option, none, some,
  List, [], ◌∷◌, map,
}
use freeagents.Base.Text.{Text, codes}
use freeagents.Base.Number.{Number, whole}
use freeagents.Job.Model.{Party, buyer, agent, Job}
use freeagents.Job.Lines.{ProposedLine}
use freeagents.Job.Price.{PriceProposal, parse_rail}
use freeagents.Job.Exchange.{propose, accept_criterion, accept_price, request_changes_on}
use freeagents.Job.Lifecycle.{record_withdrawn, decline_job}
use freeagents.Server.Ports.{
  deposit, HeldAction, change_terms, withdraw_it, decline_it, bad_body, bad_price_body, below_floor,
  quote_sent, quote_changed, AgentRow, Request, Ports, Success,
}
use freeagents.Server.Route.{Route, ◌>>=◌, ◌>>◌, error, pure, or_send, ask, send_if, no_storage}
use freeagents.Server.Parties.{Acting, resolve_job_acting_party, require_negotiation_allowed}
use freeagents.Server.Holds.{is_proposed, leg_status_eligible, refuse_when_leg_held, ask_gate}
use freeagents.Server.Notices.{system_row, notify_job_parties}
use freeagents.Server.Clocks.{load_for_exchange}
use freeagents.Server.Exchange.{
  Hook, no_hook, apply_and_persist, require_signed_party, run_party_exchange,
}

-- A field of a request's body: `wrong` is a value of another type.
pub data Field (A : Type 0) : Type 0 where
  absent wrong : Field A
  given : A → Field A

-- The body of a proposal; lines that are not all of two texts are `none`.
pub record CriteriaBody : Type 0 where
  pub criteria : Option (List ProposedLine)
  pub price_usd : Field Text
  pub rail : Field Text
  pub delivery_window_days : Field Number

abbrev pub is_absent : {A : Type 0} → Field A → Bool
is_absent absent = true
is_absent field = false

abbrev pub is_price_named : CriteriaBody → Bool
is_price_named body = not (is_absent body.price_usd && is_absent body.rail)

-- The rail that a price names; `none` is a refusal, `some none` no rail.
abbrev pub read_rail : Field Text → Option (Option Text)
read_rail absent = some none
read_rail wrong = none
read_rail (given name) = if is_some (parse_rail name) then some (some name) else none

abbrev pub read_days : Field Number → Option (Option ℕ)
read_days absent = some none
read_days (given (whole zero)) = none
read_days (given (whole (suc n))) = some (some (suc n))
read_days other_field = none

abbrev pub read_text : Field Text → Option Text
read_text (given s) = some s
read_text field = none

abbrev pub proposal_of :
    Option Text → Option (Option Text) → Option (Option ℕ) → Option PriceProposal
proposal_of (some price) (some rail) (some n) =
    some (record { price_usd = price; rail = rail; delivery_window_days = n })
proposal_of price rail n = none

-- The shape test of a named price; what it lets pass is the price proposed.
abbrev pub read_price : CriteriaBody → Option PriceProposal
read_price body =
    proposal_of (read_text body.price_usd) (read_rail body.rail)
      (read_days body.delivery_window_days)

abbrev pub seat_text : Party → Text
seat_text buyer = codes "buyer"
seat_text agent = codes "agent"

-- Each line is credited to the seat that sends it, whatever the body says.
abbrev pub attributed : Party → ProposedLine → ProposedLine
attributed party line = record line { proposed_by = seat_text party }

abbrev pub floor_of : Option AgentRow → Option Text
floor_of none = none
floor_of (some row) = row.floor_price_usd

-- `assertPriceAboveFloor` of `src/domain/job.ts`, as the test whether it throws
unfoldable pub is_below_floor : (Text → Text → Bool) → Text → Option Text → Bool
is_below_floor less price none = false
is_below_floor less price (some bottom) = less price bottom

-- the price of a body, with the 400 for one that is malformed
abbrev pub price_of_body : CriteriaBody → Route (Option PriceProposal)
price_of_body body =
    if not (is_price_named body)
    then pure none
    else do price ← or_send (error 400 bad_price_body) (read_price body); pure (some price)

module _ (ports : Ports) where
  -- whether a proposed job's deposit has settled; a leg that is held stops the route
  abbrev pub deposit_settled_at_proposed : Job → HeldAction → Route Bool
  deposit_settled_at_proposed job action = if not (is_proposed job.status) then pure false else do
    settled ← ask_gate ports deposit job.id
    if settled then pure true else do refuse_when_leg_held ports deposit job.id action; pure false

  abbrev pub check_floor : Job → Option PriceProposal → Route (Unit {0})
  check_floor job none = pure tt
  check_floor job (some price) = do
    row ← ask no_storage λ t. ports.agent_row t job.agent_did
    send_if (is_below_floor ports.is_less price.price_usd (floor_of row)) (error 400 below_floor)

  -- the system row and the notices of a price that was proposed
  abbrev pub quote_hook : Acting → Option PriceProposal → Hook
  quote_hook gate none row = pure tt
  quote_hook gate (some price) row = do
    system_row ports row.id
        (quote_sent price.price_usd price.rail price.delivery_window_days (length row.criteria))
    notify_job_parties ports row quote_changed (some gate.did)

  -- `POST /jobs/:jobId/criteria`
  unfoldable pub criteria_route : Text → Request → CriteriaBody → Route Success
  criteria_route job_id request body = do
    input ← or_send (error 400 bad_body) body.criteria
    price ← price_of_body body
    current ← load_for_exchange ports job_id
    gate ← resolve_job_acting_party ports request current.job
    require_negotiation_allowed ports current.job gate
    settled ← deposit_settled_at_proposed current.job change_terms
    check_floor current.job price
    apply_and_persist ports current.job
        (λ job. propose job (map (attributed gate.party) input) price settled) none
        (quote_hook gate price)

  -- `POST /jobs/:jobId/request-changes`
  unfoldable pub request_changes_route : Text → Request → Route Success
  request_changes_route job_id request =
      run_party_exchange ports job_id request (λ job party. request_changes_on job)

  -- `POST /jobs/:jobId/criteria/:index/accept`
  unfoldable pub accept_route : Text → Request → Number → Route Success
  accept_route job_id request index =
      run_party_exchange ports job_id request (λ job party. accept_criterion job index party)

  -- `POST /jobs/:jobId/price/accept`
  unfoldable pub accept_price_route : Text → Request → Route Success
  accept_price_route job_id request = run_party_exchange ports job_id request accept_price

  -- `POST /jobs/:jobId/withdraw`
  unfoldable pub withdraw_route : Text → Request → Route Success
  withdraw_route job_id request = do
    gate ← require_signed_party ports job_id request (buyer ∷ [])
    settled ← deposit_settled_at_proposed gate.loaded.job withdraw_it
    apply_and_persist ports gate.loaded.job (λ job. record_withdrawn job settled) none no_hook

  abbrev pub refuse_decline_when_held : Job → Bool → Route (Unit {0})
  refuse_decline_when_held job settled =
      if not settled && leg_status_eligible deposit job.status
      then refuse_when_leg_held ports deposit job.id decline_it
      else pure tt

  -- `POST /jobs/:jobId/decline`
  unfoldable pub decline_route : Text → Request → Route Success
  decline_route job_id request = do
    gate ← require_signed_party ports job_id request (agent ∷ [])
    require_negotiation_allowed ports gate.loaded.job gate.acting
    settled ← ask_gate ports deposit gate.loaded.job.id
    refuse_decline_when_held gate.loaded.job settled
    apply_and_persist ports gate.loaded.job (λ job. decline_job job settled) none no_hook
