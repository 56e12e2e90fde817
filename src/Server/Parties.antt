-- ===== src/Server/Parties.antt =====
-- Who a request may act for: `resolveActingParty`, `partyForDid`, `resolveJobActingParty`,
-- `requireNegotiationAllowed` and `requireThreadAccess` of `src/api/app.ts`.
use freeagents.Base.{if◌then◌else◌, Bool, true, false, not, Option, none, some}
use freeagents.Base.Text.{Text, text_eq}
use freeagents.Evidence.Keys.{is_agent_operator}
use freeagents.Job.Model.{Party, buyer, agent, Job}
use freeagents.Server.Ports.{
  Refusal, sign_in, not_a_party, signature_not_a_party, owner_has_not_allowed, AgentRow,
  SessionMethod, Request, Ports,
}
use freeagents.Server.Route.{Route, ◌>>=◌, error, pure, try, or_send, ask, send_if, no_storage}

-- `partyForDid`, given the job's agent row; `none` for the row is a read that failed or found none
abbrev pub seat_of : Job → Text → Option AgentRow → Option Party
seat_of job did none = none
seat_of job did (some row) = if is_agent_operator did row.operator_did then some agent else none

abbrev pub found_row : Option (Option AgentRow) → Option AgentRow
found_row none = none
found_row (some row) = row

abbrev pub is_own_key : Party → Text → Text → Bool
is_own_key buyer did agent_did = false
is_own_key agent did agent_did = text_eq did agent_did

abbrev pub may_negotiate_flag : Option AgentRow → Bool
may_negotiate_flag none = false
may_negotiate_flag (some row) = row.negotiates_on_owners_behalf

-- `agentMayNegotiate` of `src/domain/agent.ts`
unfoldable pub agent_may_negotiate : Bool → Bool → Bool
agent_may_negotiate caller_is_agent_own_key negotiates =
    if not caller_is_agent_own_key then true else negotiates

-- `partyMayAccessThread` of `src/domain/message.ts`
unfoldable pub party_may_access_thread : Party → Bool → Bool → Bool
party_may_access_thread buyer own_key negotiates = true
party_may_access_thread agent own_key negotiates = agent_may_negotiate own_key negotiates

-- the wording of a 403: a signature is named only if one authenticated the request
abbrev pub stranger_refusal : Option Text → Refusal
stranger_refusal none = not_a_party
stranger_refusal (some did) = signature_not_a_party

pub record Acting : Type 0 where
  pub did : Text
  pub party : Party

module _ (ports : Ports) where
  abbrev pub provision_if_missing : SessionMethod → Text → Option Text → Route (Option Text)
  provision_if_missing method subject none = ask no_storage λ t. ports.provision t method subject
  provision_if_missing method subject (some did) = pure (some did)

  -- the part of `resolveActingParty` on a live session
  abbrev pub session_did : Option (Text × SessionMethod) → Route (Option Text)
  session_did none = pure none
  session_did (some (subject, method)) = do
    account ← ask no_storage λ t. ports.account_did t method subject
    provision_if_missing method subject account

  abbrev pub signer_or_session : Option Text → Option (Text × SessionMethod) → Route (Option Text)
  signer_or_session (some did) session = pure (some did)
  signer_or_session none session = session_did session

  -- `resolveActingParty`; a failure is the 503 of its caller
  unfoldable pub resolve_acting_party : Request → Route (Option Text)
  resolve_acting_party request = signer_or_session request.signer_did request.session

  unfoldable pub party_for_did : Job → Text → Route (Option Party)
  party_for_did job did =
      if text_eq did job.buyer_did
      then pure (some buyer)
      else if text_eq did job.agent_did
      then pure (some agent)
      else do row ← try λ t. ports.agent_row t job.agent_did; pure (seat_of job did (found_row row))

  unfoldable pub resolve_job_acting_party : Request → Job → Route Acting
  resolve_job_acting_party request job = do
    acting ← resolve_acting_party request
    did ← or_send (error 401 sign_in) acting
    seat ← party_for_did job did
    party ← or_send (error 403 (stranger_refusal request.signer_did)) seat
    pure (record { did = did; party = party })

  unfoldable pub require_negotiation_allowed : Job → Acting → Route (Unit {0})
  require_negotiation_allowed job gate =
      if not (is_own_key gate.party gate.did job.agent_did) then pure tt else do
        row ← ask no_storage λ t. ports.agent_row t job.agent_did
        send_if (not (agent_may_negotiate true (may_negotiate_flag row)))
            (error 403 owner_has_not_allowed)

  abbrev pub row_of_agent : Party → Text → Route (Option AgentRow)
  row_of_agent buyer agent_did = pure none
  row_of_agent agent agent_did = ask no_storage λ t. ports.agent_row t agent_did

  unfoldable pub require_thread_access : Job → Acting → Route (Unit {0})
  require_thread_access job gate = do
    row ← row_of_agent gate.party job.agent_did
    let own_key = is_own_key gate.party gate.did job.agent_did
    let allowed = party_may_access_thread gate.party own_key (may_negotiate_flag row)
    send_if (not allowed) (error 403 owner_has_not_allowed)
