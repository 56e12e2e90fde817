-- ===== src/Server/Submit.antt =====
-- `POST /jobs/:jobId/pull-request` in `src/api/app.ts`.
use freeagents.Base.{
  if◌then◌else◌, is_some, Bool, true, false, not, ◌||◌, Option, none, some, [], ◌∷◌, ◌++◌,
}
use freeagents.Base.Text.{Text, codes}
use freeagents.Evidence.Keys.{after_prefix}
use freeagents.Job.Status.{submitted, is_terminal}
use freeagents.Job.Model.{agent, Job, validate}
use freeagents.Job.Lifecycle.{submit_pull_request}
use freeagents.Payment.Amount.{remainder_usd}
use freeagents.Server.Ports.{
  remainder, Refusal, github_unavailable, bad_body, no_verified_login, wrong_base, wrong_head_owner,
  wrong_author, wrong_head_sha, pull_request_not_open, no_job_line, pull_request_opened,
  PullRequestRef, PullRequestState, open_state, Summary, Request, Ports, Success,
}
use freeagents.Server.Route.{
  Route, ◌>>=◌, ◌>>◌, error, pure, send, or_send, ask, send_if, no_storage, now,
}
use freeagents.Server.Holds.{ask_gate}
use freeagents.Server.Notices.{system_row}
use freeagents.Server.Links.{parse_pull_request_url, chain_identifiers_match}
use freeagents.Server.Exchange.{Hook, run_exchange, require_signed_party, unpaid_answer}
use freeagents.Server.Terms.{Field}
use freeagents.Server.Work.{read_prose, verified_login, or_transition}

-- `text.includes(part)`
abbrev pub includes_text : Text → Text → Bool
includes_text part [] = is_some (after_prefix part [])
includes_text part (c ∷ s) = is_some (after_prefix part (c ∷ s)) || includes_text part s

abbrev pub is_open_pull_request : PullRequestState → Bool
is_open_pull_request open_state = true
is_open_pull_request s = false

-- The six facts, in the order in which they are checked; `none` where all hold.
unfoldable pub fact_that_fails : (Text → Text) → Job → Text → Text → Summary → Option Refusal
fact_that_fails lower job job_id login summary =
    if not (chain_identifiers_match lower (some summary.base_repo_full_name) (some job.repository))
    then some wrong_base
    else if not (chain_identifiers_match lower summary.head_repo_owner (some login))
        || not summary.head_repo_is_fork
    then some wrong_head_owner
    else if not (chain_identifiers_match lower summary.author_login (some login))
    then some wrong_author
    else if not (chain_identifiers_match lower (some summary.head_sha) job.staged_commit)
    then some wrong_head_sha
    else if not (is_open_pull_request summary.state)
    then some pull_request_not_open
    else if not (includes_text (codes "Job: " ++ job_id) summary.body)
    then some no_job_line
    else none

abbrev pub send_refusal : Option Refusal → Route (Unit {0})
send_refusal none = pure tt
send_refusal (some refusal) = send (error 409 refusal)

-- a finished job is refused by name before money is asked about
abbrev pub refuse_finished : Job → Route (Unit {0})
refuse_finished job =
    if is_terminal job.status then or_transition (validate job.status submitted) else pure tt

module _ (ports : Ports) where
  abbrev pub opened_hook : Text → Hook
  opened_hook url row = system_row ports row.id (pull_request_opened url)

  -- what is asked before the pull request is read: the money, then the state machine
  unfoldable pub require_remainder : Text → Job → Route (Unit {0})
  require_remainder job_id job = do
    refuse_finished job
    settled ← ask_gate ports remainder job_id
    send_if (not settled) (unpaid_answer remainder remainder_usd job)
    or_transition (validate job.status submitted)

  -- the pull request as GitHub reports it, against the agent's verified login
  unfoldable pub check_pull_request : Text → Job → PullRequestRef → Route (Unit {0})
  check_pull_request job_id job ref = do
    row ← ask no_storage λ t. ports.agent_row t job.agent_did
    login ← or_send (error 409 no_verified_login) (verified_login row)
    summary ← ask (error 503 github_unavailable) λ t. ports.pull_request t ref
    send_refusal (fact_that_fails ports.lower_case job job_id login summary)

  unfoldable pub pull_request_route : Text → Request → Field Text → Route Success
  pull_request_route job_id request pull_request_url = do
    gate ← require_signed_party ports job_id request (agent ∷ [])
    url ← or_send (error 400 bad_body) (read_prose pull_request_url)
    ref ← or_send (error 400 bad_body) (parse_pull_request_url url)
    require_remainder job_id gate.loaded.job
    check_pull_request job_id gate.loaded.job ref
    time ← now ports
    run_exchange ports job_id (λ job. submit_pull_request job url time) none (opened_hook url)
