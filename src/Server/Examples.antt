-- ===== src/Server/Examples.antt =====
-- The routes on the small hire of Job/Tests.antt, with a gate that says yes and a GitHub that
-- answers.
use freeagents.Base.{
  if◌then◌else◌, ok, ◌≡◌, refl, true, false, none, some, List, [], ◌∷◌, IsIn, ℕ, ◌≤◌, ◌⊎◌,
}
use freeagents.Base.Text.{Text, codes, text_eq, trim_start, trim_end, trim}
use freeagents.Base.Number.{whole}
use freeagents.Base.Table.{get, delete, set}
use freeagents.Job.Status.{completed, confirmed, staged, submitted, is_terminal}
use freeagents.Job.Model.{abt, Repo, Job, agent, validate}
use freeagents.Job.Hashing.{hash_spec}
use freeagents.Job.Agreement.{agreement_gap, spec_text, confirm_spec}
use freeagents.Job.Lifecycle.{
  complete_job, attach_staging_repository, stage_work, submit_pull_request,
}
use freeagents.Job.Clocks.{
  expires, expire_unstaged, goes_unpaid, lapse_at_staged, goes_undelivered, lapse_undelivered,
  deem_window_has_passed, deem_completed, apply_lapses,
}
use freeagents.Job.Tests.{plain, agreed_job, input, first_job}
use freeagents.Evidence.Keys.{did_suffix, is_agent_operator}
use freeagents.Server.Ports.{
  merged_state, CredentialRow, completed_body, job_body, State, AgentRow, open_state, Summary,
  Request, Ports, deposit, remainder, signature_not_a_party, error_body, Failure,
}
use freeagents.Server.Route.{
  pure, send, try, or_send, ask, send_if, now, store, find_job, update_job, ◌>>=◌, sent, value,
}
use freeagents.Server.Parties.{
  resolve_acting_party, party_for_did, resolve_job_acting_party, require_negotiation_allowed,
}
use freeagents.Server.Holds.{ask_gate}
use freeagents.Server.Merge.{merge_route}
use freeagents.Server.Observe.{
  observe_pull_request, complete_merged_pull_request, merge_instant_of, agent_key_for_credential,
  save_credential, work_row, work_claim,
}
use freeagents.Server.Ends.Completed.{IsReceipt}
use freeagents.Server.Ends.Merged.{merge_call-IsReceipt}
use freeagents.Server.Links.{to_slash, chain_identifiers_match, parse_pull_request_url}
use freeagents.Server.Clocks.{
  remainder_facts, apply_live_lapses, load_for_exchange, as_stored, live_lapses_for_list,
}
use freeagents.Server.Exchange.{
  persist, Gate, apply_and_persist, run_exchange, require_signed_party,
}
use freeagents.Server.Confirm.{create_staging_for, withdraw_siblings, confirm_agreed, confirm_route}
use freeagents.Server.Requests.{
  confirm_call, handle, serve, withdraw_call, stage_call, merge_call, pull_request_call, Asked,
  serve_all,
}
use freeagents.Server.Ancestry.{descends_from, walk, scan}
use freeagents.Server.Ancestry.Walk.{Reaches, descends_from-Reaches}
use freeagents.Server.Ends.Seats.{HasSeat, IsCaller, require_signed_party-HasSeat}
use freeagents.Server.Rows.{AllRows}
use freeagents.Server.Work.{stage_route, check_commit, attest, save_attestation}
use freeagents.Server.Refused.Answers.{serve-refused}
use freeagents.Server.Terms.{withdraw_route, given}
use freeagents.Server.Clocks.Live.{apply_live_lapses-unanswered}
use freeagents.Server.Clocks.Listed.{live_lapses_for_list-answers, IsAnswer, Pairs, AreOnePerId}
use freeagents.Server.Ends.{IsPaid}
use freeagents.Server.Ends.Attested.{IsAttested, stage_call-IsAttested}
use freeagents.Server.Submit.{
  pull_request_route, require_remainder, check_pull_request, fact_that_fails,
}
use freeagents.Job.Runs.{IsSound, opened-IsSound}
use freeagents.Server.Ends.Answers.{confirm_call-IsPaid, pull_request_call-IsPaid}
use freeagents.Server.Rows.Requests.{serve_all-IsSound}
use freeagents.Server.Notices.{system_row}

abbrev agent_a : AgentRow
agent_a = record {
  did = codes "did:abt:agent";
  operator_did = codes "did:abt:op";
  github_login = some (codes "bot");
  is_verified = true;
  floor_price_usd = none;
  negotiates_on_owners_behalf = false;
  delegation_id = codes "d1";
}

abbrev staging_a : Repo
staging_a = record { owner = codes "platform"; repo = codes "staging-1" }

abbrev pull_a : Summary
pull_a = record {
  state = open_state;
  merge_commit_sha = none;
  merged_at = none;
  head_sha = codes "c2";
  additions = whole 10;
  deletions = whole 2;
  files_changed = whole 1;
  repository_public = true;
  head_repo_owner = some (codes "bot");
  head_repo_is_fork = true;
  base_repo_full_name = codes "owner/repo";
  author_login = some (codes "bot");
  body = codes "Job: job-1";
}

-- a history of two commits
abbrev parents_a : Text → List Text
parents_a sha = if text_eq sha (codes "c2") then codes "c1" ∷ [] else []

abbrev ports_a : Ports
ports_a = record {
  clock = λ t. 1000;
  storage_fails = λ t. false;
  sha256_hex = plain;
  lower_case = λ s. s;
  is_less = λ a b. false;
  gate = λ t leg id. some true;
  settlement = λ t leg id. some (some (record { rail = abt; observed_at = 500 }));
  shorts = none;
  usdc_half_paid = none;
  abt_eth_half_paid = none;
  agent_row = λ t did. some (some agent_a);
  account_did = λ t method subject. some none;
  provision = λ t method subject. some none;
  verification_method = λ t did. ok (some (codes "k"));
  agent_key = λ t did delegation. none;
  sign_credential = λ t did claim. some (codes "signed");
  sign_attestation = λ t attestation. some (codes "signed");
  attestation_conflict = λ t. false;
  pull_request = λ t ref. some pull_a;
  commit_parents = λ t repo sha. some (parents_a sha);
  permission = λ t repo login. none;
  read_repository = λ t repo. ok (record { sha = codes "c1"; full_name = codes "owner/repo" });
  create_staging = λ t id repo sha. ok (staging_a, sha);
  grant_push = λ t repo login. ok none;
  observe = λ t repo commit base login. ok (codes "observed");
  build_attestation = λ t job observation. ok (codes "attested");
}

abbrev signed_by : Text → Request
signed_by did = record { signer_did = some did; session = none }

abbrev storing : Job → State
storing job = record {
  tick = 0;
  rows = (codes "job-1", job) ∷ [];
  credentials = [];
  attestations = [];
  messages = [];
  notices = [];
}

abbrev confirmed_row : Job
confirmed_row = record agreed_job {
  status = confirmed;
  confirmed_at = some 1000;
  confirmed_spec_hash = some (hash_spec plain (spec_text agreed_job));
  staging_repo = some staging_a;
  base_commit = some (codes "c1");
}

abbrev staged_row : Job
staged_row = record confirmed_row {
  status = staged;
  staged_commit = some (codes "c2");
  staged_at = some 1000;
}

confirm_test :
    (serve ports_a
      (codes "job-1")
      (signed_by (codes "did:abt:buyer"))
      confirm_call
      (storing agreed_job)).0.body
    ≡ job_body confirmed_row
unfolding serve handle confirm_route confirm_agreed load_for_exchange apply_live_lapses
    remainder_facts find_job update_job store get set delete now try or_send ask send_if pure send
    ◌>>=◌ resolve_job_acting_party resolve_acting_party party_for_did require_negotiation_allowed
    ask_gate create_staging_for persist apply_lapses expire_unstaged lapse_at_staged
    lapse_undelivered deem_completed expires goes_unpaid goes_undelivered deem_window_has_passed
    confirm_spec agreement_gap attach_staging_repository chain_identifiers_match to_slash
    withdraw_siblings is_agent_operator did_suffix validate
confirm_test = refl

confirm_call-IsPaid_example : IsPaid ports_a deposit (codes "job-1")
confirm_call-IsPaid_example =
    confirm_call-IsPaid ports_a (codes "job-1") (signed_by (codes "did:abt:buyer"))
      (storing agreed_job) confirm_test

stage_test :
    (serve ports_a
      (codes "job-1")
      (signed_by (codes "did:abt:agent"))
      (stage_call (given (codes "c2")))
      (storing confirmed_row)).0.body
    ≡ job_body staged_row
unfolding serve handle load_for_exchange apply_live_lapses remainder_facts find_job update_job store
    get set delete now try or_send ask send_if pure send ◌>>=◌ resolve_job_acting_party
    resolve_acting_party party_for_did require_signed_party ask_gate persist apply_and_persist
    apply_lapses expire_unstaged lapse_at_staged lapse_undelivered deem_completed expires
    goes_unpaid goes_undelivered deem_window_has_passed is_agent_operator did_suffix validate
    stage_route check_commit descends_from walk scan attest save_attestation stage_work system_row
    trim trim_start trim_end
stage_test = refl

stage_call-IsAttested_example :
    IsAttested ports_a staged_row
      (serve ports_a
        (codes "job-1")
        (signed_by (codes "did:abt:agent"))
        (stage_call (given (codes "c2")))
        (storing confirmed_row)).1
stage_call-IsAttested_example =
    stage_call-IsAttested ports_a (codes "job-1") (signed_by (codes "did:abt:agent"))
      (given (codes "c2")) (storing confirmed_row) stage_test

abbrev url_a : Text
url_a = codes "https://github.com/owner/repo/pull/7"

-- before the window for an undelivered job is over, with the remainder settled at 500
abbrev submitted_row : Job
submitted_row = record staged_row {
  status = submitted;
  pull_request_url = some url_a;
  submitted_at = some 1000;
  deadline = some 2592001000;
}

pull_request_test :
    (serve ports_a
      (codes "job-1")
      (signed_by (codes "did:abt:agent"))
      (pull_request_call (given url_a))
      (storing staged_row)).0.body
    ≡ job_body submitted_row
unfolding serve handle load_for_exchange apply_live_lapses remainder_facts find_job update_job store
    get set delete now try or_send ask send_if pure send ◌>>=◌ resolve_job_acting_party
    resolve_acting_party party_for_did require_signed_party ask_gate persist apply_and_persist
    apply_lapses expire_unstaged lapse_at_staged lapse_undelivered deem_completed expires
    goes_unpaid goes_undelivered deem_window_has_passed is_agent_operator did_suffix validate
    pull_request_route require_remainder check_pull_request fact_that_fails chain_identifiers_match
    parse_pull_request_url to_slash run_exchange submit_pull_request system_row trim trim_start
    trim_end is_terminal
pull_request_test = refl

pull_request_call-IsPaid_example : IsPaid ports_a remainder (codes "job-1")
pull_request_call-IsPaid_example =
    pull_request_call-IsPaid ports_a (codes "job-1") (signed_by (codes "did:abt:agent"))
      (storing staged_row) (given url_a) pull_request_test

abbrev merged_pull : Summary
merged_pull = record pull_a {
  state = merged_state;
  merge_commit_sha = some (codes "m1");
  merged_at = some 900;
}

abbrev ports_merged : Ports
ports_merged = record ports_a { pull_request = λ t ref. some merged_pull }

abbrev merged_row : Job
merged_row = record submitted_row {
  status = completed;
  merge_commit = some (codes "m1");
  merged_at = some 900;
}

abbrev merged_credential : CredentialRow
merged_credential =
    work_row merged_row (work_claim submitted_row merged_pull url_a (codes "m1") 900 (codes "k"))
      (codes "signed") true

merge_test :
    (serve ports_merged
      (codes "job-1")
      (signed_by (codes "did:abt:buyer"))
      merge_call
      (storing submitted_row)).0.body
    ≡ completed_body merged_row merged_credential
unfolding serve handle load_for_exchange apply_live_lapses remainder_facts find_job update_job store
    get set delete now try or_send ask send_if pure send ◌>>=◌ resolve_job_acting_party
    resolve_acting_party party_for_did require_signed_party ask_gate persist apply_and_persist
    apply_lapses expire_unstaged lapse_at_staged lapse_undelivered deem_completed expires
    goes_unpaid goes_undelivered deem_window_has_passed is_agent_operator did_suffix validate
    merge_route observe_pull_request chain_identifiers_match parse_pull_request_url to_slash
    complete_merged_pull_request merge_instant_of agent_key_for_credential save_credential
    complete_job system_row
merge_test = refl

merge_call-IsReceipt_example : IsReceipt ports_merged merged_row merged_credential
merge_call-IsReceipt_example =
    merge_call-IsReceipt ports_merged (codes "job-1") (signed_by (codes "did:abt:buyer"))
      (storing submitted_row) merge_test

first_job-IsSound : AllRows (IsSound plain) (storing first_job)
first_job-IsSound = record { at = (opened-IsSound plain _ input 0, tt) }

abbrev asked_a : List Asked
asked_a =
    record { job_id = codes "job-1"; who = signed_by (codes "did:abt:buyer"); call = withdraw_call }
    ∷ record { job_id = codes "job-1"; who = signed_by (codes "did:abt:agent"); call = merge_call }
    ∷ []

serve_all-IsSound_example : AllRows (IsSound plain) (serve_all ports_a asked_a (storing first_job))
serve_all-IsSound_example = serve_all-IsSound ports_a asked_a (storing first_job) first_job-IsSound

stranger_test :
    (serve ports_a
      (codes "job-1")
      (signed_by (codes "did:abt:else"))
      withdraw_call
      (storing first_job)).0.body
    ≡ error_body signature_not_a_party
unfolding serve handle load_for_exchange apply_live_lapses remainder_facts find_job update_job store
    get set delete now try or_send ask send_if pure send ◌>>=◌ resolve_job_acting_party
    resolve_acting_party party_for_did require_signed_party ask_gate persist apply_and_persist
    apply_lapses expire_unstaged lapse_at_staged lapse_undelivered deem_completed expires
    goes_unpaid goes_undelivered deem_window_has_passed is_agent_operator did_suffix validate
    withdraw_route
stranger_test = refl

serve-refused_example :
    ((serve ports_a
        (codes "job-1")
        (signed_by (codes "did:abt:else"))
        withdraw_call
        (storing first_job)).1.rows
      ≡ (storing first_job).rows)
    ⊎ ((serve ports_a
          (codes "job-1")
          (signed_by (codes "did:abt:else"))
          withdraw_call
          (storing first_job)).1.rows
        ≡ (load_for_exchange ports_a (codes "job-1") (storing first_job)).1.rows)
serve-refused_example =
    serve-refused ports_a (codes "job-1") (signed_by (codes "did:abt:else")) withdraw_call
      (storing first_job) refl stranger_test

descends_test :
    descends_from ports_a staging_a (codes "c1") (codes "c2") (storing first_job)
    ≡ (value true, record (storing first_job) { tick = 1 })
unfolding descends_from walk scan ask try or_send pure send ◌>>=◌
descends_test = refl

descends_from-Reaches_example : (m : ℕ) × (m ≤ 500) × Reaches parents_a (codes "c2") m (codes "c1")
descends_from-Reaches_example =
    descends_from-Reaches ports_a staging_a (codes "c1") (codes "c2") parents_a (λ t c ps e. cc e)
      (storing first_job) _ descends_test

abbrev ports_down : Ports
ports_down = record ports_a { clock = λ t. 604801001; pull_request = λ t ref. none }

passed_test : deem_window_has_passed submitted_row 604801001 ≡ true
unfolding deem_window_has_passed
passed_test = refl

apply_live_lapses-unanswered_example :
    ((f : Failure) × ((apply_live_lapses ports_down submitted_row (storing submitted_row)).0
        ≡ sent f))
    × ((apply_live_lapses ports_down submitted_row (storing submitted_row)).1.rows
        ≡ (storing submitted_row).rows)
apply_live_lapses-unanswered_example =
    apply_live_lapses-unanswered ports_down submitted_row (storing submitted_row) (λ t ref. refl)
      (λ t. passed_test)

abbrev listed_a : List Job
listed_a = submitted_row ∷ first_job ∷ []

live_lapses_for_list-answers_example :
    (rows : List Job) × ((live_lapses_for_list ports_down [] listed_a (storing first_job)).0
      ≡ value rows)
    × (Pairs (λ job row. IsAnswer ports_down listed_a job.id row) listed_a rows
        × AreOnePerId listed_a rows)
live_lapses_for_list-answers_example =
    live_lapses_for_list-answers ports_down listed_a (storing first_job)

abbrev gate_a : Gate
gate_a = record {
  loaded = as_stored first_job;
  acting = record { did = codes "did:abt:op"; party = agent };
}

operator_test :
    (s : State) × (require_signed_party ports_a
        (codes "job-1")
        (signed_by (codes "did:abt:op"))
        (agent ∷ [])
        (storing first_job)
      ≡ (value gate_a, s))
unfolding serve handle load_for_exchange apply_live_lapses remainder_facts find_job update_job store
    get set delete now try or_send ask send_if pure send ◌>>=◌ resolve_job_acting_party
    resolve_acting_party party_for_did require_signed_party ask_gate persist apply_and_persist
    apply_lapses expire_unstaged lapse_at_staged lapse_undelivered deem_completed expires
    goes_unpaid goes_undelivered deem_window_has_passed is_agent_operator did_suffix validate
operator_test = (_, refl)

require_signed_party-HasSeat_example :
    (IsCaller ports_a (signed_by (codes "did:abt:op")) (codes "did:abt:op")
      × HasSeat ports_a first_job (codes "did:abt:op") agent)
    × IsIn agent (agent ∷ [])
require_signed_party-HasSeat_example =
    require_signed_party-HasSeat ports_a (codes "job-1") (signed_by (codes "did:abt:op"))
      (agent ∷ []) (storing first_job) operator_test.0 gate_a operator_test.1
