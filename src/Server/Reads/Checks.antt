-- ===== src/Server/Reads/Checks.antt =====
-- The checks of single routes leave the rows alone: the observation of a pull request, the
-- credentials, the walk through the parents of a commit, the attestation, the staging repository.
use freeagents.Base.{
  Result, err, ok, ℕ, zero, suc, ◌≡◌, refl, Bool, true, false, Option, none, some, List, [], ◌∷◌,
  ◌++◌,
}
use freeagents.Base.Text.{Text}
use freeagents.Job.Model.{Instant, Repo, Job, JobFault}
use freeagents.Server.Ports.{
  Claim, CredentialRow, State, AgentRow, PullRequestRef, Summary, ResolveFault, not_resolvable,
  resolver_down, Ports, HeldAction, Refusal, ObserveFault, AttestationFault,
}
use freeagents.Server.Observe.{
  observe_at, observe_pull_request, merge_instant, merge_instant_of, key_of_row, key_after,
  agent_key_for_credential, put_credential, save_credential, save_if_signed, issue_if_none,
  issue_at, issue_deemed_completion_if_missing,
}
use freeagents.Server.Clocks.{short_unless_settled, remainder_facts, issue_if}
use freeagents.Server.Ancestry.{scan, walk, descends_from}
use freeagents.Server.Reads.{
  ReadsOnly, pure-ReadsOnly, bind-ReadsOnly, store-ReadsOnly, reads_rules, if-ReadsOnly,
  ask-ReadsOnly, try-ReadsOnly, or_send-ReadsOnly, send_if-ReadsOnly,
}
use freeagents.Server.Reads.Guards.{guard_rules}
use freeagents.Server.Work.{
  or_observation, or_attestation, save_attestation, attest, put_attestation, commit_missing,
  check_commit, or_thrown, or_transition,
}
use freeagents.Server.Terms.{
  deposit_settled_at_proposed, CriteriaBody, refuse_decline_when_held, check_floor, price_of_body,
}
use freeagents.Job.Price.{PriceProposal}
use freeagents.Server.Submit.{check_pull_request, require_remainder, send_refusal}
use freeagents.Job.Status.{JobStatus}
use freeagents.Server.Exchange.{or_fault, PaymentGate, require_paid}

put_attestation-rows :
    (job_id signed : Text) (s : State) → (put_attestation job_id signed s).rows ≡ s.rows
put_attestation-rows job_id signed s = refl

or_observation-ReadsOnly : (tried : Result ObserveFault Text) → ReadsOnly (or_observation tried)
or_observation-ReadsOnly (err fault) = search reads_rules
or_observation-ReadsOnly (ok observation) = search reads_rules

or_attestation-ReadsOnly : (built : Result AttestationFault Text) → ReadsOnly (or_attestation built)
or_attestation-ReadsOnly (err fault) = search reads_rules
or_attestation-ReadsOnly (ok attestation) = search reads_rules

pub transition-ReadsOnly : (r : Result JobFault JobStatus) → ReadsOnly (or_transition r)
transition-ReadsOnly (err fault) = search reads_rules
transition-ReadsOnly (ok s) = search reads_rules

pub or_fault-ReadsOnly : (r : Result JobFault Job) → ReadsOnly (or_fault r)
or_fault-ReadsOnly (err fault) = search reads_rules
or_fault-ReadsOnly (ok job) = search reads_rules

pub or_thrown-ReadsOnly : (r : Result JobFault Job) → ReadsOnly (or_thrown r)
or_thrown-ReadsOnly (err fault) = search reads_rules
or_thrown-ReadsOnly (ok job) = search reads_rules

send_refusal-ReadsOnly : (refusal : Option Refusal) → ReadsOnly (send_refusal refusal)
send_refusal-ReadsOnly none = search reads_rules
send_refusal-ReadsOnly (some refusal) = search reads_rules

pub price-ReadsOnly : (body : CriteriaBody) → ReadsOnly (price_of_body body)
price-ReadsOnly body = search reads_rules

module _ (ports : Ports) where
  observe_at-ReadsOnly :
      (job : Job) (url : Option (PullRequestRef × Text)) → ReadsOnly (observe_at ports job url)
  observe_at-ReadsOnly job none = search reads_rules
  observe_at-ReadsOnly job (some (ref, url)) = search reads_rules

  pub observe-ReadsOnly : (job : Job) → ReadsOnly (observe_pull_request ports job)
  unfolding observe_pull_request
  observe-ReadsOnly job = observe_at-ReadsOnly job _

  instant-ReadsOnly : (at : Option Instant) → ReadsOnly (merge_instant ports at)
  instant-ReadsOnly none = search reads_rules
  instant-ReadsOnly (some t) = search reads_rules

  pub merge_instant_of-ReadsOnly : (summary : Summary) → ReadsOnly (merge_instant_of ports summary)
  unfolding merge_instant_of
  merge_instant_of-ReadsOnly summary = instant-ReadsOnly summary.merged_at

  key_of_row-ReadsOnly : (row : Option AgentRow) → ReadsOnly (key_of_row ports row)
  key_of_row-ReadsOnly none = search reads_rules
  key_of_row-ReadsOnly (some row) = search reads_rules

  key_after-ReadsOnly :
      (did : Text) (resolved : Result ResolveFault (Option Text))
      → ReadsOnly (key_after ports did resolved)
  key_after-ReadsOnly did (ok method) = search reads_rules
  key_after-ReadsOnly did (err resolver_down) = search reads_rules
  key_after-ReadsOnly did (err not_resolvable) = search (reads_rules, key_of_row-ReadsOnly)

  pub key-ReadsOnly : (did : Text) → ReadsOnly (agent_key_for_credential ports did)
  unfolding agent_key_for_credential
  key-ReadsOnly did = search (reads_rules, key_after-ReadsOnly)

  put_credential-rows :
      (old : Option CredentialRow) (row : CredentialRow) (s : State)
      → (put_credential old row s).rows ≡ s.rows
  put_credential-rows none row s = refl
  put_credential-rows (some old) row s = refl

  pub save_credential-ReadsOnly : (row : CredentialRow) → ReadsOnly (save_credential ports row)
  unfolding save_credential
  save_credential-ReadsOnly row =
      bind-ReadsOnly _ _ (store-ReadsOnly ports _ _ (λ s. put_credential-rows _ row s))
        (λ a. pure-ReadsOnly _)

  save_if_signed-ReadsOnly :
      (job : Job) (claim : Claim) (signed : Option Text)
      → ReadsOnly (save_if_signed ports job claim signed)
  save_if_signed-ReadsOnly job claim none = search reads_rules
  save_if_signed-ReadsOnly job claim (some signed) = search (reads_rules, save_credential-ReadsOnly)

  issue_if_none-ReadsOnly :
      (job : Job) (commit : Text) (found : Option (Option CredentialRow))
      → ReadsOnly (issue_if_none ports job commit found)
  issue_if_none-ReadsOnly job commit (some none) = search (reads_rules, save_if_signed-ReadsOnly)
  issue_if_none-ReadsOnly job commit none = search reads_rules
  issue_if_none-ReadsOnly job commit (some (some row)) = search reads_rules

  issue_at-ReadsOnly : (job : Job) (commit : Option Text) → ReadsOnly (issue_at ports job commit)
  issue_at-ReadsOnly job none = search reads_rules
  issue_at-ReadsOnly job (some commit) =
      bind-ReadsOnly _ _ (store-ReadsOnly ports _ _ (λ s. refl))
        (issue_if_none-ReadsOnly job commit)

  pub issue-ReadsOnly : (b : Bool) (job : Job) → ReadsOnly (issue_if ports b job)
  unfolding issue_deemed_completion_if_missing
  issue-ReadsOnly true job = issue_at-ReadsOnly job job.staged_commit
  issue-ReadsOnly false job = search reads_rules

  short_unless-ReadsOnly :
      (settled : Bool) (job_id : Text) → ReadsOnly (short_unless_settled ports settled job_id)
  short_unless-ReadsOnly true job_id = search reads_rules
  short_unless-ReadsOnly false job_id = search guard_rules

  pub facts-ReadsOnly : (job : Job) → ReadsOnly (remainder_facts ports job)
  unfolding remainder_facts
  facts-ReadsOnly job = search (guard_rules, short_unless-ReadsOnly)

  scan-ReadsOnly :
      (repo : Repo) (target : Text) (frontier visited next : List Text)
      → ReadsOnly (scan ports repo target frontier visited next)
  unfolding scan
  scan-ReadsOnly repo target [] visited next = search reads_rules
  scan-ReadsOnly repo target (c ∷ rest) visited next = if-ReadsOnly _ _ _ (pure-ReadsOnly _) (
      if-ReadsOnly _ _ _ (scan-ReadsOnly repo target rest visited next) (
        bind-ReadsOnly _ _ (ask-ReadsOnly _ _)
          λ ps. scan-ReadsOnly repo target rest (c ∷ visited) (next ++ ps)))

  walk-ReadsOnly :
      (repo : Repo) (target : Text) (fuel : ℕ) (frontier visited : List Text)
      → ReadsOnly (walk ports repo target fuel frontier visited)
  unfolding walk
  walk-ReadsOnly repo target zero frontier visited = search reads_rules
  walk-ReadsOnly repo target (suc fuel) frontier visited =
      bind-ReadsOnly _ _ (scan-ReadsOnly repo target frontier visited []) λ r.
        if-ReadsOnly _ _ _ (pure-ReadsOnly _) (walk-ReadsOnly repo target fuel r.next r.visited)

  missing-ReadsOnly :
      (repo : Repo) (login : Text) (seen : Option (List Text))
      → ReadsOnly (commit_missing ports repo login seen)
  missing-ReadsOnly repo login (some parents) = search reads_rules
  missing-ReadsOnly repo login none = search reads_rules

  descends-ReadsOnly :
      (repo : Repo) (target sha : Text) → ReadsOnly (descends_from ports repo target sha)
  unfolding descends_from
  descends-ReadsOnly repo target sha = walk-ReadsOnly repo target _ (sha ∷ []) []

  pub commit-ReadsOnly :
      (repo : Repo) (base login commit : Text)
      → ReadsOnly (check_commit ports repo base login commit)
  unfolding check_commit
  commit-ReadsOnly repo base login commit =
      search (reads_rules, missing-ReadsOnly, descends-ReadsOnly)

  save_attestation-ReadsOnly :
      (job_id signed : Text) → ReadsOnly (save_attestation ports job_id signed)
  unfolding save_attestation
  save_attestation-ReadsOnly job_id signed = bind-ReadsOnly _ _ (try-ReadsOnly _) λ refused.
      bind-ReadsOnly _ _ (send_if-ReadsOnly refused _) λ u.
        bind-ReadsOnly _ _ (store-ReadsOnly ports _ _ (put_attestation-rows job_id signed))
          λ stored. or_send-ReadsOnly _ stored

  pub attest-ReadsOnly :
      (job : Job) (repo : Repo) (base login commit : Text) (next : Job)
      → ReadsOnly (attest ports job repo base login commit next)
  unfolding attest
  attest-ReadsOnly job repo base login commit next =
      search
        (
          reads_rules, or_observation-ReadsOnly, or_attestation-ReadsOnly,
          save_attestation-ReadsOnly,
        )
        depth 9

  pub remainder-ReadsOnly :
      (job_id : Text) (job : Job) → ReadsOnly (require_remainder ports job_id job)
  unfolding require_remainder
  remainder-ReadsOnly job_id job = search (guard_rules, transition-ReadsOnly)

  pub pull_request-ReadsOnly :
      (job_id : Text) (job : Job) (ref : PullRequestRef)
      → ReadsOnly (check_pull_request ports job_id job ref)
  unfolding check_pull_request
  pull_request-ReadsOnly job_id job ref = search (reads_rules, send_refusal-ReadsOnly)

  pub paid_gate-ReadsOnly :
      (gate : Option PaymentGate) (current updated : Job)
      → ReadsOnly (require_paid ports gate current updated)
  paid_gate-ReadsOnly none current updated = search reads_rules
  paid_gate-ReadsOnly (some gate) current updated = search reads_rules

  pub floor-ReadsOnly :
      (job : Job) (price : Option PriceProposal) → ReadsOnly (check_floor ports job price)
  floor-ReadsOnly job none = search reads_rules
  floor-ReadsOnly job (some price) = search reads_rules

  pub settled-ReadsOnly :
      (job : Job) (action : HeldAction) → ReadsOnly (deposit_settled_at_proposed ports job action)
  settled-ReadsOnly job action = search guard_rules

  pub decline_held-ReadsOnly :
      (job : Job) (settled : Bool) → ReadsOnly (refuse_decline_when_held ports job settled)
  decline_held-ReadsOnly job settled = search guard_rules

pub ruleset check_rules = (
  guard_rules, observe-ReadsOnly, merge_instant_of-ReadsOnly, key-ReadsOnly,
  save_credential-ReadsOnly, issue-ReadsOnly, facts-ReadsOnly, commit-ReadsOnly, attest-ReadsOnly,
  transition-ReadsOnly, or_fault-ReadsOnly, or_thrown-ReadsOnly, remainder-ReadsOnly,
  pull_request-ReadsOnly, paid_gate-ReadsOnly, price-ReadsOnly, floor-ReadsOnly, settled-ReadsOnly,
  decline_held-ReadsOnly,
)
