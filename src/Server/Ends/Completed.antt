-- ===== src/Server/Ends/Completed.antt =====
-- What a completion by `completeMergedPullRequest` of `src/api/app.ts` rests on.

use freeagents.Base.{
  ℕ, ◌≡◌, refl, sym, ◌∙◌, true, Option, none, some, Result, err, ok, ap, ok-injective,
}
use freeagents.Base.Text.{Text}
use freeagents.Job.Model.{Instant, Job, CompletedJob, JobFault}
use freeagents.Job.Lifecycle.{complete_job}
use freeagents.Job.Status.{completed}
use freeagents.Job.Edges.{validate-eq-ok}
use freeagents.Server.Ports.{CredentialRow, PullRequestRef, merged_state, Summary, Ports}
use freeagents.Server.Links.{chain_identifiers_match}
use freeagents.Server.Observe.{
  Completion, no_commit_sha, refused, completed_as, work_claim, complete_merged_pull_request,
  complete_at, complete_outcome, complete_keyed, complete_signed, after_complete,
}
use freeagents.Server.Ends.{
  Ends, pure-Ends, either-Ends, bind-Ends, past-Ends, try-Ends, update-Ends,
}

-- GitHub reported the pull request, with its head at the staged commit of the job
abbrev pub IsReported : Ports → Job → Summary → Type 0
IsReported ports job summary =
    ((t : ℕ) × (ref : PullRequestRef) × (ports.pull_request t ref ≡ some summary))
    × (chain_identifiers_match ports.lower_case (some summary.head_sha) job.staged_commit ≡ true)

abbrev pub completed_row : Job → Text → Instant → Job
completed_row job commit at = record job {
  status = completed;
  merge_commit = some commit;
  merged_at = some at;
}

-- The row of the job completed at GitHub's merge commit, and a credential signed for the agent over
-- the claim of work that names this commit.
abbrev pub IsIssued : Ports → Job → Summary → Text → Job → CredentialRow → Type 0
IsIssued ports job summary url row credential =
    (commit : Text) × (merged_at : Instant) × (key : Text) × (summary.merge_commit_sha
      ≡ some commit)
    × (row ≡ completed_row job commit merged_at)
    × (credential.claim ≡ work_claim job summary url commit merged_at key)
    × ((t : ℕ) × (ports.sign_credential t job.agent_did credential.claim ≡ some credential.signed))

abbrev pub IsReceipt : Ports → Job → CredentialRow → Type 0
IsReceipt ports row credential =
    (job : Job) × (summary : Summary) × (url : Text) × (summary.state ≡ merged_state)
    × IsReported ports job summary
    × IsIssued ports job summary url row credential

-- what holds of the row and the credential of a completion
abbrev pub IsOf : (Job → CredentialRow → Type 0) → Completion → Type 0
IsOf K no_commit_sha = Unit
IsOf K (refused f) = Unit
IsOf K (completed_as row credential) = K row credential

complete_job_lem :
    (job done : Job) (commit : Text) (time : Instant) (anchor : CompletedJob)
    → complete_job job commit time ≡ ok (done, anchor)
    → done ≡ completed_row job commit time
unfolding complete_job
complete_job_lem job done commit time anchor e =
    let (edge, h) = validate-eq-ok job.status completed _ e in
    sym (ap (λ (p : Job × CompletedJob). p.0) (ok-injective JobFault h))

module _ (ports : Ports) (job : Job) (summary : Summary) (url : Text) where
  abbrev pub K : Job → CredentialRow → Type 0
  K = IsIssued ports job summary url

  module _ (commit : Text) (merged_at : Instant) (e : summary.merge_commit_sha ≡ some commit) where
    after-Ends :
        (key signed : Text) (o : Option (Option Job))
        → ((row : Job) → o ≡ some (some row) → row ≡ completed_row job commit merged_at)
        → ((t : ℕ) × (ports.sign_credential t job.agent_did
                (work_claim job summary url commit merged_at key)
              ≡ some signed))
        → Ends (IsOf K) (
            after_complete ports summary commit
              (work_claim job summary url commit merged_at key)
              signed
              o)
    after-Ends key signed none w q = pure-Ends _ _ tt
    after-Ends key signed (some none) w q = pure-Ends _ _ tt
    after-Ends key signed (some (some row)) w q = past-Ends _ _ _ λ saved.
        either-Ends _ _ _ _ (pure-Ends _ _ tt)
          (past-Ends _ _ _ λ u. pure-Ends _ _ (commit, merged_at, key, e, w row refl, refl, q))

    signed-Ends :
        (key : Text) (done : Job) (o : Option Text)
        → done ≡ completed_row job commit merged_at
        → ((t : ℕ) × (ports.sign_credential t job.agent_did
                (work_claim job summary url commit merged_at key)
              ≡ o))
        → Ends (IsOf K) (
            complete_signed ports summary commit done
              (work_claim job summary url commit merged_at key)
              o)
    signed-Ends key done none d q = pure-Ends _ _ tt
    signed-Ends key done (some signed) d q =
        bind-Ends _ _ _ _ (update-Ends ports done)
          λ row w. after-Ends key signed row (λ r f. w r f ∙ d) q

    keyed-Ends :
        (done : Job) (key : Option Text)
        → done ≡ completed_row job commit merged_at
        → Ends (IsOf K) (complete_keyed ports job summary url commit merged_at done key)
    keyed-Ends done none d = pure-Ends _ _ tt
    keyed-Ends done (some key) d = bind-Ends _ _ _ _ (try-Ends _) λ o q. signed-Ends key done o d q

    outcome-Ends :
        (r : Result JobFault (Job × CompletedJob))
        → complete_job job commit merged_at ≡ r
        → Ends (IsOf K) (complete_outcome ports job summary url commit merged_at r)
    outcome-Ends (err fault) h = pure-Ends _ _ tt
    outcome-Ends (ok (done, anchor)) h =
        past-Ends _ _ _
          λ key. keyed-Ends done key (complete_job_lem job done commit merged_at anchor h)

  at-Ends :
      (sha : Option Text)
      → summary.merge_commit_sha ≡ sha
      → Ends (IsOf K) (complete_at ports job summary url sha)
  at-Ends none e = pure-Ends _ _ tt
  at-Ends (some commit) e = past-Ends _ _ _ λ merged_at. outcome-Ends commit merged_at e _ refl

  pub complete-Ends : Ends (IsOf K) (complete_merged_pull_request ports job summary url)
  unfolding complete_merged_pull_request
  complete-Ends = at-Ends _ refl
