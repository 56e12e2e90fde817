-- ===== src/Server/Ends/Merged.antt =====
-- What a receipt of the merge route of `src/api/app.ts` rests on.
use mathlib.Core.Path.{subst}
use freeagents.Base.{
  ℕ, ◌≡◌, refl, sym, true, Option, none, some, Result, Bool-cases, inl, inr, List,
}
use freeagents.Base.Text.{Text}
use freeagents.Job.Model.{Instant, Party, Job, JobFault}
use freeagents.Server.Ports.{
  CredentialRow, PullRequestRef, PullRequestState, open_state, closed_state, merged_state, Summary,
  State, Ports, Request, Success, job_row, receipt, completed_body,
}
use freeagents.Server.Route.{Reply}
use freeagents.Server.Post.{Post, is_sent, is_value}
use freeagents.Server.Links.{chain_identifiers_match}
use freeagents.Server.Observe.{
  Observation, corrupted, answered, moved_head, observed, Completion, no_commit_sha, refused,
  completed_as, observe_pull_request, observe_at, observed_summary,
}
use freeagents.Server.Clocks.{
  Loaded, as_stored, RemainderFacts, is_merged, asked_completion, asked_observation,
  ask_github_before_deeming, lapsed_unless_completed, apply_live_lapses, load_for_exchange,
}
use freeagents.Server.Exchange.{no_hook, require_signed_party}
use freeagents.Server.Merge.{
  merged_answer, record_outcome, outcome_of, merge_observation, merge_unless_completed, merge_route,
}
use freeagents.Server.Requests.{answer_of, serve, handle, merge_call}
use freeagents.Server.Ends.{
  Ends, pure-Ends, send-Ends, either-Ends, if-Ends, bind-Ends, past-Ends, try-Ends, persist-Ends,
  is_settled-eq, weaken-Ends,
}
use freeagents.Server.Ends.Completed.{IsReported, IsIssued, IsReceipt, IsOf, complete-Ends}

abbrev pub IsSeen : Ports → Job → Observation → Type 0
IsSeen ports job (observed summary url) = IsReported ports job summary
IsSeen ports job o = Unit

abbrev pub IsBacked : Ports → Loaded → Type 0
IsBacked ports loaded =
    (c : CredentialRow) → loaded.completed_now ≡ some c → IsReceipt ports loaded.job c

abbrev pub IsBackedIfAny : Ports → Option Loaded → Type 0
IsBackedIfAny ports none = Unit
IsBackedIfAny ports (some loaded) = IsBacked ports loaded

abbrev pub IsShown : Ports → Success → Type 0
IsShown ports (job_row row) = Unit
IsShown ports (receipt row credential) = IsReceipt ports row credential

is_merged_lem : (st : PullRequestState) → is_merged st ≡ true → st ≡ merged_state
is_merged_lem open_state e = cc
is_merged_lem closed_state e = cc
is_merged_lem merged_state e = refl

module _ (ports : Ports) where
  recorded-Ends : (r : Result JobFault Job) → Ends (IsShown ports) (record_outcome ports r)
  unfolding record_outcome
  recorded-Ends r = past-Ends _ _ _ λ next.
      weaken-Ends _ _ _ (persist-Ends ports next no_hook) λ a e. subst (IsShown ports) (sym e) tt

  as_stored-IsBacked : (job : Job) → IsBacked ports (as_stored job)
  as_stored-IsBacked job c e = cc

  module _ (job : Job) where
    summary-IsSeen :
        (url : Text) (o : Option Summary)
        → ((t : ℕ) × (ref : PullRequestRef) × (ports.pull_request t ref ≡ o))
        → IsSeen ports job (observed_summary ports job url o)
    summary-IsSeen url none q = tt
    summary-IsSeen url (some summary) q =
        elim (Bool-cases
          (chain_identifiers_match ports.lower_case (some summary.head_sha) job.staged_commit)) [
            | inl e ↦ rw e (q, e)
            | inr e ↦ rw e tt
          ]

    observe_at-Ends :
        (parsed : Option (PullRequestRef × Text))
        → Ends (IsSeen ports job) (observe_at ports job parsed)
    observe_at-Ends none = pure-Ends _ _ tt
    observe_at-Ends (some (ref, url)) =
        bind-Ends _ _ _ _ (try-Ends _) λ o q. pure-Ends _ _ (summary-IsSeen url o (q.0, ref, q.1))

    observe-Ends : Ends (IsSeen ports job) (observe_pull_request ports job)
    unfolding observe_pull_request
    observe-Ends = observe_at-Ends _

    merged-Ends :
        (summary : Summary) (url : Text) (c : Completion)
        → summary.state ≡ merged_state
        → IsReported ports job summary
        → IsOf (IsIssued ports job summary url) c
        → Ends (IsShown ports) (merged_answer c)
    merged-Ends summary url no_commit_sha st h k = send-Ends _ _
    merged-Ends summary url (refused f) st h k = send-Ends _ _
    merged-Ends summary url (completed_as row credential) st h k =
        pure-Ends _ _ (job, summary, url, st, h, k)

    asked_completion-Ends :
        (summary : Summary) (url : Text) (c : Completion)
        → summary.state ≡ merged_state
        → IsReported ports job summary
        → IsOf (IsIssued ports job summary url) c
        → Ends (IsBackedIfAny ports) (asked_completion c)
    asked_completion-Ends summary url no_commit_sha st h k = send-Ends _ _
    asked_completion-Ends summary url (refused f) st h k = send-Ends _ _
    asked_completion-Ends summary url (completed_as row credential) st h k = pure-Ends _ _ λ c e.
        let same : credential ≡ c = cc e in
        subst (IsReceipt ports row) same (job, summary, url, st, h, k)

    asked-Ends :
        (o : Observation)
        → IsSeen ports job o
        → Ends (IsBackedIfAny ports) (asked_observation ports job o)
    asked-Ends corrupted h = send-Ends _ _
    asked-Ends (answered f) h = send-Ends _ _
    asked-Ends moved_head h = pure-Ends _ _ tt
    asked-Ends (observed summary url) h =
        if-Ends _ _ _ _ (λ e. pure-Ends _ _ tt)
          λ e. past-Ends _ _ _ λ merged_at. either-Ends _ _ _ _ (pure-Ends _ _ tt) (
            bind-Ends _ _ _ _ (complete-Ends ports job summary url)
              λ c k. asked_completion-Ends summary url c (is_merged_lem _ (is_settled-eq _ e)) h k)

    github-Ends : Ends (IsBackedIfAny ports) (ask_github_before_deeming ports job)
    unfolding ask_github_before_deeming
    github-Ends = bind-Ends _ _ _ _ observe-Ends asked-Ends

    lapsed-Ends :
        (time : Instant) (facts : RemainderFacts) (o : Option Loaded)
        → IsBackedIfAny ports o
        → Ends (IsBacked ports) (lapsed_unless_completed ports job time facts o)
    lapsed-Ends time facts (some loaded) h = pure-Ends _ _ h
    lapsed-Ends time facts none h =
        either-Ends _ _ _ _ (past-Ends _ _ _ λ u. pure-Ends _ _ (as_stored-IsBacked _))
          (past-Ends _ _ _ λ u. past-Ends _ _ _ λ row. pure-Ends _ _ (as_stored-IsBacked _))

    live-Ends : Ends (IsBacked ports) (apply_live_lapses ports job)
    unfolding apply_live_lapses
    live-Ends = past-Ends _ _ _ λ facts. past-Ends _ _ _ λ time.
        bind-Ends _ _ _ _ (either-Ends _ _ _ _ github-Ends (pure-Ends _ _ tt))
          (lapsed-Ends time facts)

    outcome_of-Ends :
        (summary : Summary) (url : Text) (st : PullRequestState)
        → summary.state ≡ st
        → IsReported ports job summary
        → Ends (IsShown ports) (outcome_of ports job summary url st)
    outcome_of-Ends summary url open_state e h =
        either-Ends _ _ _ _ (send-Ends _ _)
          (past-Ends _ _ _ λ time. either-Ends _ _ _ _ (recorded-Ends _) (send-Ends _ _))
    outcome_of-Ends summary url closed_state e h =
        either-Ends _ _ _ _ (send-Ends _ _) (recorded-Ends _)
    outcome_of-Ends summary url merged_state e h =
        bind-Ends _ _ _ _ (complete-Ends ports job summary url)
          λ c k. merged-Ends summary url c e h k

    seen-Ends :
        (o : Observation)
        → IsSeen ports job o
        → Ends (IsShown ports) (merge_observation ports job o)
    seen-Ends corrupted h = send-Ends _ _
    seen-Ends (answered f) h = send-Ends _ _
    seen-Ends moved_head h = send-Ends _ _
    seen-Ends (observed summary url) h = outcome_of-Ends summary url _ refl h

    unless-Ends :
        (o : Option CredentialRow)
        → ((c : CredentialRow) → o ≡ some c → IsReceipt ports job c)
        → Ends (IsShown ports) (merge_unless_completed ports job o)
    unless-Ends (some credential) h = pure-Ends _ _ (h credential refl)
    unless-Ends none h = past-Ends _ _ _ λ u. bind-Ends _ _ _ _ observe-Ends seen-Ends

  load-Ends : (id : Text) → Ends (IsBacked ports) (load_for_exchange ports id)
  unfolding load_for_exchange
  load-Ends id =
      past-Ends _ _ _ λ found. past-Ends _ _ _ λ row. past-Ends _ _ _ λ job. live-Ends job

  gate-Ends :
      (id : Text) (who : Request) (allowed : List Party)
      → Ends (λ g. IsBacked ports g.loaded) (require_signed_party ports id who allowed)
  unfolding require_signed_party
  gate-Ends id who allowed =
      bind-Ends _ _ _ _ (load-Ends id)
        λ loaded h. past-Ends _ _ _ λ acting. past-Ends _ _ _ λ u. pure-Ends _ _ h

  merge-Ends : (id : Text) (who : Request) → Ends (IsShown ports) (merge_route ports id who)
  unfolding merge_route
  merge-Ends id who = bind-Ends _ _ _ _ (gate-Ends id who _) λ g h. unless-Ends g.loaded.job _ h

ended_reply :
    (ports : Ports) {row : Job} {credential : CredentialRow} {r : Reply Success × State}
    → Post (λ f t. Unit {0}) (λ a t. IsShown ports a) r
    → (answer_of r.0).body ≡ completed_body row credential
    → IsReceipt ports row credential
ended_reply ports (is_sent f t u) e = cc
ended_reply ports (is_value (job_row job) t q) e = cc
ended_reply ports {row} {credential} (is_value (receipt job c) t q) e =
    let same_row : job ≡ row = cc e in
    let same : c ≡ credential = cc e in
    subst (IsReceipt ports row) same (subst (λ (x : Job). IsReceipt ports x c) same_row q)

-- A receipt that the merge route answers rests on GitHub: a pull request that it reported merged,
-- with its head at the staged commit of a job. The row is that job completed at the merge commit,
-- and the credential was signed for its agent over the claim of work on this commit.
pub merge_call-IsReceipt :
    (ports : Ports) (id : Text) (who : Request) (s : State) {row : Job} {credential : CredentialRow}
    → (serve ports id who merge_call s).0.body ≡ completed_body row credential
    → IsReceipt ports row credential
unfolding serve handle
merge_call-IsReceipt ports id who s e = ended_reply ports ((merge-Ends ports id who).at s) e
