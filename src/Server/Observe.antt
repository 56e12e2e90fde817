-- ===== src/Server/Observe.antt =====
-- The observation of a pull request and the completion of a merged one in `src/api/app.ts`:
-- `observePullRequest`, `agentKeyForCredential`, `completeMergedPullRequest` and
-- `issueDeemedCompletionCredentialIfMissing`.
use freeagents.Base.{
  if◌then◌else◌, is_some, Result, err, ok, Bool, false, not, Option, none, some, ◌++◌,
}
use freeagents.Base.Text.{Text, codes, text_eq}
use freeagents.Base.Table.{get, set}
use freeagents.Job.Model.{Instant, Job, CompletedJob, JobFault}
use freeagents.Job.Lifecycle.{complete_job}
use freeagents.Server.Ports.{
  Claim, work_history, deemed_completion, CredentialRow, github_unavailable, identity_unavailable,
  credential_unavailable, not_found, job_fault, Failure, work_completed, State, AgentRow,
  PullRequestRef, Summary, ResolveFault, not_resolvable, resolver_down, Ports,
}
use freeagents.Server.Route.{
  Route, ◌>>=◌, ◌>>◌, error, pure, try, no_storage, now, store, same_state, update_job,
}
use freeagents.Server.Parties.{found_row}
use freeagents.Server.Links.{parse_pull_request_url, chain_identifiers_match}
use freeagents.Server.Notices.{system_row}

-- `PullRequestObservation`; `corrupted` is the error thrown for a stored URL of another shape
pub data Observation : Type 0 where
  corrupted : Observation
  answered : Failure → Observation
  moved_head : Observation
  observed : Summary → Text → Observation

-- `MergedCompletion`; `no_commit_sha` is the error thrown for a merge without a commit
pub data Completion : Type 0 where
  no_commit_sha : Completion
  refused : Failure → Completion
  completed_as : Job → CredentialRow → Completion

abbrev pub parsed_url : Option Text → Option (PullRequestRef × Text)
parsed_url none = none
parsed_url (some url) = elim (parse_pull_request_url url) [
  | none ↦ none
  | some ref ↦ some (ref, url)
]

abbrev pub derived_method : AgentRow → Option (Text × Text) → Option Text
derived_method row none = none
derived_method row (some (did, key)) =
    if text_eq did row.did then some (row.did ++ (codes "#" ++ key)) else none

-- `credentialRepo.save`: a second row for a job is refused, as a write that throws
abbrev pub put_credential : Option CredentialRow → CredentialRow → State → State
put_credential none row s = record s { credentials = set row.completed_job_id row s.credentials }
put_credential (some old) row s = s

abbrev pub is_new_credential : CredentialRow → State → Option (Unit {0})
is_new_credential row s = if is_some (get row.completed_job_id s.credentials) then none else some tt

abbrev pub flat_unit : Option (Option (Unit {0})) → Option (Unit {0})
flat_unit none = none
flat_unit (some o) = o

abbrev pub deemed_row : Job → Claim → Text → CredentialRow
deemed_row job claim signed = record {
  completed_job_id = job.id;
  subject_did = job.agent_did;
  claim = claim;
  signed = signed;
  repository_public = false;
}

abbrev pub work_claim : Job → Summary → Text → Text → Instant → Text → Claim
work_claim job summary url commit merged_at signed_by = work_history (record {
  job_id = job.id;
  repository = job.repository;
  pull_request_url = url;
  merge_commit_sha = commit;
  merged_at = merged_at;
  diff_additions = summary.additions;
  diff_deletions = summary.deletions;
  diff_files = summary.files_changed;
  brief_hash = job.brief_hash;
  spec_hash = job.confirmed_spec_hash;
  buyer_did = job.buyer_did;
  signed_by = signed_by;
})

abbrev pub work_row : Job → Claim → Text → Bool → CredentialRow
work_row job claim signed public = record {
  completed_job_id = job.id;
  subject_did = job.agent_did;
  claim = claim;
  signed = signed;
  repository_public = public;
}

module _ (ports : Ports) where
  abbrev pub observed_summary : Job → Text → Option Summary → Observation
  observed_summary job url none = answered (error 503 github_unavailable)
  observed_summary job url (some summary) =
      if chain_identifiers_match ports.lower_case (some summary.head_sha) job.staged_commit
      then observed summary url
      else moved_head

  abbrev pub observe_at : Job → Option (PullRequestRef × Text) → Route Observation
  observe_at job none = pure corrupted
  observe_at job (some (ref, url)) = do
    summary ← try λ t. ports.pull_request t ref
    pure (observed_summary job url summary)

  unfoldable pub observe_pull_request : Job → Route Observation
  observe_pull_request job = observe_at job (parsed_url job.pull_request_url)

  abbrev pub merge_instant : Option Instant → Route Instant
  merge_instant none = now ports
  merge_instant (some t) = pure t

  -- `mergeInstantOf`
  unfoldable pub merge_instant_of : Summary → Route Instant
  merge_instant_of summary = merge_instant summary.merged_at

  -- the key of a row, by `derivePlatformHeldAgentKey`
  abbrev pub key_of_row : Option AgentRow → Route (Option Text)
  key_of_row none = pure none
  key_of_row (some row) = do
    derived ← try λ t. ports.agent_key t row.operator_did row.delegation_id
    pure (derived_method row derived)

  abbrev pub key_after : Text → Result ResolveFault (Option Text) → Route (Option Text)
  key_after did (ok method) = pure method
  key_after did (err resolver_down) = pure none
  key_after did (err not_resolvable) = do
    row ← try λ t. ports.agent_row t did
    key_of_row (found_row row)

  -- `agentKeyForCredential`; `none` is any error it throws
  unfoldable pub agent_key_for_credential : Text → Route (Option Text)
  agent_key_for_credential did = do
    resolved ← try λ t. ports.verification_method t did
    key_after did resolved

  unfoldable pub save_credential : CredentialRow → Route (Option (Unit {0}))
  save_credential row = do
    saved ←
        store ports (is_new_credential row)
          (λ s. put_credential (get row.completed_job_id s.credentials) row s)
    pure (flat_unit saved)

  abbrev pub save_if_signed : Job → Claim → Option Text → Route (Unit {0})
  save_if_signed job claim none = pure tt
  save_if_signed job claim (some signed) = do save_credential (deemed_row job claim signed); pure tt

  -- nothing is issued if the look-up failed or found a credential
  abbrev pub issue_if_none : Job → Text → Option (Option CredentialRow) → Route (Unit {0})
  issue_if_none job commit (some none) = do
    let claim = deemed_completion job.id commit job.buyer_did
    signed ← try λ t. ports.sign_credential t job.agent_did claim
    save_if_signed job claim signed
  issue_if_none job commit found = pure tt

  abbrev pub issue_at : Job → Option Text → Route (Unit {0})
  issue_at job none = pure tt
  issue_at job (some commit) = do
    found ← store ports (λ s. get job.id s.credentials) same_state
    issue_if_none job commit found

  -- `issueDeemedCompletionCredentialIfMissing`
  unfoldable pub issue_deemed_completion_if_missing : Job → Route (Unit {0})
  issue_deemed_completion_if_missing job = issue_at job job.staged_commit

  -- the credential's row and the system row, behind the completed job's
  abbrev pub after_complete : Summary → Text → Claim → Text → Option (Option Job) → Route Completion
  after_complete summary commit claim signed none = pure (refused no_storage)
  after_complete summary commit claim signed (some none) = pure (refused (error 404 not_found))
  after_complete summary commit claim signed (some (some row)) = do
    let credential = work_row row claim signed summary.repository_public
    saved ← save_credential credential
    if not (is_some saved)
        then pure (refused no_storage)
        else do system_row ports row.id (work_completed commit); pure (completed_as row credential)

  abbrev pub complete_signed : Summary → Text → Job → Claim → Option Text → Route Completion
  complete_signed summary commit done claim none = pure (refused (error 503 credential_unavailable))
  complete_signed summary commit done claim (some signed) = do
    row ← update_job ports done
    after_complete summary commit claim signed row

  abbrev pub complete_keyed :
      Job → Summary → Text → Text → Instant → Job → Option Text → Route Completion
  complete_keyed job summary url commit merged_at done none =
      pure (refused (error 503 identity_unavailable))
  complete_keyed job summary url commit merged_at done (some key) = do
    let claim = work_claim job summary url commit merged_at key
    signed ← try λ t. ports.sign_credential t job.agent_did claim
    complete_signed summary commit done claim signed

  abbrev pub complete_outcome :
      Job
      → Summary
      → Text
      → Text
      → Instant
      → Result JobFault (Job × CompletedJob)
      → Route Completion
  complete_outcome job summary url commit merged_at (err fault) =
      pure (refused (error 409 (job_fault fault)))
  complete_outcome job summary url commit merged_at (ok (done, anchor)) = do
    key ← agent_key_for_credential job.agent_did
    complete_keyed job summary url commit merged_at done key

  abbrev pub complete_at : Job → Summary → Text → Option Text → Route Completion
  complete_at job summary url none = pure no_commit_sha
  complete_at job summary url (some commit) = do
    merged_at ← merge_instant_of summary
    complete_outcome job summary url commit merged_at (complete_job job commit merged_at)

  -- `completeMergedPullRequest`
  unfoldable pub complete_merged_pull_request : Job → Summary → Text → Route Completion
  complete_merged_pull_request job summary url =
      complete_at job summary url summary.merge_commit_sha
