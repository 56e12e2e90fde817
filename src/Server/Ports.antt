-- ===== src/Server/Ports.antt =====
-- What the handlers of `src/api/app.ts` work with: the answers they send, the state that they
-- write, and the ports that they ask. A port is asked at a tick, which every call moves on, so that
-- two calls may be answered differently; `none` is a call that throws.
use freeagents.Base.{ℕ, Bool, Option, List, Result}
use freeagents.Base.Text.{Text}
use freeagents.Base.Number.{Number}
use freeagents.Base.Table.{Table}
use freeagents.Job.Status.{JobStatus}
use freeagents.Job.Model.{Instant, Party, Rail, Repo, Job, JobFault}

pub data Leg : Type 0 where
  deposit remainder : Leg

-- `HeldLegAction`
pub data HeldAction : Type 0 where
  change_terms withdraw_it decline_it decline_staged redo_it : HeldAction

pub record WorkClaim : Type 0 where
  pub job_id : Text
  pub repository : Text
  pub pull_request_url : Text
  pub merge_commit_sha : Text
  pub merged_at : Instant
  pub diff_additions : Number
  pub diff_deletions : Number
  pub diff_files : Number
  pub brief_hash : Text
  pub spec_hash : Option Text
  pub buyer_did : Text
  pub signed_by : Text

-- What the platform signs a credential about: a merge, or a deemed completion with its job, the
-- staged commit and the buyer.
pub data Claim : Type 0 where
  work_history : WorkClaim → Claim
  deemed_completion : Text → Text → Text → Claim

-- a row of `CredentialRepository`; `signed` is the credential as the adapter signed it
pub record CredentialRow : Type 0 where
  pub completed_job_id : Text
  pub subject_did : Text
  pub claim : Claim
  pub signed : Text
  pub repository_public : Bool

-- What an error answer says.
pub data Refusal : Type 0 where
  storage_unavailable github_unavailable identity_unavailable credential_unavailable : Refusal
  staging_unavailable observation_unavailable attestation_failed signing_unavailable : Refusal
  too_large_to_attest attestation_stored not_found sign_in not_a_party : Refusal
  signature_not_a_party owner_has_not_allowed bad_body bad_price_body below_floor : Refusal
  only_seats : List Party → Refusal
  job_fault : JobFault → Refusal
  cannot_merge : JobStatus → Refusal
  leg_held : HeldAction → Bool → Refusal
  paid_in_full sibling_confirmed no_settlement_record no_verified_login : Refusal
  repository_not_accessible no_push_access no_such_commit not_a_descendant : Refusal
  unpaid : Leg → Option Text → Refusal
  wrong_base wrong_head_owner wrong_author wrong_head_sha pull_request_not_open : Refusal
  no_job_line head_moved already_stale still_open closed_not_merged : Refusal
  internal_error : Refusal

pub data Body : Type 0 where
  job_body : Job → Body
  completed_body : Job → CredentialRow → Body
  error_body : Refusal → Body

pub record Answer : Type 0 where
  pub status : ℕ
  pub body : Body

-- what a route answers with 200
pub data Success : Type 0 where
  job_row : Job → Success
  receipt : Job → CredentialRow → Success

-- an error answer
pub record Failure : Type 0 where
  pub status : ℕ
  pub refusal : Refusal

-- The rows that a `Job` update, a credential, an attestation, a system message and a notification
-- are stored in.
pub data SystemEvent : Type 0 where
  quote_sent : Text → Option Text → Option ℕ → ℕ → SystemEvent
  work_staged : SystemEvent
  pull_request_opened : Text → SystemEvent
  work_completed : Text → SystemEvent
  staging_invited : Text → Text → SystemEvent

pub data NoticeKind : Type 0 where
  quote_changed sibling_withdrawn new_message : NoticeKind

pub record Notice : Type 0 where
  pub account_did : Text
  pub job_id : Text
  pub kind : NoticeKind

pub record State : Type 0 where
  pub tick : ℕ
  pub rows : Table Job
  pub credentials : Table CredentialRow
  pub attestations : Table (List Text)
  pub messages : List (Text × SystemEvent)
  pub notices : List Notice

pub record AgentRow : Type 0 where
  pub did : Text
  pub operator_did : Text
  pub github_login : Option Text
  pub is_verified : Bool
  pub floor_price_usd : Option Text
  pub negotiates_on_owners_behalf : Bool
  pub delegation_id : Text

pub record SettlementRow : Type 0 where
  pub rail : Rail
  pub observed_at : Instant

-- a pull request, by its number, which is below 2 ^ 53
pub record PullRequestRef : Type 0 where
  pub owner : Text
  pub repo : Text
  pub number : ℕ

pub data PullRequestState : Type 0 where
  open_state closed_state merged_state : PullRequestState

pub record Summary : Type 0 where
  pub state : PullRequestState
  pub merge_commit_sha : Option Text
  pub merged_at : Option Instant
  pub head_sha : Text
  pub additions : Number
  pub deletions : Number
  pub files_changed : Number
  pub repository_public : Bool
  pub head_repo_owner : Option Text
  pub head_repo_is_fork : Bool
  pub base_repo_full_name : Text
  pub author_login : Option Text
  pub body : Text

-- what `github.readRepository` reports
pub record RepositoryFacts : Type 0 where
  pub sha : Text
  pub full_name : Text

-- `RepositoryNotAccessibleError` apart from any other error of the repository's reading
pub data StagingFault : Type 0 where
  not_accessible other_fault : StagingFault

pub data ObserveFault : Type 0 where
  truncated observe_failed : ObserveFault

-- `buildAttestation` fails with an `AttestationError`, or otherwise
pub data AttestationFault : Type 0 where
  attestation_error build_fault : AttestationFault

-- `resolveDid` fails with a `DidNotResolvableError`, or otherwise
pub data ResolveFault : Type 0 where
  not_resolvable resolver_down : ResolveFault

pub data Permission : Type 0 where
  no_permission read_permission write_permission admin_permission : Permission

pub data SessionMethod : Type 0 where
  passkey github_oauth : SessionMethod

-- who a request comes from: a verified signature's DID, a live session's subject and method
pub record Request : Type 0 where
  pub signer_did : Option Text
  pub session : Option (Text × SessionMethod)

-- The code outside these handlers.
pub record Ports : Type 0 where
  -- `new Date()`
  pub clock : ℕ → Instant
  -- whether a call of a repository of jobs, credentials, attestations, messages or notices throws
  pub storage_fails : ℕ → Bool
  -- the SHA-256 digest in hexadecimal, `toLowerCase`, and `Number(a) < Number(b)`
  pub sha256_hex : Text → Text
  pub lower_case : Text → Text
  pub is_less : Text → Text → Bool
  -- `SettlementGate`
  pub gate : ℕ → Leg → Text → Option Bool
  -- `settlementRepo.findByJobAndLeg`
  pub settlement : ℕ → Leg → Text → Option (Option SettlementRow)
  -- the number of short payments stored, without a store `none`
  pub shorts : Option (ℕ → Leg → Text → Option ℕ)
  -- whether the rail's half-paid record is there with its price confirmed, without a rail `none`
  pub usdc_half_paid : Option (ℕ → Leg → Text → Option Bool)
  pub abt_eth_half_paid : Option (ℕ → Leg → Text → Option Bool)
  -- `agentRepo.findByDid`
  pub agent_row : ℕ → Text → Option (Option AgentRow)
  -- the account of a session, and its provisioning
  pub account_did : ℕ → SessionMethod → Text → Option (Option Text)
  pub provision : ℕ → SessionMethod → Text → Option (Option Text)
  -- the first verification method of `resolveDid`, and `createAgentDid` with its key
  pub verification_method : ℕ → Text → Result ResolveFault (Option Text)
  pub agent_key : ℕ → Text → Text → Option (Text × Text)
  -- the credentials adapter, and its signature of an attestation
  pub sign_credential : ℕ → Text → Claim → Option Text
  pub sign_attestation : ℕ → Text → Option Text
  -- whether the driver refuses an attestation with `AttestationAlreadyStoredError`
  pub attestation_conflict : ℕ → Bool
  -- `github`
  pub pull_request : ℕ → PullRequestRef → Option Summary
  pub commit_parents : ℕ → Repo → Text → Option (List Text)
  pub permission : ℕ → Repo → Text → Option Permission
  pub read_repository : ℕ → Repo → Result StagingFault RepositoryFacts
  pub create_staging : ℕ → Text → Repo → Text → Result StagingFault (Repo × Text)
  pub grant_push : ℕ → Repo → Text → Result StagingFault (Option Text)
  -- `stagingObserver.observe` with `buildAttestation`
  pub observe : ℕ → Repo → Text → Text → Text → Result ObserveFault Text
  pub build_attestation : ℕ → Job → Text → Result AttestationFault Text
