-- ===== src/Server/Clocks.antt =====
-- The clocks on a read in `src/api/app.ts`: `askGithubBeforeDeeming`, `applyLiveLapses`,
-- `loadForExchange`, and the clock of the list reads, `liveLapsesForList`.
pub mod Live
pub mod Listed
use freeagents.Base.{
  if◌then◌else◌, is_some, Bool, true, false, not, ◌||◌, Option, none, some, List, [], ◌∷◌,
}
use freeagents.Base.Text.{Text}
use freeagents.Base.Table.{Table, get, set}
use freeagents.Job.Status.{JobStatus, deemed_completed, same_status}
use freeagents.Job.Model.{Instant, Job}
use freeagents.Job.Clocks.{
  is_lapse_status, deem_window_has_passed, merged_inside_window, apply_lapses,
}
use freeagents.Server.Ports.{
  remainder, CredentialRow, github_unavailable, not_found, State, SettlementRow, PullRequestState,
  merged_state, Summary, Ports,
}
use freeagents.Server.Route.{
  Reply, sent, value, Route, ◌>>=◌, ◌>>◌, error, pure, send, or_send, ask, no_storage, now,
  find_job, update_job,
}
use freeagents.Server.Holds.{rail_held_by_short_payment, ask_gate}
use freeagents.Server.Observe.{
  Observation, corrupted, answered, moved_head, observed, Completion, no_commit_sha, refused,
  completed_as, observe_pull_request, merge_instant_of, issue_deemed_completion_if_missing,
  complete_merged_pull_request,
}

-- A job that a load answers, with the credential if this load completed it (`completedOnLoad`).
pub record Loaded : Type 0 where
  pub job : Job
  pub completed_now : Option CredentialRow

abbrev pub as_stored : Job → Loaded
as_stored job = record { job = job; completed_now = none }

-- What the clocks are told of the remainder.
pub record RemainderFacts : Type 0 where
  pub is_settled : Bool
  pub settled_at : Option Instant
  pub awaiting_owner : Bool

abbrev pub nothing_settled : RemainderFacts
nothing_settled = record { is_settled = false; settled_at = none; awaiting_owner = false }

abbrev pub observed_time : Option SettlementRow → Option Instant
observed_time none = none
observed_time (some row) = some row.observed_at

abbrev pub is_merged : PullRequestState → Bool
is_merged merged_state = true
is_merged s = false

abbrev pub is_deemed : JobStatus → Bool
is_deemed deemed_completed = true
is_deemed s = false

-- `persisted ?? lapsed`, and `lapsed` where the write threw
abbrev pub persisted_or : Job → Option (Option Job) → Job
persisted_or lapsed (some (some row)) = row
persisted_or lapsed failed = lapsed

-- a completed row, or a deeming; any failure is sent
abbrev pub asked_completion : Completion → Route (Option Loaded)
asked_completion no_commit_sha = send (error 503 github_unavailable)
asked_completion (refused r) = send r
asked_completion (completed_as row credential) =
    pure (some (record { job = row; completed_now = some credential }))

-- An answer that was sent to the sink of a list read is dropped, and the stored row kept.
abbrev pub kept_row : Job → Reply Loaded × State → Reply Job × State
kept_row stored (sent r, s) = (value stored, s)
kept_row stored (value loaded, s) = (value loaded.job, s)

module _ (ports : Ports) where
  abbrev pub short_unless_settled : Bool → Text → Route Bool
  short_unless_settled true job_id = pure false
  short_unless_settled false job_id = do
    short ← rail_held_by_short_payment ports remainder job_id
    pure (is_some short)

  -- the reads of `applyLiveLapses` on a staged or redo_requested job
  unfoldable pub remainder_facts : Job → Route RemainderFacts
  remainder_facts job = if not (is_lapse_status job.status) then pure nothing_settled else do
    is_settled ← ask_gate ports remainder job.id
    row ← ask no_storage λ t. ports.settlement t remainder job.id
    awaiting_owner ← short_unless_settled is_settled job.id
    pure (record {
      is_settled = is_settled;
      settled_at = observed_time row;
      awaiting_owner = awaiting_owner;
    })

  abbrev pub asked_merge : Job → Summary → Text → Route (Option Loaded)
  asked_merge job summary url = do
    merged_at ← merge_instant_of ports summary
    if not (merged_inside_window job merged_at) then pure none else do
      completion ← complete_merged_pull_request ports job summary url
      asked_completion completion

  abbrev pub asked_observation : Job → Observation → Route (Option Loaded)
  asked_observation job corrupted = send (error 503 github_unavailable)
  asked_observation job (answered r) = send r
  asked_observation job moved_head = pure none
  asked_observation job (observed summary url) =
      if not (is_merged summary.state) then pure none else asked_merge job summary url

  -- `askGithubBeforeDeeming`; `none` lets the caller run the deem clock
  unfoldable pub ask_github_before_deeming : Job → Route (Option Loaded)
  ask_github_before_deeming job = do
    observation ← observe_pull_request ports job
    asked_observation job observation

  abbrev pub asked_if_passed : Job → Instant → Route (Option Loaded)
  asked_if_passed job time =
      if deem_window_has_passed job time then ask_github_before_deeming job else pure none

  abbrev pub issue_if : Bool → Job → Route (Unit {0})
  issue_if true job = issue_deemed_completion_if_missing ports job
  issue_if false job = pure tt

  -- A job whose status no deadline changed, or the row that a passed one gives, stored if it can
  -- be.
  abbrev pub unchanged_row : Job → Route Loaded
  unchanged_row job = do issue_if (is_deemed job.status) job; pure (as_stored job)

  abbrev pub stored_lapse : Job → Route Loaded
  stored_lapse lapsed = do
    issue_if (is_deemed lapsed.status) lapsed
    row ← update_job ports lapsed
    pure (as_stored (persisted_or lapsed row))

  abbrev pub persist_lapse : Job → Job → Route Loaded
  persist_lapse job lapsed =
      if same_status lapsed.status job.status then unchanged_row job else stored_lapse lapsed

  abbrev pub lapsed_unless_completed : Job → Instant → RemainderFacts → Option Loaded → Route Loaded
  lapsed_unless_completed job time facts (some loaded) = pure loaded
  lapsed_unless_completed job time facts none =
      persist_lapse job
        (apply_lapses job time (facts.is_settled || facts.awaiting_owner) facts.settled_at)

  -- `applyLiveLapses`
  unfoldable pub apply_live_lapses : Job → Route Loaded
  apply_live_lapses job = do
    facts ← remainder_facts job
    time ← now ports
    asked ← asked_if_passed job time
    lapsed_unless_completed job time facts asked

  -- `loadForExchange`
  unfoldable pub load_for_exchange : Text → Route Loaded
  load_for_exchange job_id = do
    found ← find_job ports job_id
    row ← or_send no_storage found
    job ← or_send (error 404 not_found) row
    apply_live_lapses job

  unfoldable pub live_or_stored : Job → Route Job
  live_or_stored stored s = kept_row stored (apply_live_lapses stored s)

  abbrev pub live_unless_answered : Option Job → Job → Route Job
  live_unless_answered (some row) stored = pure row
  live_unless_answered none stored = live_or_stored stored

  -- `liveLapsesForList`, on the rows answered so far in the request
  unfoldable pub live_lapses_for_list : Table Job → List Job → Route (List Job)
  live_lapses_for_list memory [] = pure []
  live_lapses_for_list memory (stored ∷ jobs) = do
    row ← live_unless_answered (get stored.id memory) stored
    rows ← live_lapses_for_list (set stored.id row memory) jobs
    pure (row ∷ rows)
