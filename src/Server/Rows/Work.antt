-- ===== src/Server/Rows/Work.antt =====
-- The routes on staged work, of the pull request and of the merge keep a property of jobs that the
-- changes keep.
use freeagents.Base.{Result, err, ok, ◌≡◌, refl, Option, none, some}
use freeagents.Base.Text.{Text}
use freeagents.Base.Number.{Number}
use freeagents.Job.Model.{Instant, Job, JobFault}
use freeagents.Job.Lifecycle.{stage_work, record_closed_unmerged, record_stale}
use freeagents.Job.Event.{
  stage_event, redo_event, refuse_event, staged_declined_event, submit_event, closed_unmerged_event,
  cited_event, stale_event, perform,
}
use freeagents.Server.Ports.{
  CredentialRow, PullRequestState, open_state, closed_state, merged_state, Summary, Request, Ports,
}
use freeagents.Server.Observe.{
  Observation, corrupted, answered, moved_head, observed, Completion, no_commit_sha, refused,
  completed_as,
}
use freeagents.Server.Exchange.{no_hook}
use freeagents.Server.Terms.{Field}
use freeagents.Server.Work.{
  or_thrown, stage_route, staged_decline_route, redo_route, redo_refuse_route, cited_close_route,
}
use freeagents.Server.Submit.{pull_request_route}
use freeagents.Server.Merge.{
  merged_answer, record_outcome, outcome_of, merge_observation, merge_unless_completed, merge_route,
}
use freeagents.Server.Reads.{
  ReadsOnly, pure-ReadsOnly, send-ReadsOnly, or_send-ReadsOnly, send_if-ReadsOnly, ask-ReadsOnly,
  now-ReadsOnly,
}
use freeagents.Server.Reads.Guards.{paid-ReadsOnly, message-ReadsOnly}
use freeagents.Server.Reads.Checks.{
  transition-ReadsOnly, observe-ReadsOnly, commit-ReadsOnly, attest-ReadsOnly, remainder-ReadsOnly,
  pull_request-ReadsOnly,
}
use freeagents.Server.Rows.{
  Change, Keeps, Any, reads-Keeps, pure-Keeps, send-Keeps, if-Keeps, bind-Keeps, after-Keeps,
}
use freeagents.Server.Rows.Sound.{IsDone, complete-Keeps}
use freeagents.Server.Rows.Routes.{
  event-Applies, persist-Keeps, apply-Keeps, exchange-Keeps, IsGated, gate-Keeps,
}

module _ (ports : Ports) (P : Job → Type 0)
    (keep : (a b : Job) → Change ports.sha256_hex a b → P a → P b) where
  or_thrown-Keeps :
      (r : Result JobFault Job) → ((b : Job) → r ≡ ok b → P b) → Keeps P P (or_thrown r)
  or_thrown-Keeps (err fault) q = send-Keeps P P _
  or_thrown-Keeps (ok b) q = pure-Keeps P P b (q b refl)

  staged-P :
      (job : Job) (commit : Text) (time : Instant) (b : Job)
      → stage_work job commit time ≡ ok b
      → P job
      → P b
  unfolding perform
  staged-P job commit time b e p = event-Applies ports P keep (stage_event commit time) job b e p

  pub stage-Keeps :
      (job_id : Text) (request : Request) (commit : Field Text)
      → Keeps P Any (stage_route ports job_id request commit)
  unfolding stage_route
  stage-Keeps job_id request field =
      bind-Keeps P (IsGated ports P keep) Any _ _ (gate-Keeps ports P keep job_id request _)
        λ gate p. after-Keeps P Any _ _ (or_send-ReadsOnly _ _) λ commit.
          after-Keeps P Any _ _ (transition-ReadsOnly _) λ u.
            after-Keeps P Any _ _ (or_send-ReadsOnly _ _) λ staging.
              after-Keeps P Any _ _ (ask-ReadsOnly _ _) λ row.
                after-Keeps P Any _ _ (or_send-ReadsOnly _ _) λ login.
                  after-Keeps P Any _ _ (commit-ReadsOnly ports _ _ login commit) λ v.
                    after-Keeps P Any _ _ (now-ReadsOnly ports) λ time.
                      bind-Keeps P P Any _ _
                        (or_thrown-Keeps (stage_work gate.loaded.job commit time)
                          λ b e. staged-P gate.loaded.job commit time b e p)
                        λ next q.
                          after-Keeps P Any _ _
                            (attest-ReadsOnly ports gate.loaded.job _ _ _ _ next)
                            λ w.
                              persist-Keeps ports P keep next _ q
                                λ row. reads-Keeps P _ (message-ReadsOnly ports _ _)

  quiet : (row : Job) → ReadsOnly (no_hook row)
  quiet row = pure-ReadsOnly tt

  pub staged_decline-Keeps :
      (job_id : Text) (request : Request) → Keeps P Any (staged_decline_route ports job_id request)
  unfolding staged_decline_route perform
  staged_decline-Keeps job_id request =
      bind-Keeps P (IsGated ports P keep) Any _ _ (gate-Keeps ports P keep job_id request _)
        λ gate p. after-Keeps P Any _ _ (paid-ReadsOnly ports gate.loaded.job _) λ u.
          apply-Keeps ports P keep gate.loaded.job _ none no_hook p
            (event-Applies ports P keep staged_declined_event) quiet

  pub redo-Keeps :
      (job_id : Text) (request : Request) (index : Field Number)
      → Keeps P Any (redo_route ports job_id request index)
  unfolding redo_route perform
  redo-Keeps job_id request field =
      bind-Keeps P (IsGated ports P keep) Any _ _ (gate-Keeps ports P keep job_id request _)
        λ gate p. after-Keeps P Any _ _ (or_send-ReadsOnly _ _) λ index.
          after-Keeps P Any _ _ (paid-ReadsOnly ports gate.loaded.job _) λ u.
            after-Keeps P Any _ _ (now-ReadsOnly ports) λ time.
              apply-Keeps ports P keep gate.loaded.job _ none no_hook p
                (event-Applies ports P keep (redo_event index time)) quiet

  pub redo_refuse-Keeps :
      (job_id : Text) (request : Request) → Keeps P Any (redo_refuse_route ports job_id request)
  unfolding redo_refuse_route perform
  redo_refuse-Keeps job_id request =
      bind-Keeps P (IsGated ports P keep) Any _ _ (gate-Keeps ports P keep job_id request _)
        λ gate p. after-Keeps P Any _ _ (now-ReadsOnly ports) λ time.
          apply-Keeps ports P keep gate.loaded.job _ none no_hook p
            (event-Applies ports P keep (refuse_event time)) quiet

  pub cited_close-Keeps :
      (job_id : Text) (request : Request) (index : Field Number) (reason : Field Text)
      → Keeps P Any (cited_close_route ports job_id request index reason)
  unfolding cited_close_route perform
  cited_close-Keeps job_id request index_field reason_field =
      bind-Keeps P (IsGated ports P keep) Any _ _ (gate-Keeps ports P keep job_id request _)
        λ gate p. after-Keeps P Any _ _ (or_send-ReadsOnly _ _) λ index.
          after-Keeps P Any _ _ (or_send-ReadsOnly _ _) λ reason.
            after-Keeps P Any _ _ (now-ReadsOnly ports) λ time.
              apply-Keeps ports P keep gate.loaded.job _ _ no_hook p
                (event-Applies ports P keep (cited_event index reason time)) quiet

  pub pull_request-Keeps :
      (job_id : Text) (request : Request) (url : Field Text)
      → Keeps P Any (pull_request_route ports job_id request url)
  unfolding pull_request_route perform
  pull_request-Keeps job_id request field =
      bind-Keeps P (IsGated ports P keep) Any _ _ (gate-Keeps ports P keep job_id request _)
        λ gate p. after-Keeps P Any _ _ (or_send-ReadsOnly _ _) λ url.
          after-Keeps P Any _ _ (or_send-ReadsOnly _ _) λ ref.
            after-Keeps P Any _ _ (remainder-ReadsOnly ports job_id gate.loaded.job) λ u.
              after-Keeps P Any _ _ (pull_request-ReadsOnly ports job_id gate.loaded.job ref) λ v.
                after-Keeps P Any _ _ (now-ReadsOnly ports) λ time.
                  exchange-Keeps ports P keep job_id _ none _
                    (event-Applies ports P keep (submit_event url time))
                    (λ row. message-ReadsOnly ports _ _)

  outcome-Keeps :
      (r : Result JobFault Job)
      → ((b : Job) → r ≡ ok b → P b)
      → Keeps P Any (record_outcome ports r)
  unfolding record_outcome
  outcome-Keeps (err fault) q =
      bind-Keeps P P Any _ _ (send-Keeps P P _)
        λ next p. persist-Keeps ports P keep next no_hook p λ row. reads-Keeps P _ (quiet row)
  outcome-Keeps (ok b) q =
      bind-Keeps P P Any _ _ (pure-Keeps P P b (q b refl))
        λ next p. persist-Keeps ports P keep next no_hook p λ row. reads-Keeps P _ (quiet row)

  merged_answer-ReadsOnly : (c : Completion) → ReadsOnly (merged_answer c)
  merged_answer-ReadsOnly no_commit_sha = send-ReadsOnly _
  merged_answer-ReadsOnly (refused r) = send-ReadsOnly _
  merged_answer-ReadsOnly (completed_as row credential) = pure-ReadsOnly _

  outcome_of-Keeps :
      (job : Job) (summary : Summary) (url : Text) (state : PullRequestState)
      → P job
      → Keeps P Any (outcome_of ports job summary url state)
  unfolding perform
  outcome_of-Keeps job summary url open_state p = if-Keeps P Any _ _ _ (send-Keeps P Any _) (
      after-Keeps P Any _ _ (now-ReadsOnly ports) λ time.
        if-Keeps P Any _ _ _
          (outcome-Keeps (record_stale job) λ b e. event-Applies ports P keep stale_event job b e p)
          (send-Keeps P Any _))
  outcome_of-Keeps job summary url closed_state p = if-Keeps P Any _ _ _ (send-Keeps P Any _) (
      outcome-Keeps (record_closed_unmerged job)
        λ b e. event-Applies ports P keep closed_unmerged_event job b e p)
  outcome_of-Keeps job summary url merged_state p =
      bind-Keeps P (IsDone ports P keep) Any _ _ (complete-Keeps ports P keep job summary url p)
        λ c q. reads-Keeps P _ (merged_answer-ReadsOnly c)

  observation-Keeps :
      (job : Job) (o : Observation) → P job → Keeps P Any (merge_observation ports job o)
  observation-Keeps job corrupted p = send-Keeps P Any _
  observation-Keeps job (answered r) p = send-Keeps P Any _
  observation-Keeps job moved_head p = send-Keeps P Any _
  observation-Keeps job (observed summary url) p = outcome_of-Keeps job summary url _ p

  unless_completed-Keeps :
      (job : Job) (done : Option CredentialRow)
      → P job
      → Keeps P Any (merge_unless_completed ports job done)
  unless_completed-Keeps job (some credential) p = pure-Keeps P Any _ tt
  unless_completed-Keeps job none p =
      after-Keeps P Any _ _ (send_if-ReadsOnly _ _)
        λ u. after-Keeps P Any _ _ (observe-ReadsOnly ports job) λ o. observation-Keeps job o p

  pub merge-Keeps :
      (job_id : Text) (request : Request) → Keeps P Any (merge_route ports job_id request)
  unfolding merge_route
  merge-Keeps job_id request =
      bind-Keeps P (IsGated ports P keep) Any _ _ (gate-Keeps ports P keep job_id request _)
        λ gate p. unless_completed-Keeps gate.loaded.job _ p
