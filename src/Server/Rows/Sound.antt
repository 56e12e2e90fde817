-- ===== src/Server/Rows/Sound.antt =====
-- Every handler keeps a property of jobs that the changes keep: the clocks of a load, and the
-- skeletons that the routes share.
use freeagents.Base.{Result, err, ok, ◌≡◌, refl, Option, none, some, Bool}
use freeagents.Base.Text.{Text}
use freeagents.Job.Model.{Instant, Job, CompletedJob, JobFault}
use freeagents.Job.Lifecycle.{complete_job}
use freeagents.Job.Event.{complete_event, perform, lapse_event}
use freeagents.Job.Perform.{perform-Step}
use freeagents.Server.Ports.{Claim, CredentialRow, Summary, Ports}
use freeagents.Server.Observe.{
  Completion, completed_as, after_complete, complete_signed, complete_keyed, complete_outcome,
  complete_at, complete_merged_pull_request, Observation, corrupted, answered, moved_head, observed,
  no_commit_sha, refused,
}
use freeagents.Server.Reads.{try-ReadsOnly, now-ReadsOnly}
use freeagents.Server.Reads.Guards.{message-ReadsOnly}
use freeagents.Server.Reads.Checks.{
  merge_instant_of-ReadsOnly, key-ReadsOnly, save_credential-ReadsOnly, observe-ReadsOnly,
  issue-ReadsOnly, facts-ReadsOnly,
}
use freeagents.Server.Rows.{
  Change, steps, Keeps, IsFound, pure-Keeps, if-Keeps, bind-Keeps, after-Keeps, update-Keeps,
  send-Keeps, or_send-Keeps, find-Keeps,
}
use freeagents.Server.Clocks.{
  ask_github_before_deeming, load_for_exchange, asked_observation, asked_completion, persist_lapse,
  Loaded, persisted_or, apply_live_lapses, RemainderFacts, asked_if_passed, lapsed_unless_completed,
}
use freeagents.Job.Clocks.{apply_lapses}

module _ (ports : Ports) (P : Job → Type 0)
    (keep : (a b : Job) → Change ports.sha256_hex a b → P a → P b) where
  -- what a completion answers
  abbrev pub IsDone : Completion → Type 0
  IsDone c = (row : Job) (credential : CredentialRow) → c ≡ completed_as row credential → P row

  after_complete-Keeps :
      (summary : Summary) (commit : Text) (claim : Claim) (signed : Text)
      (row : Option (Option Job))
      → IsFound P row
      → Keeps P IsDone (after_complete ports summary commit claim signed row)
  after_complete-Keeps summary commit claim signed none q = pure-Keeps P IsDone _ (λ r c e. cc)
  after_complete-Keeps summary commit claim signed (some none) q =
      pure-Keeps P IsDone _ (λ r c e. cc)
  after_complete-Keeps summary commit claim signed (some (some row)) q =
      after-Keeps P IsDone _ _ (save_credential-ReadsOnly ports _) λ saved.
        if-Keeps P IsDone _ _ _ (pure-Keeps P IsDone _ (λ r c e. cc)) (
          after-Keeps P IsDone _ _ (message-ReadsOnly ports _ _)
            λ u. pure-Keeps P IsDone _ (λ r c e. q r (cc)))

  complete_signed-Keeps :
      (summary : Summary) (commit : Text) (done : Job) (claim : Claim) (signed : Option Text)
      → P done
      → Keeps P IsDone (complete_signed ports summary commit done claim signed)
  complete_signed-Keeps summary commit done claim none p = pure-Keeps P IsDone _ (λ r c e. cc)
  complete_signed-Keeps summary commit done claim (some signed) p =
      bind-Keeps P (IsFound P) IsDone _ _ (update-Keeps P ports done p)
        λ row q. after_complete-Keeps summary commit claim signed row q

  complete_keyed-Keeps :
      (job : Job) (summary : Summary) (url commit : Text) (at : Instant) (done : Job)
      (key : Option Text)
      → P done
      → Keeps P IsDone (complete_keyed ports job summary url commit at done key)
  complete_keyed-Keeps job summary url commit at done none p = pure-Keeps P IsDone _ (λ r c e. cc)
  complete_keyed-Keeps job summary url commit at done (some key) p =
      after-Keeps P IsDone _ _ (try-ReadsOnly _)
        λ signed. complete_signed-Keeps summary commit done _ signed p

  complete_outcome-Keeps :
      (job : Job) (summary : Summary) (url commit : Text) (at : Instant)
      (outcome : Result JobFault (Job × CompletedJob))
      → ((done : Job) (anchor : CompletedJob) → outcome ≡ ok (done, anchor) → P done)
      → Keeps P IsDone (complete_outcome ports job summary url commit at outcome)
  complete_outcome-Keeps job summary url commit at (err fault) p =
      pure-Keeps P IsDone _ (λ r c e. cc)
  complete_outcome-Keeps job summary url commit at (ok (done, anchor)) p =
      after-Keeps P IsDone _ _ (key-ReadsOnly ports _)
        λ key. complete_keyed-Keeps job summary url commit at done key (p done anchor refl)

  completed-P :
      (job : Job) (commit : Text) (at : Instant) (done : Job) (anchor : CompletedJob)
      → complete_job job commit at ≡ ok (done, anchor)
      → P job
      → P done
  unfolding perform
  completed-P job commit at done anchor e p =
      keep job done
        (steps (perform-Step ports.sha256_hex (complete_event commit at) job (rw e refl))) p

  complete_at-Keeps :
      (job : Job) (summary : Summary) (url : Text) (commit : Option Text)
      → P job
      → Keeps P IsDone (complete_at ports job summary url commit)
  complete_at-Keeps job summary url none p = pure-Keeps P IsDone _ (λ r c e. cc)
  complete_at-Keeps job summary url (some commit) p =
      after-Keeps P IsDone _ _ (merge_instant_of-ReadsOnly ports summary) λ at.
        complete_outcome-Keeps job summary url commit at _
          (λ done anchor e. completed-P job commit at done anchor e p)

  pub complete-Keeps :
      (job : Job) (summary : Summary) (url : Text)
      → P job
      → Keeps P IsDone (complete_merged_pull_request ports job summary url)
  unfolding complete_merged_pull_request
  complete-Keeps job summary url p = complete_at-Keeps job summary url _ p

  -- a lapse is a call of the hire loop
  lapses-P :
      (job : Job) (time : Instant) (settled : Bool) (at : Option Instant)
      → P job
      → P (apply_lapses job time settled at)
  unfolding perform
  lapses-P job time settled at p =
      keep job _ (steps (perform-Step ports.sha256_hex (lapse_event time settled at) job refl)) p

  abbrev pub IsLive : Loaded → Type 0
  IsLive loaded = P loaded.job

  abbrev pub IsAsked : Option Loaded → Type 0
  IsAsked none = Unit
  IsAsked (some loaded) = P loaded.job

  asked_completion-Keeps : (c : Completion) → IsDone c → Keeps P IsAsked (asked_completion c)
  asked_completion-Keeps no_commit_sha q = send-Keeps P IsAsked _
  asked_completion-Keeps (refused r) q = send-Keeps P IsAsked r
  asked_completion-Keeps (completed_as row credential) q =
      pure-Keeps P IsAsked _ (q row credential refl)

  asked_observation-Keeps :
      (job : Job) (o : Observation) → P job → Keeps P IsAsked (asked_observation ports job o)
  asked_observation-Keeps job corrupted p = send-Keeps P IsAsked _
  asked_observation-Keeps job (answered r) p = send-Keeps P IsAsked r
  asked_observation-Keeps job moved_head p = pure-Keeps P IsAsked none tt
  asked_observation-Keeps job (observed summary url) p =
      if-Keeps P IsAsked _ _ _ (pure-Keeps P IsAsked none tt) (
        after-Keeps P IsAsked _ _ (merge_instant_of-ReadsOnly ports summary) λ at.
          if-Keeps P IsAsked _ _ _ (pure-Keeps P IsAsked none tt) (
            bind-Keeps P IsDone IsAsked _ _ (complete-Keeps job summary url p)
              asked_completion-Keeps))

  consulted-Keeps :
      (job : Job) (time : Instant) → P job → Keeps P IsAsked (asked_if_passed ports job time)
  unfolding ask_github_before_deeming
  consulted-Keeps job time p =
      if-Keeps P IsAsked _ _ _
        (after-Keeps P IsAsked _ _ (observe-ReadsOnly ports job)
          λ o. asked_observation-Keeps job o p)
        (pure-Keeps P IsAsked none tt)

  persisted-P :
      (lapsed : Job) (row : Option (Option Job))
      → P lapsed
      → IsFound P row
      → P (persisted_or lapsed row)
  persisted-P lapsed (some (some row)) p q = q row refl
  persisted-P lapsed (some none) p q = p
  persisted-P lapsed none p q = p

  persist_lapse-Keeps :
      (job lapsed : Job) → P job → P lapsed → Keeps P IsLive (persist_lapse ports job lapsed)
  persist_lapse-Keeps job lapsed p l =
      if-Keeps P IsLive _ _ _
        (after-Keeps P IsLive _ _ (issue-ReadsOnly ports _ job) λ u. pure-Keeps P IsLive _ p)
        (after-Keeps P IsLive _ _ (issue-ReadsOnly ports _ lapsed) λ u.
          bind-Keeps P (IsFound P) IsLive _ _ (update-Keeps P ports lapsed l)
            λ row q. pure-Keeps P IsLive _ (persisted-P lapsed row l q))

  unless_completed-Keeps :
      (job : Job) (time : Instant) (facts : RemainderFacts) (asked : Option Loaded)
      → P job
      → IsAsked asked
      → Keeps P IsLive (lapsed_unless_completed ports job time facts asked)
  unless_completed-Keeps job time facts (some loaded) p q = pure-Keeps P IsLive _ q
  unless_completed-Keeps job time facts none p q =
      persist_lapse-Keeps job _ p (lapses-P job time _ facts.settled_at p)

  pub lapses-Keeps : (job : Job) → P job → Keeps P IsLive (apply_live_lapses ports job)
  unfolding apply_live_lapses
  lapses-Keeps job p = after-Keeps P IsLive _ _ (facts-ReadsOnly ports job) λ facts.
      after-Keeps P IsLive _ _ (now-ReadsOnly ports) λ time.
        bind-Keeps P IsAsked IsLive _ _ (consulted-Keeps job time p)
          λ asked q. unless_completed-Keeps job time facts asked p q

  pub load-Keeps : (job_id : Text) → Keeps P IsLive (load_for_exchange ports job_id)
  unfolding load_for_exchange
  load-Keeps job_id = bind-Keeps P (IsFound P) IsLive _ _ (find-Keeps P ports job_id) λ found q.
      bind-Keeps P (λ o. (row : Job) → o ≡ some row → P row) IsLive _ _
        (or_send-Keeps P _ _ found (λ o e row k. q row (rw (← k, e) refl)))
        λ o r. bind-Keeps P P IsLive _ _ (or_send-Keeps P P _ o r) lapses-Keeps
