-- ===== src/Server/Rows/Confirm.antt =====
-- The confirm route keeps a property of jobs that the changes keep, in the job, in a rail that the
-- deposit gives to an open quote, and in the siblings that it withdraws.
use mathlib.Core.Path.{subst}
use freeagents.Base.{
  Bool-cases, Result, err, ok, ◌≡◌, refl, inl, inr, Bool, true, false, not, ◌&&◌, Option, none,
  some, List, [], ◌∷◌, arith,
}
use freeagents.Base.Text.{Text, text_eq}
use freeagents.Base.Table.{Table}
use freeagents.Job.Model.{Instant, Repo, Job, JobFault}
use freeagents.Job.Agreement.{confirm_spec}
use freeagents.Job.Lifecycle.{attach_staging_repository, follow_repository_move, record_withdrawn}
use freeagents.Job.Event.{confirm_event, attach_event, follow_event, withdraw_event, perform}
use freeagents.Server.Ports.{deposit, SettlementRow, StagingFault, Request, Ports}
use freeagents.Server.Route.{ask, thrown}
use freeagents.Server.Parties.{Acting}
use freeagents.Server.Confirm.{
  is_from_request, siblings_in, with_rail, is_open_quote, or_staging, or_moved, siblings_of,
  open_deposit, or_confirm_fault, moved_to, create_staging_for, notify_withdrawn, store_withdrawn,
  withdraw_siblings, tell_invitation, confirm_hook, confirm_route, confirm_agreed,
}
use freeagents.Server.Reads.{
  ReadsOnly, pure-ReadsOnly, send-ReadsOnly, try-ReadsOnly, or_send-ReadsOnly, send_if-ReadsOnly,
  ask-ReadsOnly, now-ReadsOnly, reads_rules,
}
use freeagents.Server.Reads.Guards.{
  party-ReadsOnly, negotiation-ReadsOnly, gate-ReadsOnly, guard_rules,
}
use freeagents.Server.Rows.{
  Change, fills_rail, AllIn, Keeps, Any, IsFound, reads-Keeps, pure-Keeps, send-Keeps,
  or_send-Keeps, if-Keeps, bind-Keeps, after-Keeps, update-Keeps, store-Keeps,
}
use freeagents.Server.Rows.Sound.{IsLive, load-Keeps}
use freeagents.Server.Rows.Routes.{event-Applies, persist-Keeps}

abbrev pub AllJobs : (Job → Type 0) → List Job → Type 0
AllJobs P [] = Unit
AllJobs P (job ∷ jobs) = P job × AllJobs P jobs

siblings-AllJobs :
    (P : Job → Type 0) (id request_id : Text) (rows : Table Job)
    → AllIn P rows
    → AllJobs P (siblings_in id request_id rows)
unfolding siblings_in
siblings-AllJobs P id request_id [] h = tt
siblings-AllJobs P id request_id ((key, job) ∷ rows) h =
    elim (Bool-cases (is_from_request request_id job && not (text_eq job.id id))) [
      | inl e ↦ rw e (h.0, siblings-AllJobs P id request_id rows h.1)
      | inr e ↦ rw e (siblings-AllJobs P id request_id rows h.1)
    ]

module _ (ports : Ports) (P : Job → Type 0)
    (keep : (a b : Job) → Change ports.sha256_hex a b → P a → P b) where
  siblings_of-Keeps :
      (job : Job) (request_id : Option Text)
      → Keeps P (AllJobs P) (siblings_of ports job request_id)
  siblings_of-Keeps job none = pure-Keeps P (AllJobs P) [] tt
  siblings_of-Keeps job (some request_id) =
      bind-Keeps P (λ o. (jobs : List Job) → o ≡ some jobs → AllJobs P jobs) (AllJobs P) _ _
        (store-Keeps P ports _ _ (λ jobs e. cc)
          (λ s h jobs e. subst (AllJobs P) (cc) (siblings-AllJobs P job.id request_id s.rows h.at)))
        λ read q.
          bind-Keeps P (AllJobs P) (AllJobs P) _ _ (or_send-Keeps P (AllJobs P) _ read q) λ jobs r.
            after-Keeps P (AllJobs P) _ _ (send_if-ReadsOnly _ _)
              λ u. pure-Keeps P (AllJobs P) jobs r

  -- a deposit's row that was read fills a rail that is open
  abbrev pub IsRailed : Job → Option SettlementRow → Type 0
  IsRailed job row = P (with_rail job row)

  railed-P :
      (job : Job) (row : Option SettlementRow) → job.rail ≡ none → P job → P (with_rail job row)
  railed-P job none e p = p
  railed-P job (some row) e p = keep job _ (fills_rail row.rail e) p

  no_rail : (job : Job) → is_open_quote job ≡ true → job.rail ≡ none
  no_rail job e = ground arith

  read_deposit-Keeps :
      (job : Job)
      → job.rail ≡ none
      → P job
      → Keeps P (IsRailed job) (ask thrown λ t. ports.settlement t deposit job.id)
  unfolding ask
  read_deposit-Keeps job e p =
      after-Keeps P (IsRailed job) _ _ (try-ReadsOnly _)
        λ o. or_send-Keeps P (IsRailed job) _ o λ row k. railed-P job row e p

  deposit-Keeps : (job : Job) → P job → Keeps P (IsRailed job) (open_deposit ports job)
  deposit-Keeps job p = elim (Bool-cases (is_open_quote job)) [
    | inl e ↦ rw e (read_deposit-Keeps job (no_rail job e) p)
    | inr e ↦ rw e (pure-Keeps P (IsRailed job) none p)
  ]

  confirm-P :
      (job : Job) (time : Instant) (b : Job)
      → confirm_spec ports.sha256_hex job time ≡ ok b
      → P job
      → P b
  unfolding perform
  confirm-P job time b e p = event-Applies ports P keep (confirm_event time) job b e p

  fault-Keeps :
      (current : Job) (awaiting : Bool) (r : Result JobFault Job)
      → ((b : Job) → r ≡ ok b → P b)
      → Keeps P P (or_confirm_fault ports current awaiting r)
  fault-Keeps current awaiting (ok b) q = pure-Keeps P P b (q b refl)
  fault-Keeps current awaiting (err fault) q =
      if-Keeps P P _ _ _
        (after-Keeps P P _ _ (gate-ReadsOnly ports _ _)
          λ settled. if-Keeps P P _ _ _ (send-Keeps P P _) (send-Keeps P P _))
        (send-Keeps P P _)

  moved-P :
      (job : Job) (name : Text) (b : Job) → follow_repository_move job name ≡ ok b → P job → P b
  unfolding perform
  moved-P job name b e p = event-Applies ports P keep (follow_event name) job b e p

  or_moved-Keeps : (r : Result JobFault Job) → ((b : Job) → r ≡ ok b → P b) → Keeps P P (or_moved r)
  or_moved-Keeps (err fault) q = send-Keeps P P _
  or_moved-Keeps (ok b) q = pure-Keeps P P b (q b refl)

  moved_to-Keeps : (job : Job) (name : Text) → P job → Keeps P P (moved_to ports job name)
  moved_to-Keeps job name p =
      if-Keeps P P _ _ _ (pure-Keeps P P job p)
        (or_moved-Keeps (follow_repository_move job name) λ b e. moved-P job name b e p)

  attached-P :
      (job : Job) (staging : Repo) (base : Text)
      → P job
      → P (attach_staging_repository job staging base)
  unfolding perform
  attached-P job staging base p =
      event-Applies ports P keep (attach_event staging base) job _ refl p

  or_staging-ReadsOnly : {A : Type 0} (r : Result StagingFault A) → ReadsOnly (or_staging r)
  or_staging-ReadsOnly (err fault) = send-ReadsOnly _
  or_staging-ReadsOnly (ok a) = pure-ReadsOnly a

  abbrev pub IsMade : Job × Option Text → Type 0
  IsMade made = P made.0

  staging-Keeps :
      (current next : Job) (login : Text)
      → P next
      → Keeps P IsMade (create_staging_for ports current next login)
  unfolding create_staging_for
  staging-Keeps current next login p = after-Keeps P IsMade _ _ (try-ReadsOnly _) λ read.
      after-Keeps P IsMade _ _ (or_staging-ReadsOnly read) λ facts.
        bind-Keeps P P IsMade _ _ (moved_to-Keeps next facts.full_name p) λ followed q.
          after-Keeps P IsMade _ _ (try-ReadsOnly _) λ made.
            after-Keeps P IsMade _ _ (or_staging-ReadsOnly made) λ staging.
              after-Keeps P IsMade _ _ (try-ReadsOnly _) λ tried.
                after-Keeps P IsMade _ _ (or_staging-ReadsOnly tried)
                  λ invitation. pure-Keeps P IsMade _ (attached-P followed staging.0 staging.1 q)

  notify_withdrawn-ReadsOnly : (row : Option (Option Job)) → ReadsOnly (notify_withdrawn ports row)
  notify_withdrawn-ReadsOnly (some (some row)) = search guard_rules
  notify_withdrawn-ReadsOnly (some none) = search reads_rules
  notify_withdrawn-ReadsOnly none = search reads_rules

  store_withdrawn-Keeps :
      (r : Result JobFault Job)
      → ((b : Job) → r ≡ ok b → P b)
      → Keeps P Any (store_withdrawn ports r)
  store_withdrawn-Keeps (err fault) q = pure-Keeps P Any tt tt
  store_withdrawn-Keeps (ok sibling) q =
      bind-Keeps P (IsFound P) Any _ _ (update-Keeps P ports sibling (q sibling refl))
        λ row k. reads-Keeps P _ (notify_withdrawn-ReadsOnly row)

  withdrawn-P : (job b : Job) → record_withdrawn job false ≡ ok b → P job → P b
  unfolding perform
  withdrawn-P job b e p = event-Applies ports P keep (withdraw_event false) job b e p

  withdraw_siblings-Keeps :
      (jobs : List Job) → AllJobs P jobs → Keeps P Any (withdraw_siblings ports jobs)
  unfolding withdraw_siblings
  withdraw_siblings-Keeps [] h = pure-Keeps P Any tt tt
  withdraw_siblings-Keeps (job ∷ jobs) h =
      bind-Keeps P Any Any _ _
        (if-Keeps P Any _ _ _
          (store_withdrawn-Keeps (record_withdrawn job false) λ b e. withdrawn-P job b e h.0)
          (pure-Keeps P Any tt tt))
        λ u v. withdraw_siblings-Keeps jobs h.1

  invitation-ReadsOnly :
      (gate : Acting) (login : Text) (invitation : Option Text) (row : Job)
      → ReadsOnly (tell_invitation ports gate login invitation row)
  invitation-ReadsOnly gate login none row = search reads_rules
  invitation-ReadsOnly gate login (some url) row = search guard_rules

  hook-Keeps :
      (jobs : List Job) (gate : Acting) (login : Text) (invitation : Option Text) (row : Job)
      → AllJobs P jobs
      → Keeps P Any (confirm_hook ports jobs gate login invitation row)
  hook-Keeps jobs gate login invitation row h =
      bind-Keeps P Any Any _ _ (withdraw_siblings-Keeps jobs h)
        λ u v. reads-Keeps P _ (invitation-ReadsOnly gate login invitation row)

  agreed-Keeps :
      (current : Job) (gate : Acting) (jobs : List Job) (next : Job)
      → AllJobs P jobs
      → P next
      → Keeps P Any (confirm_agreed ports current gate jobs next)
  unfolding confirm_agreed
  agreed-Keeps current gate jobs next h r =
      after-Keeps P Any _ _ (gate-ReadsOnly ports _ _) λ settled.
        after-Keeps P Any _ _ (send_if-ReadsOnly _ _) λ v.
          after-Keeps P Any _ _ (ask-ReadsOnly _ _) λ found.
            after-Keeps P Any _ _ (or_send-ReadsOnly _ _) λ login.
              bind-Keeps P IsMade Any _ _ (staging-Keeps current next login r) λ made m.
                persist-Keeps ports P keep made.0 _ m λ row. hook-Keeps jobs gate login made.1 row h

  pub confirm-Keeps :
      (job_id : Text) (request : Request) → Keeps P Any (confirm_route ports job_id request)
  unfolding confirm_route
  confirm-Keeps job_id request =
      bind-Keeps P (IsLive ports P keep) Any _ _ (load-Keeps ports P keep job_id) λ l p.
        after-Keeps P Any _ _ (party-ReadsOnly ports request l.job) λ gate.
          after-Keeps P Any _ _ (negotiation-ReadsOnly ports l.job gate) λ u.
            bind-Keeps P (AllJobs P) Any _ _ (siblings_of-Keeps l.job l.job.request_id) λ jobs h.
              bind-Keeps P (IsRailed l.job) Any _ _ (deposit-Keeps l.job p) λ row q.
                after-Keeps P Any _ _ (now-ReadsOnly ports) λ time.
                  bind-Keeps P P Any _ _
                    (fault-Keeps l.job _ (confirm_spec ports.sha256_hex (with_rail l.job row) time)
                      λ b e. confirm-P (with_rail l.job row) time b e q)
                    λ next r. agreed-Keeps l.job gate jobs next h r
