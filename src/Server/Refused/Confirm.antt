-- ===== src/Server/Refused/Confirm.antt =====
-- The confirm route: an error answer leaves every job as the load left it.
use freeagents.Base.{Result, err, ok, refl, Bool, Option, none, some, List}
use freeagents.Base.Text.{Text}
use freeagents.Job.Model.{Job, JobFault}
use freeagents.Server.Ports.{StagingFault, Request, Ports}
use freeagents.Server.Parties.{Acting}
use freeagents.Server.Confirm.{
  or_staging, or_moved, siblings_of, open_deposit, or_confirm_fault, create_staging_for,
  confirm_agreed, confirm_route,
}
use freeagents.Server.Reads.{
  ReadsOnly, pure-ReadsOnly, send-ReadsOnly, or_send-ReadsOnly, bind-ReadsOnly, send_if-ReadsOnly,
  ask-ReadsOnly, now-ReadsOnly, store-ReadsOnly, reads_rules,
}
use freeagents.Server.Reads.Guards.{
  party-ReadsOnly, negotiation-ReadsOnly, gate-ReadsOnly, guard_rules,
}
use freeagents.Server.Refused.{Refuses, after-Refuses, persist-Refuses}
use freeagents.Server.Refused.Hooks.{confirm_hook-Silent}
use freeagents.Server.Refused.Routes.{AsLoaded, load-AsLoaded}

or_staging-ReadsOnly : {A : Type 0} (r : Result StagingFault A) → ReadsOnly (or_staging r)
or_staging-ReadsOnly (err fault) = send-ReadsOnly _
or_staging-ReadsOnly (ok a) = pure-ReadsOnly a

or_moved-ReadsOnly : (r : Result JobFault Job) → ReadsOnly (or_moved r)
or_moved-ReadsOnly (err fault) = send-ReadsOnly _
or_moved-ReadsOnly (ok job) = pure-ReadsOnly job

module _ (ports : Ports) where
  siblings-ReadsOnly :
      (job : Job) (request_id : Option Text) → ReadsOnly (siblings_of ports job request_id)
  siblings-ReadsOnly job none = search reads_rules
  siblings-ReadsOnly job (some request_id) =
      bind-ReadsOnly _ _ (store-ReadsOnly ports _ _ (λ s. refl)) λ o. search reads_rules

  deposit-ReadsOnly : (job : Job) → ReadsOnly (open_deposit ports job)
  deposit-ReadsOnly job = search reads_rules

  fault-ReadsOnly :
      (current : Job) (awaiting : Bool) (r : Result JobFault Job)
      → ReadsOnly (or_confirm_fault ports current awaiting r)
  fault-ReadsOnly current awaiting (ok job) = search guard_rules
  fault-ReadsOnly current awaiting (err fault) = search guard_rules

  staging-ReadsOnly :
      (current next : Job) (login : Text) → ReadsOnly (create_staging_for ports current next login)
  unfolding create_staging_for
  staging-ReadsOnly current next login =
      search (reads_rules, or_staging-ReadsOnly, or_moved-ReadsOnly) depth 14

  agreed-Refuses :
      (current : Job) (gate : Acting) (siblings : List Job) (next : Job)
      → Refuses (confirm_agreed ports current gate siblings next)
  unfolding confirm_agreed
  agreed-Refuses current gate siblings next =
      after-Refuses _ _ (gate-ReadsOnly ports _ _) λ settled.
        after-Refuses _ _ (send_if-ReadsOnly _ _) λ u.
          after-Refuses _ _ (ask-ReadsOnly _ _) λ found.
            after-Refuses _ _ (or_send-ReadsOnly _ _) λ login.
              after-Refuses _ _ (staging-ReadsOnly current next login) λ made.
                persist-Refuses ports made.0 _
                  (confirm_hook-Silent ports siblings gate login made.1)

  pub confirm-AsLoaded :
      (id : Text) (who : Request) → AsLoaded ports id (confirm_route ports id who)
  unfolding confirm_route
  confirm-AsLoaded id who = load-AsLoaded ports id _ λ l.
      after-Refuses _ _ (party-ReadsOnly ports who l.job) λ gate.
        after-Refuses _ _ (negotiation-ReadsOnly ports l.job gate) λ u.
          after-Refuses _ _ (siblings-ReadsOnly l.job l.job.request_id) λ siblings.
            after-Refuses _ _ (deposit-ReadsOnly l.job) λ row.
              after-Refuses _ _ (now-ReadsOnly ports) λ time.
                after-Refuses _ _ (fault-ReadsOnly l.job _ _)
                  λ next. agreed-Refuses l.job gate siblings next
