-- ===== src/Server/Refused/Hooks.antt =====
-- What runs behind the write of a job never sends an error answer.
use freeagents.Base.{Result, err, ok, false, Option, none, some, List, [], ◌∷◌}
use freeagents.Base.Text.{Text}
use freeagents.Job.Model.{Job, JobFault}
use freeagents.Job.Price.{PriceProposal}
use freeagents.Job.Lifecycle.{record_withdrawn}
use freeagents.Server.Ports.{SystemEvent, NoticeKind, AgentRow, Ports}
use freeagents.Server.Route.{update_job}
use freeagents.Server.Parties.{Acting}
use freeagents.Server.Notices.{system_row, notify, notify_operator, notify_job_parties}
use freeagents.Server.Exchange.{no_hook}
use freeagents.Server.Terms.{quote_hook}
use freeagents.Server.Confirm.{
  notify_withdrawn, store_withdrawn, withdraw_siblings, tell_invitation, confirm_hook,
}
use freeagents.Server.Refused.{Silent, pure-Silent, if-Silent, bind-Silent, silent_rules}

module _ (ports : Ports) where
  pub message-Silent : (job_id : Text) (e : SystemEvent) → Silent (system_row ports job_id e)
  unfolding system_row
  message-Silent job_id e = search silent_rules

  notify-Silent : (did job_id : Text) (kind : NoticeKind) → Silent (notify ports did job_id kind)
  unfolding notify
  notify-Silent [] job_id kind = search silent_rules
  notify-Silent (c ∷ did) job_id kind = search silent_rules

  operator-Silent :
      (row : Option AgentRow) (excluded : Option Text) (job_id : Text) (kind : NoticeKind)
      → Silent (notify_operator ports row excluded job_id kind)
  operator-Silent none excluded job_id kind = search silent_rules
  operator-Silent (some row) excluded job_id kind = search (silent_rules, notify-Silent)

  notices-Silent :
      (job : Job) (kind : NoticeKind) (excluded : Option Text)
      → Silent (notify_job_parties ports job kind excluded)
  unfolding notify_job_parties
  notices-Silent job kind excluded = search (silent_rules, operator-Silent, notify-Silent)

  pub no_hook-Silent : (row : Job) → Silent (no_hook row)
  no_hook-Silent row = pure-Silent tt

  pub quote-Silent :
      (gate : Acting) (price : Option PriceProposal) (row : Job)
      → Silent (quote_hook ports gate price row)
  quote-Silent gate none row = search silent_rules
  quote-Silent gate (some price) row = search (silent_rules, message-Silent, notices-Silent)

  update-Silent : (job : Job) → Silent (update_job ports job)
  unfolding update_job
  update-Silent job = search silent_rules

  notify_withdrawn-Silent : (row : Option (Option Job)) → Silent (notify_withdrawn ports row)
  notify_withdrawn-Silent (some (some row)) = search (silent_rules, notices-Silent)
  notify_withdrawn-Silent (some none) = search silent_rules
  notify_withdrawn-Silent none = search silent_rules

  store_withdrawn-Silent : (r : Result JobFault Job) → Silent (store_withdrawn ports r)
  store_withdrawn-Silent (err fault) = search silent_rules
  store_withdrawn-Silent (ok job) = search (silent_rules, update-Silent, notify_withdrawn-Silent)

  siblings-Silent : (jobs : List Job) → Silent (withdraw_siblings ports jobs)
  unfolding withdraw_siblings
  siblings-Silent [] = search silent_rules
  siblings-Silent (job ∷ jobs) =
      bind-Silent _ _
        (if-Silent _ _ _ (store_withdrawn-Silent (record_withdrawn job false)) (pure-Silent tt))
        λ u. siblings-Silent jobs

  invitation-Silent :
      (gate : Acting) (login : Text) (invitation : Option Text) (row : Job)
      → Silent (tell_invitation ports gate login invitation row)
  invitation-Silent gate login none row = search silent_rules
  invitation-Silent gate login (some url) row =
      search (silent_rules, message-Silent, notices-Silent)

  pub confirm_hook-Silent :
      (jobs : List Job) (gate : Acting) (login : Text) (invitation : Option Text) (row : Job)
      → Silent (confirm_hook ports jobs gate login invitation row)
  confirm_hook-Silent jobs gate login invitation row =
      bind-Silent _ _ (siblings-Silent jobs) λ u. invitation-Silent gate login invitation row
