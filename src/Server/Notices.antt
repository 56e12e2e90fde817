-- ===== src/Server/Notices.antt =====
-- What a handler writes beside the job, failing silently: the system rows of a thread, and
-- `notifyJobParties` with `notify`. The live streams, the webhook and the push are not modelled.
use freeagents.Base.{if◌then◌else◌, Bool, false, Option, none, some, ◌∷◌, []}
use freeagents.Base.Text.{Text, text_eq}
use freeagents.Job.Model.{Job}
use freeagents.Server.Ports.{SystemEvent, NoticeKind, Notice, State, AgentRow, Ports}
use freeagents.Server.Route.{Route, ◌>>=◌, ◌>>◌, pure, try, store}
use freeagents.Server.Parties.{found_row}

abbrev pub nothing : State → Unit {0}
nothing s = tt

abbrev pub add_message : Text → SystemEvent → State → State
add_message job_id e s = record s { messages = (job_id, e) ∷ s.messages }

abbrev pub add_notice : Notice → State → State
add_notice n s = record s { notices = n ∷ s.notices }

abbrev pub is_excluded : Option Text → Text → Bool
is_excluded none did = false
is_excluded (some excluded) did = text_eq excluded did

module _ (ports : Ports) where
  -- `messageRepo.create(createSystemMessage(...))`, its error logged and dropped
  unfoldable pub system_row : Text → SystemEvent → Route (Unit {0})
  system_row job_id e = do store ports nothing (add_message job_id e); pure tt

  -- `createNotification` refuses an empty account, which `notify` logs and drops
  unfoldable pub notify : Text → Text → NoticeKind → Route (Unit {0})
  notify [] job_id kind = pure tt
  notify (c ∷ did) job_id kind = do
    store ports nothing
        (add_notice (record { account_did = c ∷ did; job_id = job_id; kind = kind }))
    pure tt

  abbrev pub notify_unless : Option Text → Text → Text → NoticeKind → Route (Unit {0})
  notify_unless excluded did job_id kind =
      if is_excluded excluded did then pure tt else notify did job_id kind

  abbrev pub notify_operator : Option AgentRow → Option Text → Text → NoticeKind → Route (Unit {0})
  notify_operator none excluded job_id kind = pure tt
  notify_operator (some row) excluded job_id kind =
      notify_unless excluded row.operator_did job_id kind

  unfoldable pub notify_job_parties : Job → NoticeKind → Option Text → Route (Unit {0})
  notify_job_parties job kind excluded = do
    row ← try λ t. ports.agent_row t job.agent_did
    notify_operator (found_row row) excluded job.id kind
    notify_unless excluded job.buyer_did job.id kind
