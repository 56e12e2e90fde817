-- ===== src/Server/Ends/Money.antt =====
-- What the gate said before a hire is confirmed, a pull request is recorded and a hire is closed
-- with a cited reason.
use mathlib.Core.Path.{subst}
use freeagents.Base.{
  Result, err, ok, ◌≡◌, refl, sym, ap, ◌∙◌, Bool, not, Option, none, some, List, is_some, ◌&&◌,
}
use freeagents.Base.Text.{Text}
use freeagents.Job.Model.{Instant, buyer, agent, Job, JobFault}
use freeagents.Job.Step.{Step, accepts_price}
use freeagents.Job.Agreement.{confirm_spec}
use freeagents.Job.Lifecycle.{attach_staging_repository, follow_repository_move, record_cited_close}
use freeagents.Job.Event.{confirm_event, follow_event, perform, cited_event}
use freeagents.Job.Perform.{perform-Step}
use freeagents.Server.Ports.{
  Leg, deposit, Failure, SettlementRow, Ports, remainder, Request, Success, job_row,
}
use freeagents.Server.Route.{Route, ◌>>=◌, ◌>>◌, send_if}
use freeagents.Server.Parties.{Acting}
use freeagents.Server.Holds.{ask_gate}
use freeagents.Server.Exchange.{or_fault, no_hook, apply_and_persist}
use freeagents.Server.Confirm.{
  with_rail, or_moved, or_confirm_fault, moved_to, create_staging_for, confirm_agreed,
  is_price_fault, confirm_route,
}
use freeagents.Server.Ends.{
  Ends, pure-Ends, send-Ends, if-Ends, bind-Ends, past-Ends, send_if-Ends, ask-Ends, IsPaid,
  is_settled-eq, untold-Ends, either-Ends, weaken-Ends, persist-Ends,
}
use freeagents.Server.Submit.{require_remainder, pull_request_route}
use freeagents.Server.Work.{cited_close_route}
use freeagents.Base.Number.{Number}
use freeagents.Server.Rows.{Any}
use freeagents.Server.Terms.{Field}

pub Step-id : (sha : Text → Text) {a b : Job} → Step sha a b → b.id ≡ a.id
unfolding attach_staging_repository
Step-id sha (accepts_price buyer m e priced) = refl
Step-id sha (accepts_price agent m e priced) = refl
Step-id sha _ = refl

follow-id :
    (job : Job) (name : Text) (b : Job) → follow_repository_move job name ≡ ok b → b.id ≡ job.id
unfolding perform
follow-id job name b e = Step-id (λ t. t) (perform-Step (λ t. t) (follow_event name) job e)

confirm-id :
    (sha : Text → Text) (job : Job) (time : Instant) (b : Job)
    → confirm_spec sha job time ≡ ok b
    → b.id ≡ job.id
unfolding perform
confirm-id sha job time b e = Step-id sha (perform-Step sha (confirm_event time) job e)

rail-id : (job : Job) (row : Option SettlementRow) → (with_rail job row).id ≡ job.id
rail-id job none = refl
rail-id job (some row) = refl

module _ (ports : Ports) where
  -- the gate's word for the leg of the job that an answer shows
  abbrev pub IsPaidFor : Leg → Success → Type 0
  IsPaidFor leg a = (row : Job) → a ≡ job_row row → IsPaid ports leg row.id

  shown_id :
      (leg : Leg) (next : Job) (id : Text) (a : Success)
      → a ≡ job_row next
      → next.id ≡ id
      → IsPaid ports leg id
      → IsPaidFor leg a
  shown_id leg next id a e same paid row k =
      let shown : job_row next ≡ job_row row = sym e ∙ k in
      let key : id ≡ row.id = sym same ∙ cc shown in subst (IsPaid ports leg) key paid

  gate_open-Ends :
      (leg : Leg) (id : Text) (f : Failure) {B : Type 0} (Q : B → Type 0) (rest : Route B)
      → (IsPaid ports leg id → Ends Q rest)
      → Ends Q (do settled ← ask_gate ports leg id; send_if (not settled) f; rest)
  unfolding ask_gate
  gate_open-Ends leg id f Q rest k = bind-Ends _ Q _ _ (ask-Ends _ _) λ settled said.
      bind-Ends _ Q _ _ (send_if-Ends _ _)
        λ u e. k (said.0, said.1 ∙ ap some (is_settled-eq settled e))

  moved_to-id : (job : Job) (name : Text) → Ends (λ b. b.id ≡ job.id) (moved_to ports job name)
  moved_to-id job name =
      if-Ends _ _ _ _ (λ e. pure-Ends _ job refl)
        (λ e. or_moved-id (follow_repository_move job name) (followed_id))
    where
      or_moved-id :
          (r : Result JobFault Job)
          → ((b : Job) → r ≡ ok b → b.id ≡ job.id)
          → Ends (λ b. b.id ≡ job.id) (or_moved r)
      or_moved-id (err fault) q = send-Ends _ _
      or_moved-id (ok b) q = pure-Ends _ b (q b refl)

      followed_id : (b : Job) → follow_repository_move job name ≡ ok b → b.id ≡ job.id
      followed_id b e = follow-id job name b e

  staging-id :
      (current next : Job) (login : Text)
      → Ends (λ made. made.0.id ≡ next.id) (create_staging_for ports current next login)
  unfolding create_staging_for attach_staging_repository
  staging-id current next login = past-Ends _ _ _ λ read. past-Ends _ _ _ λ facts.
      bind-Ends _ _ _ _ (moved_to-id next facts.full_name) λ followed e. past-Ends _ _ _ λ made.
        past-Ends _ _ _
          λ staging. past-Ends _ _ _ λ tried. past-Ends _ _ _ λ invitation. pure-Ends _ _ e

  fault-id :
      (current : Job) (awaiting : Bool) (id : Text) (r : Result JobFault Job)
      → ((b : Job) → r ≡ ok b → b.id ≡ id)
      → Ends (λ b. b.id ≡ id) (or_confirm_fault ports current awaiting r)
  fault-id current awaiting id (ok b) q = pure-Ends _ b (q b refl)
  fault-id current awaiting id (err fault) q =
      either-Ends _ (is_price_fault fault && is_some current.price_usd && awaiting) _ _
        (past-Ends _ _ _ λ settled. either-Ends _ settled _ _ (send-Ends _ _) (send-Ends _ _))
        (send-Ends _ _)

  agreed-Ends :
      (current : Job) (gate : Acting) (siblings : List Job) (next : Job)
      → next.id ≡ current.id
      → Ends (IsPaidFor deposit) (confirm_agreed ports current gate siblings next)
  unfolding confirm_agreed
  agreed-Ends current gate siblings next same =
      gate_open-Ends deposit current.id _ (IsPaidFor deposit) _ λ paid. past-Ends _ _ _ λ found.
        past-Ends _ _ _ λ login. bind-Ends _ _ _ _ (staging-id current next login) λ made e.
          weaken-Ends _ _ _ (persist-Ends ports made.0 _)
            λ a k. shown_id deposit made.0 current.id a k (e ∙ same) paid

  pub confirm-Ends :
      (job_id : Text) (request : Request)
      → Ends (IsPaidFor deposit) (confirm_route ports job_id request)
  unfolding confirm_route
  confirm-Ends job_id request = past-Ends _ _ _ λ l. past-Ends _ _ _ λ gate. past-Ends _ _ _ λ u.
      past-Ends _ _ _ λ siblings. past-Ends _ _ _ λ row. past-Ends _ _ _ λ time.
        bind-Ends _ _ _ _
          (fault-id l.job _ l.job.id (confirm_spec ports.sha256_hex (with_rail l.job row) time)
            λ b e. confirm-id ports.sha256_hex (with_rail l.job row) time b e ∙ rail-id l.job row)
          λ next same. agreed-Ends l.job gate siblings next same

  pub remainder-Ends :
      (job_id : Text) (job : Job)
      → Ends (λ u. IsPaid ports remainder job_id) (require_remainder ports job_id job)
  unfolding require_remainder
  remainder-Ends job_id job = past-Ends _ _ _ λ u.
      gate_open-Ends remainder job_id _ (λ v. IsPaid ports remainder job_id) _
        λ paid. weaken-Ends Any _ _ (untold-Ends _) λ v w. paid

  pub pull_request-Ends :
      (job_id : Text) (request : Request) (url : Field Text)
      → Ends (λ a. IsPaid ports remainder job_id) (pull_request_route ports job_id request url)
  unfolding pull_request_route
  pull_request-Ends job_id request field = past-Ends _ _ _ λ gate. past-Ends _ _ _ λ url.
      past-Ends _ _ _ λ ref.
        bind-Ends _ _ _ _ (remainder-Ends job_id gate.loaded.job)
          λ u paid. weaken-Ends Any _ _ (untold-Ends _) λ a w. paid

  cited-id :
      (job : Job) (index : Number) (reason : Text) (time : Instant) (b : Job)
      → record_cited_close job index reason time ≡ ok b
      → b.id ≡ job.id
  unfolding perform
  cited-id job index reason time b e =
      Step-id ports.sha256_hex (perform-Step ports.sha256_hex (cited_event index reason time) job e)

  or_fault-Ends : (r : Result JobFault Job) → Ends (λ b. r ≡ ok b) (or_fault r)
  or_fault-Ends (err fault) = send-Ends _ _
  or_fault-Ends (ok b) = pure-Ends _ b refl

  pub cited_close-Ends :
      (job_id : Text) (request : Request) (index : Field Number) (reason : Field Text)
      → Ends (IsPaidFor remainder) (cited_close_route ports job_id request index reason)
  unfolding cited_close_route apply_and_persist
  cited_close-Ends job_id request index_field reason_field = past-Ends _ _ _ λ gate.
      past-Ends _ _ _ λ index. past-Ends _ _ _ λ reason. past-Ends _ _ _ λ time.
        bind-Ends _ _ _ _ (or_fault-Ends _) λ updated e.
          bind-Ends _ _ _ _
            (bind-Ends _ (λ u. IsPaid ports remainder gate.loaded.job.id) _ _ (ask-Ends _ _)
              λ settled said.
                weaken-Ends _ _ _ (send_if-Ends _ _)
                  λ u k. (said.0, said.1 ∙ ap some (is_settled-eq settled k)))
            λ u paid. weaken-Ends _ _ _ (persist-Ends ports updated no_hook) λ a w.
              shown_id remainder updated gate.loaded.job.id a w
                (cited-id gate.loaded.job index reason time updated e) paid
