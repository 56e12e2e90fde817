-- ===== src/Server/Rows/Routes.antt =====
-- The routes of a job keep a property of jobs that the changes keep.
use freeagents.Base.{Result, err, ok, ◌≡◌, refl, Option, none, some, List}
use freeagents.Base.Text.{Text}
use freeagents.Base.Number.{Number}
use freeagents.Job.Model.{Party, Job, JobFault}
use freeagents.Job.Price.{PriceProposal}
use freeagents.Job.Event.{
  Event, propose_event, changes_event, accept_event, accept_price_event, withdraw_event,
  decline_event, perform,
}
use freeagents.Job.Perform.{perform-Step}
use freeagents.Server.Ports.{Request, Ports}
use freeagents.Server.Parties.{Acting}
use freeagents.Server.Exchange.{
  or_fault, PaymentGate, Hook, no_hook, Gate, persist, apply_and_persist, run_exchange,
  require_signed_party, run_party_exchange,
}
use freeagents.Server.Terms.{
  CriteriaBody, quote_hook, criteria_route, request_changes_route, accept_route, accept_price_route,
  withdraw_route, decline_route,
}
use freeagents.Server.Reads.{ReadsOnly, pure-ReadsOnly, or_send-ReadsOnly, send_if-ReadsOnly}
use freeagents.Server.Reads.Guards.{
  party-ReadsOnly, negotiation-ReadsOnly, gate-ReadsOnly, guard_rules,
}
use freeagents.Server.Reads.Checks.{
  price-ReadsOnly, paid_gate-ReadsOnly, floor-ReadsOnly, settled-ReadsOnly, decline_held-ReadsOnly,
}
use freeagents.Server.Rows.{
  Change, steps, Keeps, Any, IsFound, reads-Keeps, pure-Keeps, send-Keeps, bind-Keeps, after-Keeps,
  update-Keeps,
}
use freeagents.Server.Rows.Sound.{IsLive, load-Keeps}

module _ (ports : Ports) (P : Job → Type 0)
    (keep : (a b : Job) → Change ports.sha256_hex a b → P a → P b) where
  -- what an operation of the hire loop makes of a job
  abbrev pub Applies : (Job → Result JobFault Job) → Type 0
  Applies apply = (a b : Job) → apply a ≡ ok b → P a → P b

  pub event-Applies : (e : Event) → Applies (perform ports.sha256_hex e)
  event-Applies e a b h p = keep a b (steps (perform-Step ports.sha256_hex e a h)) p

  or_fault-Keeps : (r : Result JobFault Job) → ((b : Job) → r ≡ ok b → P b) → Keeps P P (or_fault r)
  or_fault-Keeps (err fault) q = send-Keeps P P _
  or_fault-Keeps (ok b) q = pure-Keeps P P b (q b refl)

  pub persist-Keeps :
      (job : Job) (hook : Hook)
      → P job
      → ((row : Job) → Keeps P Any (hook row))
      → Keeps P Any (persist ports job hook)
  unfolding persist
  persist-Keeps job hook p kh =
      bind-Keeps P (IsFound P) Any _ _ (update-Keeps P ports job p) λ stored q.
        after-Keeps P Any _ _ (or_send-ReadsOnly _ stored) λ found.
          after-Keeps P Any _ _ (or_send-ReadsOnly _ found)
            λ row. bind-Keeps P Any Any _ _ (kh row) λ u v. pure-Keeps P Any _ tt

  pub apply-Keeps :
      (current : Job) (apply : Job → Result JobFault Job) (gate : Option PaymentGate) (hook : Hook)
      → P current
      → Applies apply
      → ((row : Job) → ReadsOnly (hook row))
      → Keeps P Any (apply_and_persist ports current apply gate hook)
  unfolding apply_and_persist
  apply-Keeps current apply gate hook p ka kh =
      bind-Keeps P P Any _ _ (or_fault-Keeps (apply current) λ b e. ka current b e p) λ updated q.
        after-Keeps P Any _ _ (paid_gate-ReadsOnly ports gate current updated)
          λ u. persist-Keeps updated hook q λ row. reads-Keeps P _ (kh row)

  silent : (row : Job) → ReadsOnly (no_hook row)
  silent row = pure-ReadsOnly tt

  pub exchange-Keeps :
      (job_id : Text) (apply : Job → Result JobFault Job) (signer : Option Text) (hook : Hook)
      → Applies apply
      → ((row : Job) → ReadsOnly (hook row))
      → Keeps P Any (run_exchange ports job_id apply signer hook)
  unfolding run_exchange
  exchange-Keeps job_id apply signer hook ka kh =
      bind-Keeps P (IsLive ports P keep) Any _ _ (load-Keeps ports P keep job_id) λ l p.
        after-Keeps P Any _ _ (send_if-ReadsOnly _ _) λ u. apply-Keeps l.job apply none hook p ka kh

  -- a gate carries a job that was loaded
  abbrev pub IsGated : Gate → Type 0
  IsGated gate = P gate.loaded.job

  pub gate-Keeps :
      (job_id : Text) (request : Request) (allowed : List Party)
      → Keeps P IsGated (require_signed_party ports job_id request allowed)
  unfolding require_signed_party
  gate-Keeps job_id request allowed =
      bind-Keeps P (IsLive ports P keep) IsGated _ _ (load-Keeps ports P keep job_id) λ l p.
        after-Keeps P IsGated _ _ (party-ReadsOnly ports request l.job)
          λ acting. after-Keeps P IsGated _ _ (send_if-ReadsOnly _ _) λ u. pure-Keeps P IsGated _ p

  party-Keeps :
      (job_id : Text) (request : Request) (apply : Job → Party → Result JobFault Job)
      → ((party : Party) → Applies (λ job. apply job party))
      → Keeps P Any (run_party_exchange ports job_id request apply)
  unfolding run_party_exchange
  party-Keeps job_id request apply ka =
      bind-Keeps P (IsLive ports P keep) Any _ _ (load-Keeps ports P keep job_id) λ l p.
        after-Keeps P Any _ _ (party-ReadsOnly ports request l.job) λ gate.
          after-Keeps P Any _ _ (negotiation-ReadsOnly ports l.job gate)
            λ u. apply-Keeps l.job _ none no_hook p (ka gate.party) silent

  quote-ReadsOnly :
      (gate : Acting) (price : Option PriceProposal) (row : Job)
      → ReadsOnly (quote_hook ports gate price row)
  quote-ReadsOnly gate none row = pure-ReadsOnly tt
  quote-ReadsOnly gate (some price) row = search guard_rules

  pub criteria-Keeps :
      (job_id : Text) (request : Request) (body : CriteriaBody)
      → Keeps P Any (criteria_route ports job_id request body)
  unfolding criteria_route perform
  criteria-Keeps job_id request body = after-Keeps P Any _ _ (or_send-ReadsOnly _ _) λ input.
      after-Keeps P Any _ _ (price-ReadsOnly body) λ price.
        bind-Keeps P (IsLive ports P keep) Any _ _ (load-Keeps ports P keep job_id) λ l p.
          after-Keeps P Any _ _ (party-ReadsOnly ports request l.job) λ gate.
            after-Keeps P Any _ _ (negotiation-ReadsOnly ports l.job gate) λ u.
              after-Keeps P Any _ _ (settled-ReadsOnly ports l.job _) λ settled.
                after-Keeps P Any _ _ (floor-ReadsOnly ports l.job price) λ v.
                  apply-Keeps l.job _ none _ p (event-Applies (propose_event _ price settled))
                    (quote-ReadsOnly gate price)

  pub request_changes-Keeps :
      (job_id : Text) (request : Request) → Keeps P Any (request_changes_route ports job_id request)
  unfolding request_changes_route perform
  request_changes-Keeps job_id request =
      party-Keeps job_id request _ λ party. event-Applies changes_event

  pub accept-Keeps :
      (job_id : Text) (request : Request) (index : Number)
      → Keeps P Any (accept_route ports job_id request index)
  unfolding accept_route perform
  accept-Keeps job_id request index =
      party-Keeps job_id request _ λ party. event-Applies (accept_event index party)

  pub accept_price-Keeps :
      (job_id : Text) (request : Request) → Keeps P Any (accept_price_route ports job_id request)
  unfolding accept_price_route perform
  accept_price-Keeps job_id request =
      party-Keeps job_id request _ λ party. event-Applies (accept_price_event party)

  pub withdraw-Keeps :
      (job_id : Text) (request : Request) → Keeps P Any (withdraw_route ports job_id request)
  unfolding withdraw_route perform
  withdraw-Keeps job_id request =
      bind-Keeps P IsGated Any _ _ (gate-Keeps job_id request _) λ gate p.
        after-Keeps P Any _ _ (settled-ReadsOnly ports gate.loaded.job _) λ settled.
          apply-Keeps gate.loaded.job _ none no_hook p (event-Applies (withdraw_event settled))
            silent

  pub decline-Keeps :
      (job_id : Text) (request : Request) → Keeps P Any (decline_route ports job_id request)
  unfolding decline_route perform
  decline-Keeps job_id request =
      bind-Keeps P IsGated Any _ _ (gate-Keeps job_id request _) λ gate p.
        after-Keeps P Any _ _ (negotiation-ReadsOnly ports gate.loaded.job gate.acting) λ u.
          after-Keeps P Any _ _ (gate-ReadsOnly ports _ _) λ settled.
            after-Keeps P Any _ _ (decline_held-ReadsOnly ports gate.loaded.job settled) λ v.
              apply-Keeps gate.loaded.job _ none no_hook p (event-Applies (decline_event settled))
                silent
