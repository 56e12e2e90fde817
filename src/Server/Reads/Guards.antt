-- ===== src/Server/Reads/Guards.antt =====
-- The guards that every route shares leave the rows alone: who acts, and what holds a leg.
use freeagents.Base.{Option, none, some, ℕ, refl, Bool, [], ◌∷◌}
use freeagents.Base.Text.{Text}
use freeagents.Job.Model.{Job, Rail}
use freeagents.Server.Ports.{
  Leg, SessionMethod, Request, Ports, HeldAction, SystemEvent, NoticeKind, AgentRow,
}
use freeagents.Server.Parties.{
  Acting, provision_if_missing, session_did, resolve_acting_party, party_for_did,
  resolve_job_acting_party, require_negotiation_allowed, signer_or_session,
}
use freeagents.Server.Holds.{
  rail_held_by_short_payment, HeldLeg, short_in, is_half_paid, rail_holding_leg,
  half_paid_unless_short, leg_hold, send_if_held, refuse_when_leg_held, ask_gate,
  refuse_staged_move_when_paid,
}
use freeagents.Server.Reads.{
  ReadsOnly, pure-ReadsOnly, reads_rules, bind-ReadsOnly, store-ReadsOnly,
}
use freeagents.Server.Notices.{notify, notify_job_parties, notify_operator, system_row, nothing}

module _ (ports : Ports) where
  provision-ReadsOnly :
      (method : SessionMethod) (subject : Text) (account : Option Text)
      → ReadsOnly (provision_if_missing ports method subject account)
  provision-ReadsOnly method subject none = search reads_rules
  provision-ReadsOnly method subject (some did) = search reads_rules

  session-ReadsOnly :
      (session : Option (Text × SessionMethod)) → ReadsOnly (session_did ports session)
  session-ReadsOnly none = search reads_rules
  session-ReadsOnly (some (subject, method)) = search (reads_rules, provision-ReadsOnly)

  signer-ReadsOnly :
      (signer : Option Text) (session : Option (Text × SessionMethod))
      → ReadsOnly (signer_or_session ports signer session)
  signer-ReadsOnly (some did) session = pure-ReadsOnly (some did)
  signer-ReadsOnly none session = session-ReadsOnly session

  acting-ReadsOnly : (request : Request) → ReadsOnly (resolve_acting_party ports request)
  unfolding resolve_acting_party
  acting-ReadsOnly request = signer-ReadsOnly request.signer_did request.session

  pub seat-ReadsOnly : (job : Job) (did : Text) → ReadsOnly (party_for_did ports job did)
  unfolding party_for_did
  seat-ReadsOnly job did = search reads_rules

  pub party-ReadsOnly :
      (request : Request) (job : Job) → ReadsOnly (resolve_job_acting_party ports request job)
  unfolding resolve_job_acting_party
  party-ReadsOnly request job = search (reads_rules, acting-ReadsOnly, seat-ReadsOnly)

  pub negotiation-ReadsOnly :
      (job : Job) (gate : Acting) → ReadsOnly (require_negotiation_allowed ports job gate)
  unfolding require_negotiation_allowed
  negotiation-ReadsOnly job gate = search reads_rules

  short_in-ReadsOnly :
      (find : Option (ℕ → Leg → Text → Option ℕ)) (leg : Leg) (job_id : Text)
      → ReadsOnly (short_in ports find leg job_id)
  short_in-ReadsOnly none leg job_id = search reads_rules
  short_in-ReadsOnly (some find) leg job_id = search reads_rules

  pub short-ReadsOnly :
      (leg : Leg) (job_id : Text) → ReadsOnly (rail_held_by_short_payment ports leg job_id)
  unfolding rail_held_by_short_payment
  short-ReadsOnly leg job_id = short_in-ReadsOnly ports.shorts leg job_id

  half_paid-ReadsOnly :
      (read : Option (ℕ → Leg → Text → Option Bool)) (leg : Leg) (job_id : Text)
      → ReadsOnly (is_half_paid read leg job_id)
  half_paid-ReadsOnly none leg job_id = search reads_rules
  half_paid-ReadsOnly (some read) leg job_id = search reads_rules

  holding-ReadsOnly : (leg : Leg) (job_id : Text) → ReadsOnly (rail_holding_leg ports leg job_id)
  unfolding rail_holding_leg
  holding-ReadsOnly leg job_id = search (reads_rules, half_paid-ReadsOnly)

  unless_short-ReadsOnly :
      (short : Option Rail) (leg : Leg) (job_id : Text)
      → ReadsOnly (half_paid_unless_short ports short leg job_id)
  unless_short-ReadsOnly (some rail) leg job_id = search reads_rules
  unless_short-ReadsOnly none leg job_id = search (reads_rules, holding-ReadsOnly)

  hold-ReadsOnly : (leg : Leg) (job_id : Text) → ReadsOnly (leg_hold ports leg job_id)
  unfolding leg_hold
  hold-ReadsOnly leg job_id = search (reads_rules, short-ReadsOnly, unless_short-ReadsOnly)

  send_if_held-ReadsOnly :
      (held : Option HeldLeg) (action : HeldAction) → ReadsOnly (send_if_held held action)
  send_if_held-ReadsOnly none action = search reads_rules
  send_if_held-ReadsOnly (some held) action = search reads_rules

  pub held-ReadsOnly :
      (leg : Leg) (job_id : Text) (action : HeldAction)
      → ReadsOnly (refuse_when_leg_held ports leg job_id action)
  unfolding refuse_when_leg_held
  held-ReadsOnly leg job_id action = search (reads_rules, hold-ReadsOnly, send_if_held-ReadsOnly)

  pub gate-ReadsOnly : (leg : Leg) (job_id : Text) → ReadsOnly (ask_gate ports leg job_id)
  unfolding ask_gate
  gate-ReadsOnly leg job_id = search reads_rules

  pub paid-ReadsOnly :
      (job : Job) (action : HeldAction) → ReadsOnly (refuse_staged_move_when_paid ports job action)
  unfolding refuse_staged_move_when_paid
  paid-ReadsOnly job action = search (reads_rules, gate-ReadsOnly, held-ReadsOnly)

  pub message-ReadsOnly : (job_id : Text) (e : SystemEvent) → ReadsOnly (system_row ports job_id e)
  unfolding system_row
  message-ReadsOnly job_id e =
      bind-ReadsOnly _ _ (store-ReadsOnly ports nothing _ (λ s. refl)) (λ a. pure-ReadsOnly tt)

  notify-ReadsOnly :
      (did job_id : Text) (kind : NoticeKind) → ReadsOnly (notify ports did job_id kind)
  unfolding notify
  notify-ReadsOnly [] job_id kind = search reads_rules
  notify-ReadsOnly (c ∷ did) job_id kind =
      bind-ReadsOnly _ _ (store-ReadsOnly ports nothing _ (λ s. refl)) (λ a. pure-ReadsOnly tt)

  operator-ReadsOnly :
      (row : Option AgentRow) (excluded : Option Text) (job_id : Text) (kind : NoticeKind)
      → ReadsOnly (notify_operator ports row excluded job_id kind)
  operator-ReadsOnly none excluded job_id kind = search reads_rules
  operator-ReadsOnly (some row) excluded job_id kind = search (reads_rules, notify-ReadsOnly)

  pub notices-ReadsOnly :
      (job : Job) (kind : NoticeKind) (excluded : Option Text)
      → ReadsOnly (notify_job_parties ports job kind excluded)
  unfolding notify_job_parties
  notices-ReadsOnly job kind excluded = search (reads_rules, operator-ReadsOnly, notify-ReadsOnly)

pub ruleset guard_rules = (
  reads_rules, party-ReadsOnly, negotiation-ReadsOnly, short-ReadsOnly, held-ReadsOnly,
  gate-ReadsOnly, paid-ReadsOnly, message-ReadsOnly, notices-ReadsOnly,
)
