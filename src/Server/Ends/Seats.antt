-- ===== src/Server/Ends/Seats.antt =====
-- Who a route may act for.
use mathlib.Core.Path.{subst}
use freeagents.Base.{
  Bool-cases, ℕ, ◌≡◌, ◌⊎◌, inl, inr, true, false, not, Option, none, some, List, [], ◌∷◌, ◌≢◌, refl,
  arith, IsIn, in_head, in_tail,
}
use freeagents.Base.Text.{Text, text_eq, text_eq_iff}
use freeagents.Evidence.Keys.{is_agent_operator}
use freeagents.Evidence.Names.{AreSameDid, is_agent_operator-AreSameDid}
use freeagents.Job.Model.{Party, buyer, agent, Job}
use freeagents.Server.Ports.{AgentRow, Request, SessionMethod, Ports, State}
use freeagents.Server.Parties.{
  seat_of, found_row, is_own_key, may_negotiate_flag, agent_may_negotiate, Acting, party_for_did,
  resolve_job_acting_party, require_negotiation_allowed, provision_if_missing, session_did,
  signer_or_session, resolve_acting_party,
}
use freeagents.Server.Exchange.{is_allowed, same_party, Gate, require_signed_party}
use freeagents.Server.Ends.{
  Ends, pure-Ends, weaken-Ends, if-Ends, bind-Ends, past-Ends, try-Ends, or_send-Ends, send_if-Ends,
  ask-Ends, is_settled-eq, value-Post,
}
use freeagents.Server.Route.{value}

-- The seat of a DID on a job: the buyer's own, the agent's own, or that of the agent's operator, as
-- the agent's row named it at some time, in either form of the DID.
pub data HasSeat (ports : Ports) (job : Job) : Text → Party → Type 0 where
  is_buyer : {did : Text} → did ≡ job.buyer_did → HasSeat ports job did buyer
  is_agent : {did : Text} → did ≡ job.agent_did → HasSeat ports job did agent
  is_operator :
      {did : Text} (t : ℕ) (row : AgentRow)
      → ports.agent_row t job.agent_did ≡ some (some row)
      → did ≢ []
      → row.operator_did ≢ []
      → AreSameDid did row.operator_did
      → HasSeat ports job did agent

-- The DID that a request comes from: that of its verified signature, or else that of the account of
-- its live session, which is made on the spot if there is none.
pub data IsCaller (ports : Ports) (who : Request) (did : Text) : Type 0 where
  by_signature : who.signer_did ≡ some did → IsCaller ports who did
  by_account :
      (method : SessionMethod) (subject : Text) (t : ℕ)
      → who.signer_did ≡ none
      → who.session ≡ some (subject, method)
      → ports.account_did t method subject ≡ some (some did)
      → IsCaller ports who did
  by_provision :
      (method : SessionMethod) (subject : Text) (t t' : ℕ)
      → who.signer_did ≡ none
      → who.session ≡ some (subject, method)
      → ports.account_did t method subject ≡ some none
      → ports.provision t' method subject ≡ some (some did)
      → IsCaller ports who did

same_party-eq : (p q : Party) → same_party p q ≡ true → p ≡ q
same_party-eq buyer buyer h = refl
same_party-eq buyer agent h = cc
same_party-eq agent buyer h = cc
same_party-eq agent agent h = refl

is_allowed-IsIn :
    (allowed : List Party) (party : Party) → is_allowed allowed party ≡ true → IsIn party allowed
is_allowed-IsIn [] party h = cc
is_allowed-IsIn (p ∷ allowed) party h = elim (Bool-cases (same_party p party)) [
  | inl e ↦ subst (λ x. IsIn x (p ∷ allowed)) (same_party-eq p party e) in_head
  | inr e ↦ in_tail (is_allowed-IsIn allowed party (rw e at h))
]

filled_dids : (a b : Text) → is_agent_operator a b ≡ true → (a ≢ []) × (b ≢ [])
unfolding is_agent_operator
filled_dids [] b h = cc
filled_dids (c ∷ a) [] h = cc
filled_dids (c ∷ a) (d ∷ b) h = ((λ e. cc), (λ e. cc))

operator_fact :
    (ports : Ports) (job : Job) (did : Text) (t : ℕ) (row : AgentRow)
    → ports.agent_row t job.agent_did ≡ some (some row)
    → is_agent_operator did row.operator_did ≡ true
    → HasSeat ports job did agent
operator_fact ports job did t row e k =
    let (acts, owns) = filled_dids did row.operator_did k in
    is_operator t row e acts owns (is_agent_operator-AreSameDid did row.operator_did k)

module _ (ports : Ports) (who : Request) where
  abbrev IsCallerIfAny : Option Text → Type 0
  IsCallerIfAny none = Unit
  IsCallerIfAny (some did) = IsCaller ports who did

  provisioned-Ends :
      (method : SessionMethod) (subject : Text) (t : ℕ) (account : Option Text)
      → who.signer_did ≡ none
      → who.session ≡ some (subject, method)
      → ports.account_did t method subject ≡ some account
      → Ends IsCallerIfAny (provision_if_missing ports method subject account)
  provisioned-Ends method subject t none u e h =
      weaken-Ends _ _ _ (ask-Ends _ _) λ made q. made_fact made q.0 q.1
    where
      made_fact :
          (made : Option Text) (t' : ℕ)
          → ports.provision t' method subject ≡ some made
          → IsCallerIfAny made
      made_fact none t' k = tt
      made_fact (some did) t' k = by_provision method subject t t' u e h k
  provisioned-Ends method subject t (some did) u e h =
      pure-Ends _ _ (by_account method subject t u e h)

  session-Ends :
      (session : Option (Text × SessionMethod))
      → who.signer_did ≡ none
      → who.session ≡ session
      → Ends IsCallerIfAny (session_did ports session)
  session-Ends none u e = pure-Ends _ _ tt
  session-Ends (some (subject, method)) u e =
      bind-Ends _ _ _ _ (ask-Ends _ _)
        λ account q. provisioned-Ends method subject q.0 account u e q.1

  signer-Ends :
      (signer : Option Text)
      → who.signer_did ≡ signer
      → Ends IsCallerIfAny (signer_or_session ports signer who.session)
  signer-Ends (some did) u = pure-Ends _ _ (by_signature u)
  signer-Ends none u = session-Ends who.session u refl

  caller-Ends : Ends IsCallerIfAny (resolve_acting_party ports who)
  unfolding resolve_acting_party
  caller-Ends = signer-Ends who.signer_did refl

  IsCaller-found :
      (o : Option Text) (did : Text) → IsCallerIfAny o → o ≡ some did → IsCaller ports who did
  IsCaller-found none did q e = cc
  IsCaller-found (some d) did q e = subst (IsCaller ports who) (cc) q

module _ (ports : Ports) (job : Job) (did : Text) where
  abbrev IsSeatOf : Option Party → Type 0
  IsSeatOf none = Unit
  IsSeatOf (some party) = HasSeat ports job did party

  row-IsSeatOf :
      (t : ℕ) (o : Option (Option AgentRow))
      → ports.agent_row t job.agent_did ≡ o
      → IsSeatOf (seat_of job did (found_row o))
  row-IsSeatOf t none e = tt
  row-IsSeatOf t (some none) e = tt
  row-IsSeatOf t (some (some row)) e = elim (Bool-cases (is_agent_operator did row.operator_did)) [
    | inl k ↦ rw k (operator_fact ports job did t row e k)
    | inr k ↦ rw k tt
  ]

  party-Ends : Ends IsSeatOf (party_for_did ports job did)
  unfolding party_for_did
  party-Ends =
      if-Ends IsSeatOf (text_eq did job.buyer_did) _ _
        (λ e. pure-Ends IsSeatOf (some buyer) (is_buyer ((text_eq_iff did job.buyer_did).0 e)))
        λ b.
          if-Ends IsSeatOf (text_eq did job.agent_did) _ _
            (λ e. pure-Ends IsSeatOf (some agent) (is_agent ((text_eq_iff did job.agent_did).0 e)))
            λ c.
              bind-Ends _ IsSeatOf _ _ (try-Ends _)
                λ row q. pure-Ends IsSeatOf _ (row-IsSeatOf q.0 row q.1)

module _ (ports : Ports) where
  abbrev IsSeated : Request → Job → Acting → Type 0
  IsSeated who job gate = IsCaller ports who gate.did × HasSeat ports job gate.did gate.party

  seat_found :
      (job : Job) (did : Text) (seat : Option Party) (party : Party)
      → IsSeatOf ports job did seat
      → seat ≡ some party
      → HasSeat ports job did party
  seat_found job did none party q e = cc
  seat_found job did (some p) party q e = subst (HasSeat ports job did) (cc) q

  acting-Ends :
      (who : Request) (job : Job) → Ends (IsSeated who job) (resolve_job_acting_party ports who job)
  unfolding resolve_job_acting_party
  acting-Ends who job = bind-Ends _ _ _ _ (caller-Ends ports who) λ acting c.
      bind-Ends _ _ _ _ (or_send-Ends _ acting) λ did f.
        bind-Ends _ _ _ _ (party-Ends ports job did) λ seat q.
          bind-Ends _ _ _ _ (or_send-Ends _ seat) λ party e.
            pure-Ends (IsSeated who job) _
              (IsCaller-found ports who acting did c f, seat_found job did seat party q e)

  abbrev pub IsGated : Request → List Party → Gate → Type 0
  IsGated who allowed gate =
      IsSeated who gate.loaded.job gate.acting × IsIn gate.acting.party allowed

  pub gate-Ends :
      (id : Text) (who : Request) (allowed : List Party)
      → Ends (IsGated who allowed) (require_signed_party ports id who allowed)
  unfolding require_signed_party
  gate-Ends id who allowed = past-Ends _ _ _ λ l.
      bind-Ends _ _ _ _ (acting-Ends who l.job) λ gate q.
        bind-Ends _ _ _ _ (send_if-Ends _ _) λ u e.
          pure-Ends (IsGated who allowed) _ (q, is_allowed-IsIn allowed _ (is_settled-eq _ e))

  -- the owner's word for its agent
  abbrev pub OwnerAllows : Job → Type 0
  OwnerAllows job =
      (t : ℕ) × (row : AgentRow) × (ports.agent_row t job.agent_did ≡ some (some row))
      × (row.negotiates_on_owners_behalf ≡ true)

  allowed_row :
      (job : Job) (t : ℕ) (row : Option AgentRow)
      → ports.agent_row t job.agent_did ≡ some row
      → may_negotiate_flag row ≡ true
      → OwnerAllows job
  allowed_row job t none e k = cc
  allowed_row job t (some row) e k = (t, row, e, k)

  pub negotiation-Ends :
      (job : Job) (gate : Acting)
      → Ends
          (λ u. (is_own_key gate.party gate.did job.agent_did ≡ false) ⊎ OwnerAllows job)
          (require_negotiation_allowed ports job gate)
  unfolding require_negotiation_allowed agent_may_negotiate
  negotiation-Ends job gate =
      if-Ends _ (not (is_own_key gate.party gate.did job.agent_did)) _ _
        (λ e. pure-Ends _ tt (inl (ground arith)))
        λ e. bind-Ends _ _ _ _ (ask-Ends _ _) λ row q.
          weaken-Ends _ _ _ (send_if-Ends _ _)
            λ u k. inr (allowed_row job q.0 row q.1 (is_settled-eq _ k))

-- A route that asks for a seat goes on only for the DID that the request comes from: that of its
-- signature, or else that of the account of its session. On the job that was loaded this DID has one
-- of the seats that are allowed: the buyer's by the buyer's DID, the agent's by the agent's DID or by
-- that of the operator that the agent's row names, in either form.
pub require_signed_party-HasSeat :
    (ports : Ports) (id : Text) (who : Request) (allowed : List Party) (s s' : State) (gate : Gate)
    → require_signed_party ports id who allowed s ≡ (value gate, s')
    → (IsCaller ports who gate.acting.did
        × HasSeat ports gate.loaded.job gate.acting.did gate.acting.party)
      × IsIn gate.acting.party allowed
require_signed_party-HasSeat ports id who allowed s s' gate e =
    value-Post ((gate-Ends ports id who allowed).at s) e
