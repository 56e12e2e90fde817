-- ===== src/Job/Terms.antt =====
-- The agreed terms, and who the job is between, along a run.
use freeagents.Base.{is_some, ok, ◌≡◌, inl, inr, true, List, arith}
use freeagents.Base.Text.{Text}
use freeagents.Job.Model.{Instant, buyer, agent, Job}
use freeagents.Job.Event.{Event, run}
use freeagents.Job.Invariant.Agreed.{IsAgreed, Step-IsAgreed}
use freeagents.Job.Runs.{run_invariant, create_job-eq-ok}
use freeagents.Job.Agreement.{JobInput, create_job}
use freeagents.Job.Step.{
  Step, accepts_price, proposes, accepts, idle, confirms, attaches, follows, stages, asks_redo,
  refuses_redo, submits, cites, completes, deems, moves,
}
use freeagents.Job.Lifecycle.{attach_staging_repository}
use freeagents.Job.Hashing.{hash_spec}

-- the same terms, pinned by the same digest at the same instant
pub record SameTerms (a b : Job) : Type 0 where
  pub criteria : a.criteria ≡ b.criteria
  pub price : a.price_usd ≡ b.price_usd
  pub rail : a.rail ≡ b.rail
  pub window : a.delivery_window_days ≡ b.delivery_window_days
  pub deposit : a.deposit_percent ≡ b.deposit_percent
  pub allowance : a.redo_allowance ≡ b.redo_allowance
  pub hash : a.confirmed_spec_hash ≡ b.confirmed_spec_hash
  pub time : a.confirmed_at ≡ b.confirmed_at

-- A step does not touch the terms of a job that was confirmed.
Step-SameTerms :
    (sha : Text → Text) {job job' : Job}
    → Step sha job job'
    → IsAgreed sha job
    → is_some job.confirmed_at ≡ true
    → SameTerms job' job
unfolding attach_staging_repository
Step-SameTerms sha idle h c = ground arith
Step-SameTerms sha (proposes input price lines fields (inl e) el ef) h c =
    let fresh = h.fresh (rw e) in absurd (ground arith)
Step-SameTerms sha (proposes input price lines fields (inr e) el ef) h c =
    let fresh = h.fresh (rw e) in absurd (ground arith)
Step-SameTerms sha (accepts i party m e lt) h c =
    let fresh = h.fresh (rw e) in absurd (ground arith)
Step-SameTerms sha (accepts_price party m e priced) h c =
    let fresh = h.fresh (rw e) in absurd (ground arith)
Step-SameTerms sha (confirms now e gap railed) h c =
    let fresh = h.fresh (rw e) in absurd (ground arith)
Step-SameTerms sha (attaches staging base) h c = ground arith
Step-SameTerms sha (follows name e) h c = ground arith
Step-SameTerms sha (stages commit now edge) h c = ground arith
Step-SameTerms sha (asks_redo i now edge lt room) h c = ground arith
Step-SameTerms sha (refuses_redo now e) h c = ground arith
Step-SameTerms sha (submits url now edge) h c = ground arith
Step-SameTerms sha (cites i reason now edge lt prose) h c = ground arith
Step-SameTerms sha (completes commit time edge) h c = ground arith
Step-SameTerms sha (deems now past) h c = ground arith
Step-SameTerms sha (moves to edge only) h c = ground arith

module _ (sha : Text → Text) (job : Job) where
  abbrev Kept : Job → Type 0
  Kept b = IsAgreed sha b × SameTerms b job

  Step-Kept : is_some job.confirmed_at ≡ true → (a b : Job) → Step sha a b → Kept a → Kept b
  Step-Kept c a b s k =
      let t = Step-SameTerms sha s k.0 (rw k.1.time c) in (Step-IsAgreed sha s k.0, ground arith)

  -- Once a job is confirmed, no call ever changes its criteria, price, rail, window, deposit,
  -- redo allowance or digest.
  pub run-SameTerms :
      (es : List Event)
      → IsAgreed sha job
      → is_some job.confirmed_at ≡ true
      → SameTerms (run sha es job) job
  run-SameTerms es h c = (run_invariant Kept sha (Step-Kept c) es job (h, ground arith)).1

-- what `createJob` fixes
pub record SameOrigin (a b : Job) : Type 0 where
  pub id : a.id ≡ b.id
  pub buyer : a.buyer_did ≡ b.buyer_did
  pub agent : a.agent_did ≡ b.agent_did
  pub request : a.request_id ≡ b.request_id
  pub brief : a.brief ≡ b.brief
  pub brief_hash : a.brief_hash ≡ b.brief_hash
  pub created : a.created_at ≡ b.created_at

Step-SameOrigin : (sha : Text → Text) {job job' : Job} → Step sha job job' → SameOrigin job' job
unfolding attach_staging_repository
Step-SameOrigin sha idle = ground arith
Step-SameOrigin sha (accepts_price buyer m e priced) = ground arith
Step-SameOrigin sha (accepts_price agent m e priced) = ground arith
Step-SameOrigin sha s = ground arith

-- The parties, the brief and its digest are those that the job was opened with.
pub run-SameOrigin :
    (sha : Text → Text) (input : JobInput) (now : Instant) (es : List Event) {job : Job}
    → create_job sha input now ≡ ok job
    → let end = run sha es job in
      (end.buyer_did ≡ input.buyer_did)
      × (end.agent_did ≡ input.agent_did)
      × (end.brief ≡ input.brief)
      × (end.brief_hash ≡ hash_spec sha input.brief)
run-SameOrigin sha input now es {job = job} h =
    let opening = (create_job-eq-ok sha input now h).0 in
    let k =
      run_invariant (λ b. SameOrigin b job) sha
        (λ a b s k. let t = Step-SameOrigin sha s in ground arith) es job (ground arith) in
    ground arith
