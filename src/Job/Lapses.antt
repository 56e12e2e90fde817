-- ===== src/Job/Lapses.antt =====
-- The clocks together: at most one of them fires on a job.
use freeagents.Base.{
  if◌then◌else◌, is_some, Bool-cases, ◌≡◌, refl, inl, inr, Bool, ◌||◌, Option, some, false, ◌⊎◌,
  true, ◌&&◌, none, arith,
}
use freeagents.Base.Text.{Text}
use freeagents.Job.Status.{
  closed_unpaid, expired_unstaged, deemed_completed, paid_undelivered, JobStatus, confirmed, staged,
  redo_requested, submitted,
}
use freeagents.Job.Edges.{
  ◌⟶◌, confirmed_expired, staged_unpaid, staged_undelivered, redo_unpaid, redo_undelivered,
}
use freeagents.Job.Step.{Acceptance, StepBy, idle, deems, moves}
use freeagents.Job.Model.{Instant, Job}
use freeagents.Job.Clocks.{
  expires, goes_unpaid, goes_undelivered, deem_window_has_passed, apply_lapses, expire_unstaged,
  lapse_at_staged, lapse_undelivered, deem_completed, is_lapse_status, is_submitted, is_confirmed,
}

module _ (job : Job) (now : Instant) where
  expire_unstaged-if :
      {b : Bool}
      → expires job now ≡ b
      → expire_unstaged job now ≡ (if b then record job { status = expired_unstaged } else job)
  unfolding expire_unstaged
  expire_unstaged-if e = rw e

  lapse_at_staged-if :
      (paid : Bool) {b : Bool}
      → goes_unpaid job now paid ≡ b
      → lapse_at_staged job now paid ≡ (if b then record job { status = closed_unpaid } else job)
  unfolding lapse_at_staged
  lapse_at_staged-if paid e = rw e

  lapse_undelivered-if :
      (paid_at : Option Instant) {b : Bool}
      → goes_undelivered job now paid_at ≡ b
      → lapse_undelivered job now paid_at
        ≡ (if b then record job { status = paid_undelivered } else job)
  unfolding lapse_undelivered
  lapse_undelivered-if paid_at e = rw e

  deem_completed-if :
      {b : Bool}
      → deem_window_has_passed job now ≡ b
      → deem_completed job now ≡ (
          if b
          then record job { status = deemed_completed; deemed_completed_at = some now }
          else job)
  unfolding deem_completed
  deem_completed-if e = rw e

  -- the clocks behind one that has fired
  undelivered_quiet :
      (paid_at : Option Instant)
      → is_lapse_status job.status ≡ false
      → lapse_undelivered job now paid_at ≡ job
  unfolding goes_undelivered
  undelivered_quiet paid_at e = lapse_undelivered-if paid_at {b = false} (rw e)

  unpaid_quiet :
      (paid : Bool) → is_lapse_status job.status ≡ false → lapse_at_staged job now paid ≡ job
  unfolding goes_unpaid
  unpaid_quiet paid e = lapse_at_staged-if paid {b = false} (rw e)

  deem_quiet : is_submitted job.status ≡ false → deem_completed job now ≡ job
  unfolding deem_window_has_passed
  deem_quiet e = deem_completed-if {b = false} (rw e)

-- `applyLapses` as one chain over the outcomes of the four tests on the job that it is given.
abbrev pub chain_of : Bool → Bool → Bool → Bool → Job → Instant → Job
chain_of expired unpaid undelivered deemed job now =
    if expired
    then record job { status = expired_unstaged }
    else if unpaid
    then record job { status = closed_unpaid }
    else if undelivered
    then record job { status = paid_undelivered }
    else if deemed
    then record job { status = deemed_completed; deemed_completed_at = some now }
    else job

module _ (job : Job) (now : Instant) (paid : Bool) (paid_at : Option Instant) where
  abbrev pub lapse_chain : Job
  lapse_chain =
      chain_of (expires job now) (goes_unpaid job now (paid || is_some paid_at))
        (goes_undelivered job now paid_at) (deem_window_has_passed job now) job now

  not_undelivered_chain :
      goes_undelivered job now paid_at ≡ false
      → deem_completed (lapse_undelivered job now paid_at) now ≡ (
          if deem_window_has_passed job now
          then record job { status = deemed_completed; deemed_completed_at = some now }
          else job)
  not_undelivered_chain e =
      rw (lapse_undelivered-if job now paid_at e) (deem_completed-if job now refl)

  pub apply_lapses-chain : apply_lapses job now paid paid_at ≡ lapse_chain
  unfolding apply_lapses
  apply_lapses-chain = elim (Bool-cases (expires job now)) [
    | inl e ↦
        let gone : Job = record job { status = expired_unstaged } in
        rw (expire_unstaged-if job now e, e, unpaid_quiet gone now _ refl)
          (rw (undelivered_quiet gone now paid_at refl) (deem_quiet gone now refl))
    | inr e ↦
        rw (expire_unstaged-if job now e, e)
          (elim (Bool-cases (goes_unpaid job now (paid || is_some paid_at))) [
            | inl u ↦
                let closed : Job = record job { status = closed_unpaid } in
                rw (lapse_at_staged-if job now _ u, u, undelivered_quiet closed now paid_at refl)
                  (deem_quiet closed now refl)
            | inr u ↦
                rw (lapse_at_staged-if job now _ u, u)
                  (elim (Bool-cases (goes_undelivered job now paid_at)) [
                    | inl d ↦ rw (lapse_undelivered-if job now paid_at d, d) (deem_quiet _ now refl)
                    | inr d ↦ rw d (not_undelivered_chain d)
                  ])
          ])
  ]

is_confirmed-eq : (s : JobStatus) → is_confirmed s ≡ true → s ≡ confirmed
is_confirmed-eq confirmed h = refl
is_confirmed-eq _ h = cc

is_lapse_status-eq :
    (s : JobStatus) → is_lapse_status s ≡ true → (s ≡ staged) ⊎ (s ≡ redo_requested)
is_lapse_status-eq staged h = inl refl
is_lapse_status-eq redo_requested h = inr refl
is_lapse_status-eq _ h = cc

is_submitted-eq : (s : JobStatus) → is_submitted s ≡ true → s ≡ submitted
is_submitted-eq submitted h = refl
is_submitted-eq _ h = cc

pub &&-true : (a b : Bool) → (a && b) ≡ true → (a ≡ true) × (b ≡ true)
&&-true a b h = ground arith

module _ (job : Job) (now : Instant) where
  pub expires-status : expires job now ≡ true → job.status ≡ confirmed
  unfolding expires
  expires-status h = is_confirmed-eq job.status (&&-true _ _ h).0

  pub goes_unpaid-status :
      (paid : Bool)
      → goes_unpaid job now paid ≡ true
      → ((job.status ≡ staged) ⊎ (job.status ≡ redo_requested)) × (paid ≡ false)
  unfolding goes_unpaid
  goes_unpaid-status paid h = (is_lapse_status-eq job.status (ground arith), ground arith)

  pub goes_undelivered-status :
      (paid_at : Option Instant)
      → goes_undelivered job now paid_at ≡ true
      → ((job.status ≡ staged) ⊎ (job.status ≡ redo_requested)) × (is_some paid_at ≡ true)
  unfolding goes_undelivered
  goes_undelivered-status none h = absurd (ground arith)
  goes_undelivered-status (some t) h = (is_lapse_status-eq job.status (&&-true _ _ h).0, refl)

  pub deem-status : deem_window_has_passed job now ≡ true → job.status ≡ submitted
  unfolding deem_window_has_passed
  deem-status h = is_submitted-eq job.status (&&-true _ _ h).0

unpaid_edge : {s : JobStatus} → (s ≡ staged) ⊎ (s ≡ redo_requested) → s ⟶ closed_unpaid
unpaid_edge (inl e) = rw e staged_unpaid
unpaid_edge (inr e) = rw e redo_unpaid

undelivered_edge : {s : JobStatus} → (s ≡ staged) ⊎ (s ≡ redo_requested) → s ⟶ paid_undelivered
undelivered_edge (inl e) = rw e staged_undelivered
undelivered_edge (inr e) = rw e redo_undelivered

module _ {may : Acceptance → Type 0} (sha : Text → Text) (job : Job) (now : Instant) (paid : Bool)
    (paid_at : Option Instant) where
  chain-Step : StepBy may sha job (lapse_chain job now paid paid_at)
  chain-Step = elim (Bool-cases (expires job now)) [
    | inl e ↦ rw e (moves expired_unstaged (rw (expires-status job now e) confirmed_expired) refl)
    | inr e ↦ rw e (elim (Bool-cases (goes_unpaid job now (paid || is_some paid_at))) [
      | inl u ↦ rw u (moves closed_unpaid (unpaid_edge (goes_unpaid-status job now _ u).0) refl)
      | inr u ↦ rw u (elim (Bool-cases (goes_undelivered job now paid_at)) [
        | inl d ↦
            rw d (
              moves paid_undelivered (undelivered_edge (goes_undelivered-status job now _ d).0)
                refl)
        | inr d ↦ rw d (elim (Bool-cases (deem_window_has_passed job now)) [
          | inl w ↦ rw w (deems now w)
          | inr w ↦ rw w idle
        ])
      ])
    ])
  ]

  -- A read of the clocks is a step, along an edge of the table or with no change.
  pub apply_lapses-Step : StepBy may sha job (apply_lapses job now paid paid_at)
  apply_lapses-Step = rw (apply_lapses-chain job now paid paid_at) chain-Step
