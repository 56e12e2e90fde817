-- ===== src/Job/Deadlines.antt =====
-- The clocks of `src/domain/job.ts` read twice, and by different readers.
use freeagents.Base.{
  ◌≤◌, ◌≡◌, Bool, true, Option, arith, is_some, Bool-cases, refl, ◌∙◌, inl, inr, false, ◌||◌, ap,
  ◌⊎◌, sym,
}
use freeagents.Job.Model.{Instant, Job}
use freeagents.Job.Clocks.{
  expires, goes_unpaid, goes_undelivered, deem_window_has_passed, is_confirmed, is_lapse_status,
  is_submitted, apply_lapses,
}
use freeagents.Job.Lapses.{apply_lapses-chain, chain_of, lapse_chain}
use freeagents.Job.Status.{JobStatus}

module _ (job : Job) (now : Instant) where
  expires-later :
      (later : Instant) → now ≤ later → expires job now ≡ true → expires job later ≡ true
  unfolding expires
  expires-later later le h = ground arith

  goes_unpaid-later :
      (later : Instant) (paid : Bool)
      → now ≤ later
      → goes_unpaid job now paid ≡ true
      → goes_unpaid job later paid ≡ true
  unfolding goes_unpaid
  goes_unpaid-later later paid le h = ground arith

  goes_undelivered-later :
      (later : Instant) (paid_at : Option Instant)
      → now ≤ later
      → goes_undelivered job now paid_at ≡ true
      → goes_undelivered job later paid_at ≡ true
  unfolding goes_undelivered
  goes_undelivered-later later paid_at le h = ground arith

  deem-later :
      (later : Instant)
      → now ≤ later
      → deem_window_has_passed job now ≡ true
      → deem_window_has_passed job later ≡ true
  unfolding deem_window_has_passed
  deem-later later le h = ground arith

-- The four tests exclude one another, by the status or by the settlement.
record IsQuiet (job : Job) (now : Instant) (paid : Bool) (paid_at : Option Instant) : Type 0 where
  no_expiry : expires job now ≡ false
  no_unpaid : goes_unpaid job now (paid || is_some paid_at) ≡ false
  no_undelivered : goes_undelivered job now paid_at ≡ false
  no_deem : deem_window_has_passed job now ≡ false

quiet-same :
    (job : Job) (now : Instant) (paid : Bool) (paid_at : Option Instant)
    → IsQuiet job now paid paid_at
    → apply_lapses job now paid paid_at ≡ job
quiet-same job now paid paid_at q =
    apply_lapses-chain job now paid paid_at
    ∙ rw (q.no_expiry, q.no_unpaid, q.no_undelivered, q.no_deem)

-- a status that no clock watches
abbrev is_watched : JobStatus → Bool
is_watched s = is_confirmed s || (is_lapse_status s || is_submitted s)

unwatched-IsQuiet :
    (job : Job) (now : Instant) (paid : Bool) (paid_at : Option Instant)
    → is_watched job.status ≡ false
    → IsQuiet job now paid paid_at
unfolding expires goes_unpaid goes_undelivered deem_window_has_passed
unwatched-IsQuiet job now paid paid_at h = ground arith

-- The chain of tests, on any outcomes of the tests: nothing fires, or the status is final.
chain-cases :
    (b₁ b₂ b₃ b₄ : Bool) (job : Job) (now : Instant)
    → ((b₁ ≡ false) × (b₂ ≡ false) × (b₃ ≡ false) × (b₄ ≡ false))
      ⊎ (is_watched (chain_of b₁ b₂ b₃ b₄ job now).status ≡ false)
chain-cases true b₂ b₃ b₄ job now = inr refl
chain-cases false true b₃ b₄ job now = inr refl
chain-cases false false true b₄ job now = inr refl
chain-cases false false false true job now = inr refl
chain-cases false false false false job now = inl (refl, refl, refl, refl)

module _ (job : Job) (now : Instant) (paid : Bool) (paid_at : Option Instant) where
  -- What a read of the clocks answers.
  answer :
      IsQuiet job now paid paid_at ⊎ (is_watched (apply_lapses job now paid paid_at).status ≡ false)
  answer =
      elim (chain-cases (expires job now) (goes_unpaid job now (paid || is_some paid_at))
        (goes_undelivered job now paid_at) (deem_window_has_passed job now) job now) [
          | inl (e₁, e₂, e₃, e₄) ↦
              inl (record { no_expiry = e₁; no_unpaid = e₂; no_undelivered = e₃; no_deem = e₄ })
          | inr final ↦ inr (rw (apply_lapses-chain job now paid paid_at) final)
        ]

  -- Reading the clocks again changes nothing.
  pub apply_lapses_idem :
      apply_lapses (apply_lapses job now paid paid_at) now paid paid_at
      ≡ apply_lapses job now paid paid_at
  apply_lapses_idem = elim answer [
    | inl quiet ↦ ap (λ j. apply_lapses j now paid paid_at) (quiet-same job now paid paid_at quiet)
    | inr final ↦
        quiet-same (apply_lapses job now paid paid_at) now paid paid_at
          (unwatched-IsQuiet (apply_lapses job now paid paid_at) now paid paid_at final)
  ]

-- Tests that only turn true, and of which at most one is true later, pick the same status later.
chain-later :
    (b₁ b₂ b₃ b₄ c₁ c₂ c₃ c₄ : Bool) (job : Job) (now later : Instant)
    → (b₁ ≡ true → c₁ ≡ true)
    → (b₂ ≡ true → (c₁ ≡ false) × (c₂ ≡ true))
    → (b₃ ≡ true → (c₁ ≡ false) × (c₂ ≡ false) × (c₃ ≡ true))
    → (b₄ ≡ true → (c₁ ≡ false) × (c₂ ≡ false) × (c₃ ≡ false) × (c₄ ≡ true))
    → (is_watched job.status ≡ true)
    → is_watched (chain_of b₁ b₂ b₃ b₄ job now).status ≡ false
    → (chain_of b₁ b₂ b₃ b₄ job now).status ≡ (chain_of c₁ c₂ c₃ c₄ job later).status
chain-later true b₂ b₃ b₄ c₁ c₂ c₃ c₄ job now later h₁ h₂ h₃ h₄ w f = rw (h₁ refl)
chain-later false true b₃ b₄ c₁ c₂ c₃ c₄ job now later h₁ h₂ h₃ h₄ w f =
    rw ((h₂ refl).0, (h₂ refl).1)
chain-later false false true b₄ c₁ c₂ c₃ c₄ job now later h₁ h₂ h₃ h₄ w f =
    rw ((h₃ refl).0, (h₃ refl).1, (h₃ refl).2)
chain-later false false false true c₁ c₂ c₃ c₄ job now later h₁ h₂ h₃ h₄ w f =
    rw ((h₄ refl).0, (h₄ refl).1, (h₄ refl).2, (h₄ refl).3)
chain-later false false false false c₁ c₂ c₃ c₄ job now later h₁ h₂ h₃ h₄ w f = cc

-- Which tests can be true together with one.
module _ (job : Job) (now : Instant) (paid : Bool) (paid_at : Option Instant) where
  unpaid-alone : goes_unpaid job now (paid || is_some paid_at) ≡ true → expires job now ≡ false
  unfolding goes_unpaid expires
  unpaid-alone h = ground arith

  undelivered-alone :
      goes_undelivered job now paid_at ≡ true
      → (expires job now ≡ false) × (goes_unpaid job now (paid || is_some paid_at) ≡ false)
  unfolding goes_unpaid expires goes_undelivered
  undelivered-alone h = ground arith

  deem-alone :
      deem_window_has_passed job now ≡ true
      → (expires job now ≡ false)
        × (goes_unpaid job now (paid || is_some paid_at) ≡ false)
        × (goes_undelivered job now paid_at ≡ false)
  unfolding goes_unpaid expires goes_undelivered deem_window_has_passed
  deem-alone h = ground arith

abbrev status_of : Job → JobStatus
status_of job = job.status

watched : (job : Job) → (is_watched job.status ≡ true) ⊎ (is_watched job.status ≡ false)
watched job = Bool-cases (is_watched job.status)

module _ (job : Job) (now later : Instant) (paid : Bool) (paid_at : Option Instant) where
  fired_status :
      now ≤ later
      → is_watched job.status ≡ true
      → is_watched (lapse_chain job now paid paid_at).status ≡ false
      → (lapse_chain job now paid paid_at).status ≡ (lapse_chain job later paid paid_at).status
  fired_status le w f =
      chain-later _ _ _ _ _ _ _ _ job now later (expires-later job now later le)
        (λ h.
          let h' = goes_unpaid-later job now later _ le h in
          (unpaid-alone job later paid paid_at h', h'))
        (λ h.
          let h' = goes_undelivered-later job now later paid_at le h in
          let alone = undelivered-alone job later paid paid_at h' in (alone.0, alone.1, h'))
        (λ h.
          let h' = deem-later job now later le h in
          let alone = deem-alone job later paid paid_at h' in (alone.0, alone.1, alone.2, h'))
        w f

  -- The status at an instant does not depend on whether somebody read the job earlier.
  pub apply_lapses-reader :
      now ≤ later
      → (apply_lapses (apply_lapses job now paid paid_at) later paid paid_at).status
        ≡ (apply_lapses job later paid paid_at).status
  apply_lapses-reader le = elim (answer job now paid paid_at) [
    | inl quiet ↦
        ap (λ j. (apply_lapses j later paid paid_at).status) (quiet-same job now paid paid_at quiet)
    | inr final ↦ elim (watched job) [
      | inl w ↦
          ap status_of (
            quiet-same (apply_lapses job now paid paid_at) later paid paid_at
              (unwatched-IsQuiet (apply_lapses job now paid paid_at) later paid paid_at final))
          ∙ ap status_of (apply_lapses-chain job now paid paid_at)
          ∙ fired_status le w (rw (apply_lapses-chain job now paid paid_at) at final)
          ∙ ap status_of (sym (apply_lapses-chain job later paid paid_at))
      | inr u ↦
          ap (λ j. (apply_lapses j later paid paid_at).status)
            (quiet-same job now paid paid_at (unwatched-IsQuiet job now paid paid_at u))
    ]
  ]
