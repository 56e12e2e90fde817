-- ===== src/Job/Unpaid.antt =====
-- When the clocks of `src/domain/job.ts` close a job unpaid.
use freeagents.Base.{
  ltb, is_some, Bool-cases, ◌+◌, ◌*◌, ◌<◌, ◌≡◌, refl, ◌≢◌, ◌↔◌, ◌⊎◌, inl, inr, Bool, true, false,
  ◌||◌, Option, none, some, arith,
}
use freeagents.Job.Model.{Instant, days, Job}
use freeagents.Job.Clocks.{
  lapse_at_staged_after_days, is_lapse_status, expires, goes_unpaid, goes_undelivered,
  deem_window_has_passed, apply_lapses,
}
use freeagents.Job.Lapses.{chain_of, apply_lapses-chain}
use freeagents.Job.Status.{closed_unpaid}
use freeagents.Job.Invariant.Redo.{IsRedoSound}

chain-not_unpaid :
    (b₁ b₃ b₄ : Bool) (job : Job) (now : Instant)
    → job.status ≢ closed_unpaid
    → (chain_of b₁ false b₃ b₄ job now).status ≢ closed_unpaid
chain-not_unpaid true b₃ b₄ job now n e = cc
chain-not_unpaid false true b₄ job now n e = cc
chain-not_unpaid false false true job now n e = cc
chain-not_unpaid false false false job now n e = n e

settled-not_unpaid :
    (job : Job) (now : Instant) (settled : Bool)
    → settled ≡ true
    → goes_unpaid job now settled ≡ false
unfolding goes_unpaid
settled-not_unpaid job now settled h = ground arith

-- Of a job that is not closed unpaid already, the clocks never close it unpaid if the gate says that
-- the remainder settled or if the time of its settlement is known.
pub apply_lapses-paid :
    (job : Job) (now : Instant) (paid : Bool) (paid_at : Option Instant)
    → (paid ≡ true) ⊎ (is_some paid_at ≡ true)
    → job.status ≢ closed_unpaid
    → (apply_lapses job now paid paid_at).status ≢ closed_unpaid
apply_lapses-paid job now paid paid_at h n =
    let quiet = settled-not_unpaid job now (paid || is_some paid_at) (ground arith) in
    rw (apply_lapses-chain job now paid paid_at, quiet) (chain-not_unpaid _ _ _ job now n)

staged_tests :
    (job : Job) (now t : Instant)
    → is_lapse_status job.status ≡ true
    → job.staged_at ≡ some t
    → (expires job now ≡ false)
      × (goes_unpaid job now false
          ≡ ltb (t + days (lapse_at_staged_after_days + job.staged_lapse_extension_days)) now)
      × (goes_undelivered job now none ≡ false)
      × (deem_window_has_passed job now ≡ false)
unfolding expires goes_unpaid goes_undelivered deem_window_has_passed
staged_tests job now t s e = ground arith

closes_iff :
    (job : Job) (deadline now : Instant)
    → is_lapse_status job.status ≡ true
    → ((chain_of false (ltb deadline now) false false job now).status ≡ closed_unpaid)
      ↔ (deadline < now)
closes_iff job deadline now s = elim (Bool-cases (ltb deadline now)) [
  | inl e ↦ rw e ((λ _. ground arith), (λ _. refl))
  | inr e ↦ rw e ((λ h. absurd (ground arith)), (λ lt. absurd (ground arith)))
]

-- Unpaid work that is staged, or whose redo is unanswered, with a time of staging and an extension
-- that fits the redos used, is closed exactly when its deadline is passed: seven days after it was
-- staged, and seven more for a redo that was asked for.
pub apply_lapses-unpaid :
    (job : Job) (now t : Instant)
    → is_lapse_status job.status ≡ true
    → job.staged_at ≡ some t
    → IsRedoSound job
    → ((apply_lapses job now false none).status ≡ closed_unpaid)
      ↔ (t + days (7 + 7 * job.redo_used_count) < now)
apply_lapses-unpaid job now t s e r =
    let (t₁, t₂, t₃, t₄) = staged_tests job now t s e in
    let deadline = t + days (lapse_at_staged_after_days + job.staged_lapse_extension_days) in
    let same : deadline ≡ t + days (7 + 7 * job.redo_used_count) = rw r.extension in
    let (closes, opens) = closes_iff job deadline now s in
    rw (apply_lapses-chain job now false none, t₁, t₂, t₃, t₄)
      ((λ h. rw (← same) (closes h)), (λ lt. opens (rw same lt)))
