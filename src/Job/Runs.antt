-- ===== src/Job/Runs.antt =====
-- What holds after any calls whatever on a job that `createJob` made.
use freeagents.Base.{
  Bool-cases, Result, ok, err, Result-cases, ok-injective, ◌≡◌, refl, sym, inl, inr, false, List,
  [], ◌∷◌, arith,
}
use freeagents.Base.Text.{Text}
use freeagents.Job.Model.{Instant, Job, no_brief, JobFault, job_error}
use freeagents.Job.Event.{Event, perform, keep_on_error, run}
use freeagents.Job.Invariant.Agreed.{IsAgreed, Step-IsAgreed}
use freeagents.Job.Step.{Step, idle}
use freeagents.Job.Agreement.{create_job, JobInput, opened, is_blank}
use freeagents.Job.Invariant.Redo.{IsRedoSound, Step-IsRedoSound}
use freeagents.Job.Perform.{perform-Step}
use freeagents.Job.Invariant.Outcome.{IsOutcomeSound, Step-IsOutcomeSound}
use freeagents.Job.Hashing.{hash_spec}

pub record IsSound (sha : Text → Text) (job : Job) : Type 0 where
  pub agreement : IsAgreed sha job
  pub redo : IsRedoSound job
  pub outcome : IsOutcomeSound job

pub opened-IsSound :
    (sha : Text → Text) (hash : Text) (input : JobInput) (now : Instant)
    → IsSound sha (opened hash input now)
opened-IsSound sha hash input now = record {
  agreement = record {
    agreed = λ c. cc;
    railed = λ c. cc;
    pinned = λ c. cc;
    paired = refl;
    dated = λ c. cc;
    fresh = λ _. refl;
  };
  redo = ground arith;
  outcome = ground arith;
}

pub create_job-eq-ok :
    (sha : Text → Text) (input : JobInput) (now : Instant) {job : Job}
    → create_job sha input now ≡ ok job
    → (job ≡ opened (hash_spec sha input.brief) input now) × (is_blank input.brief ≡ false)
unfolding create_job
create_job-eq-ok sha input now h = elim (Bool-cases (is_blank input.brief)) [
  | inl e ↦ absurd (blank_refused (rw e at h))
  | inr e ↦ (sym (ok-injective JobFault (rw e at h)), e)
]
  where
    blank_refused : {j : Job} → ◌≡◌ {A = Result JobFault Job} (err (job_error no_brief)) (ok j) → ⊥
    blank_refused k = cc

pub Step-IsSound :
    (sha : Text → Text) {job job' : Job} → Step sha job job' → IsSound sha job → IsSound sha job'
Step-IsSound sha s h = record {
  agreement = Step-IsAgreed sha s h.agreement;
  redo = Step-IsRedoSound sha s h.redo;
  outcome = Step-IsOutcomeSound sha s h.outcome;
}

-- One call, refused or not.
pub call-Step :
    (sha : Text → Text) (e : Event) (job : Job)
    → Step sha job (keep_on_error job (perform sha e job))
call-Step sha e job = elim (Result-cases (perform sha e job)) [
  | inl (job', p) ↦ rw p (perform-Step sha e job p)
  | inr (fault, p) ↦ rw p idle
]

-- A property that every step keeps holds after any calls.
pub run_invariant {ℓ} :
    (P : Job → Type ℓ) (sha : Text → Text)
    → ((a b : Job) → Step sha a b → P a → P b)
    → (es : List Event) (job : Job) → P job
    → P (run sha es job)
unfolding run
run_invariant P sha keep [] job h = h
run_invariant P sha keep (e ∷ es) job h =
    let next = keep_on_error job (perform sha e job) in
    run_invariant P sha keep es next (keep job next (call-Step sha e job) h)

-- After any calls, a job that `createJob` made is sound: once confirmed, its terms are accepted
-- by both parties, a rail is set, and the stored digest is the one that its own fields give; at
-- most one redo was used, and the staged deadline is extended by seven days for it; each pair of
-- facts was written together; and a merge, a deemed completion or a cited close is on record
-- exactly in the status of that name.
pub run-IsSound :
    (sha : Text → Text) (input : JobInput) (now : Instant) (es : List Event) {job : Job}
    → create_job sha input now ≡ ok job
    → IsSound sha (run sha es job)
run-IsSound sha input now es {job = job} h =
    run_invariant (IsSound sha) sha (λ a b s k. Step-IsSound sha s k) es job
      (rw (create_job-eq-ok sha input now h).0 (opened-IsSound sha _ input now))
