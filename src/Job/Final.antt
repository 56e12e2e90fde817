-- ===== src/Job/Final.antt =====
-- Statuses along a run: the way of a job is a path of the table, and a final status is final.
use freeagents.Base.{◌≡◌, refl, sym, ◌↔◌, ◌⊎◌, inl, inr, true, false, List, [], ◌∷◌, ap, ◌∙◌, none}
use freeagents.Base.Text.{Text}
use freeagents.Job.Status.{
  JobStatus, draft, proposed, confirmed, staged, redo_requested, submitted, completed, stale,
  is_terminal,
}
use freeagents.Job.Model.{buyer, agent, Job}
use freeagents.Job.Event.{Event, perform, keep_on_error, run}
use freeagents.Job.Edges.{
  ◌⟶◌, draft_proposed, proposed_confirmed, confirmed_staged, staged_submitted, redo_staged,
  submitted_completed, stale_completed, submitted_deemed,
}
use freeagents.Job.Runs.{call-Step, run_invariant}
use freeagents.Job.Lifecycle.{attach_staging_repository}
use freeagents.Job.Step.{
  Step, proposes, accepts, accepts_price, confirms, attaches, follows, stages, asks_redo,
  refuses_redo, submits, cites, completes, deems, moves, idle,
}
use freeagents.Job.Lapses.{deem-status}

infix 40 ◌⟶*◌
pub data ◌⟶*◌ : JobStatus → JobStatus → Type 0 where
  here : {s : JobStatus} → s ⟶* s
  then : {s t u : JobStatus} → s ⟶ t → t ⟶* u → s ⟶* u

-- A step keeps the status or follows one edge.
pub Step-⟶ :
    (sha : Text → Text) {job job' : Job}
    → Step sha job job'
    → (job'.status ≡ job.status) ⊎ (job.status ⟶ job'.status)
unfolding attach_staging_repository
Step-⟶ sha idle = inl refl
Step-⟶ sha (proposes input price lines fields (inl e) el ef) = inr (rw e draft_proposed)
Step-⟶ sha (proposes input price lines fields (inr e) el ef) = inl (sym e)
Step-⟶ sha (accepts i party m e lt) = inl refl
Step-⟶ sha (accepts_price buyer m e priced) = inl refl
Step-⟶ sha (accepts_price agent m e priced) = inl refl
Step-⟶ sha (confirms now e gap railed) = inr (rw e proposed_confirmed)
Step-⟶ sha (attaches staging base) = inl refl
Step-⟶ sha (follows name e) = inl refl
Step-⟶ sha (stages commit now edge) = inr edge
Step-⟶ sha (asks_redo i now edge lt room) = inr edge
Step-⟶ sha (refuses_redo now e) = inr (rw e redo_staged)
Step-⟶ sha (submits url now edge) = inr edge
Step-⟶ sha (cites i reason now edge lt prose) = inr edge
Step-⟶ sha (completes commit time edge) = inr edge
Step-⟶ sha (deems now past) = inr (rw (deem-status _ now past) submitted_deemed)
Step-⟶ sha (moves to edge only) = inr edge

-- The status after any calls lies on a path of the transition table from the status before.
pub run-⟶* :
    (sha : Text → Text) (es : List Event) (job : Job) → job.status ⟶* (run sha es job).status
unfolding run
run-⟶* sha [] job = here
run-⟶* sha (e ∷ es) job =
    let next = keep_on_error job (perform sha e job) in
    elim (Step-⟶ sha (call-Step sha e job)) [
      | inl same ↦ rw same at (run-⟶* sha es next)
      | inr edge ↦ then edge (run-⟶* sha es next)
    ]

-- No edge leaves a final status.
pub edge-not_terminal : {s t : JobStatus} → s ⟶ t → is_terminal s ≡ false
unfolding is_terminal
edge-not_terminal draft_proposed = refl
edge-not_terminal _ = refl

-- A status is final exactly if the table has no edge out of it.
pub terminal_iff : (s : JobStatus) → (is_terminal s ≡ true) ↔ ((t : JobStatus) → ¬ (s ⟶ t))
unfolding is_terminal
terminal_iff draft = ((λ h. cc), (λ h. absurd (h proposed draft_proposed)))
terminal_iff proposed = ((λ h. cc), (λ h. absurd (h confirmed proposed_confirmed)))
terminal_iff confirmed = ((λ h. cc), (λ h. absurd (h staged confirmed_staged)))
terminal_iff staged = ((λ h. cc), (λ h. absurd (h submitted staged_submitted)))
terminal_iff redo_requested = ((λ h. cc), (λ h. absurd (h staged redo_staged)))
terminal_iff submitted = ((λ h. cc), (λ h. absurd (h completed submitted_completed)))
terminal_iff stale = ((λ h. cc), (λ h. absurd (h completed stale_completed)))
terminal_iff _ = ((λ h t e. let live = edge-not_terminal e in cc), (λ _. refl))

-- a job without what the confirm route attaches: the staging repository and its base commit
abbrev pub without_staging : Job → Job
without_staging job = record job { staging_repo = none; base_commit = none }

stuck : {s t : JobStatus} → is_terminal s ≡ true → s ⟶ t → ⊥
stuck h edge = let live = edge-not_terminal edge in cc

not_open : {s : JobStatus} → is_terminal s ≡ true → (s ≡ draft) ⊎ (s ≡ proposed) → ⊥
unfolding is_terminal
not_open h (inl e) = cc (rw e at h)
not_open h (inr e) = cc (rw e at h)

-- In a final status a call changes nothing, unless it attaches a staging repository.
pub Step-final :
    (sha : Text → Text) {job job' : Job}
    → Step sha job job'
    → is_terminal job.status ≡ true
    → without_staging job' ≡ without_staging job
unfolding attach_staging_repository
Step-final sha idle h = refl
Step-final sha (proposes input price lines fields e el ef) h = absurd (not_open h e)
Step-final sha (accepts i party m e lt) h = absurd (not_open h (inr e))
Step-final sha (accepts_price party m e priced) h = absurd (not_open h (inr e))
Step-final sha (confirms now e gap railed) h = absurd (not_open h (inr e))
Step-final sha (attaches staging base) h = refl
Step-final sha (follows name e) h = absurd (stuck (rw e at h) confirmed_staged)
Step-final sha (stages commit now edge) h = absurd (stuck h edge)
Step-final sha (asks_redo i now edge lt room) h = absurd (stuck h edge)
Step-final sha (refuses_redo now e) h = absurd (stuck (rw e at h) redo_staged)
Step-final sha (submits url now edge) h = absurd (stuck h edge)
Step-final sha (cites i reason now edge lt prose) h = absurd (stuck h edge)
Step-final sha (completes commit time edge) h = absurd (stuck h edge)
Step-final sha (deems now past) h =
    absurd (stuck (rw (deem-status _ now past) at h) submitted_deemed)
Step-final sha (moves to edge only) h = absurd (stuck h edge)

-- A final status is final: whatever is called afterwards, every field of the job stays as it was,
-- but for the two that say where a staging repository is.
pub run_final :
    (sha : Text → Text) (es : List Event) (job : Job)
    → is_terminal job.status ≡ true
    → without_staging (run sha es job) ≡ without_staging job
run_final sha es job h =
    (run_invariant (λ b. (is_terminal b.status ≡ true) × (without_staging b ≡ without_staging job))
      sha
      (λ a b s k. let e = Step-final sha s k.0 in (rw (ap (λ (j : Job). j.status) e) k.0, e ∙ k.1))
      es job (h, refl)).1
