-- ===== src/Job/Invariant/Agreed.antt =====
-- The agreement of a confirmed job.
use freeagents.Base.{is_some, ◌≡◌, ◌⊎◌, inl, inr, Bool, true, false, none, some, refl}
use freeagents.Base.Text.{Text}
use freeagents.Job.Status.{
  JobStatus, draft, proposed, confirmed, declined, withdrawn, staged, redo_requested, submitted,
  completed, deemed_completed, cited_closed,
}
use freeagents.Job.Model.{Job, buyer, agent}
use freeagents.Job.Hashing.{hash_spec}
use freeagents.Job.Agreement.{agreement_gap, spec_text}
use freeagents.Job.Edges.{
  ◌⟶◌, draft_proposed, draft_declined, draft_withdrawn, proposed_confirmed, proposed_declined,
  proposed_withdrawn, redo_staged, submitted_deemed,
}
use freeagents.Job.Lifecycle.{attach_staging_repository}
use freeagents.Job.Step.{
  is_status_only, Step, idle, proposes, accepts, accepts_price, confirms, attaches, follows, stages,
  asks_redo, refuses_redo, submits, cites, completes, deems, moves,
}
use freeagents.Job.Lapses.{deem-status}

-- still open for negotiation
abbrev pub is_open : JobStatus → Bool
is_open draft = true
is_open proposed = true
is_open s = false

-- `confirmed`, and every status that only a confirmed job can reach
abbrev pub is_past_confirm : JobStatus → Bool
is_past_confirm draft = false
is_past_confirm proposed = false
is_past_confirm declined = false
is_past_confirm withdrawn = false
is_past_confirm s = true

pub record IsAgreed (sha : Text → Text) (job : Job) : Type 0 where
  -- the terms are complete and accepted by both parties
  pub agreed : is_some job.confirmed_at ≡ true → agreement_gap job ≡ none
  pub railed : is_some job.confirmed_at ≡ true → is_some job.rail ≡ true
  -- the stored digest is the one that the job's own fields give
  pub pinned :
      is_some job.confirmed_at ≡ true
      → job.confirmed_spec_hash ≡ some (hash_spec sha (spec_text job))
  pub paired : is_some job.confirmed_spec_hash ≡ is_some job.confirmed_at
  pub dated : is_past_confirm job.status ≡ true → is_some job.confirmed_at ≡ true
  pub fresh : is_open job.status ≡ true → is_some job.confirmed_at ≡ false

open_status : {s : JobStatus} → (s ≡ draft) ⊎ (s ≡ proposed) → is_open s ≡ true
open_status (inl e) = rw e
open_status (inr e) = rw e

-- the edges but the two that open and close the negotiation
abbrev is_later : JobStatus → Bool
is_later proposed = false
is_later confirmed = false
is_later s = true

edge-past :
    {s t : JobStatus}
    → s ⟶ t
    → is_later t ≡ true
    → is_past_confirm t ≡ true
    → is_past_confirm s ≡ true
edge-past proposed_confirmed l p = cc
edge-past draft_proposed l p = cc
edge-past draft_declined l p = cc
edge-past draft_withdrawn l p = cc
edge-past proposed_declined l p = cc
edge-past proposed_withdrawn l p = cc
edge-past _ l p = refl

edge-closed : {s t : JobStatus} → s ⟶ t → is_later t ≡ true → is_open t ≡ false
edge-closed draft_proposed l = cc
edge-closed proposed_confirmed l = cc
edge-closed _ l = refl

open_not_past : (s : JobStatus) → is_open s ≡ true → is_past_confirm s ≡ true → ⊥
open_not_past draft o p = cc
open_not_past proposed o p = cc
open_not_past _ o p = cc

status_only_later : (s : JobStatus) → is_status_only s ≡ true → is_later s ≡ true
status_only_later proposed o = cc
status_only_later confirmed o = cc
status_only_later _ o = refl

module _ (sha : Text → Text) {job : Job} (h : IsAgreed sha job) where
  -- Terms are written while the job is open, when nothing is pinned yet.
  unpinned :
      (job' : Job)
      → is_open job.status ≡ true
      → job'.confirmed_at ≡ job.confirmed_at
      → job'.confirmed_spec_hash ≡ job.confirmed_spec_hash
      → is_open job'.status ≡ true
      → IsAgreed sha job'
  unpinned job' before time hash after =
      let none_yet : is_some job'.confirmed_at ≡ false = rw time (h.fresh before) in
      record {
        agreed = λ c. cc;
        railed = λ c. cc;
        pinned = λ c. cc;
        paired = rw (time, hash) h.paired;
        dated = λ p. absurd (open_not_past job'.status after p);
        fresh = λ _. none_yet;
      }

  -- A step that leaves the terms and what is pinned alone.
  kept :
      (job' : Job)
      → agreement_gap job' ≡ agreement_gap job
      → spec_text job' ≡ spec_text job
      → job'.rail ≡ job.rail
      → job'.confirmed_at ≡ job.confirmed_at
      → job'.confirmed_spec_hash ≡ job.confirmed_spec_hash
      → (is_past_confirm job'.status ≡ true → is_past_confirm job.status ≡ true)
      → (is_open job'.status ≡ true → is_open job.status ≡ true)
      → IsAgreed sha job'
  kept job' gap text rail time hash past opens = record {
    agreed = λ c. rw gap (h.agreed (rw (← time) c));
    railed = λ c. rw rail (h.railed (rw (← time) c));
    pinned = λ c. rw (text, hash) (h.pinned (rw (← time) c));
    paired = rw (time, hash) h.paired;
    dated = λ p. rw time (h.dated (past p));
    fresh = λ p. rw time (h.fresh (opens p));
  }

  moved :
      (to : JobStatus) (job' : Job)
      → job.status ⟶ to
      → is_later to ≡ true
      → job'.status ≡ to
      → agreement_gap job' ≡ agreement_gap job
      → spec_text job' ≡ spec_text job
      → job'.rail ≡ job.rail
      → job'.confirmed_at ≡ job.confirmed_at
      → job'.confirmed_spec_hash ≡ job.confirmed_spec_hash
      → IsAgreed sha job'
  moved to job' edge later status gap text rail time hash =
      kept job' gap text rail time hash (λ p. edge-past edge later (rw status at p))
        (λ p. let closed = edge-closed edge later in cc)

-- Every step keeps the agreement of a confirmed job as it was.
pub Step-IsAgreed :
    (sha : Text → Text) {job job' : Job} → Step sha job job' → IsAgreed sha job → IsAgreed sha job'
unfolding agreement_gap spec_text attach_staging_repository
Step-IsAgreed sha idle h = h
Step-IsAgreed sha (proposes input price lines fields unsettled el ef) h =
    unpinned sha h _ (open_status unsettled) refl refl refl
Step-IsAgreed sha (accepts i party m e lt) h = unpinned sha h _ (rw e) refl refl (rw e)
Step-IsAgreed sha (accepts_price buyer m e priced) h = unpinned sha h _ (rw e) refl refl (rw e)
Step-IsAgreed sha (accepts_price agent m e priced) h = unpinned sha h _ (rw e) refl refl (rw e)
Step-IsAgreed sha (confirms now e gap railed) h = record {
  agreed = λ _. gap;
  railed = λ _. railed;
  pinned = λ _. refl;
  paired = refl;
  dated = λ _. refl;
  fresh = λ o. cc;
}
Step-IsAgreed sha (attaches staging base) h =
    kept sha h _ refl refl refl refl refl (λ p. p) (λ o. o)
Step-IsAgreed sha (follows name e) h = kept sha h _ refl refl refl refl refl (λ p. p) (λ o. o)
Step-IsAgreed sha (stages commit now edge) h =
    moved sha h staged _ edge refl refl refl refl refl refl refl
Step-IsAgreed sha (asks_redo i now edge lt room) h =
    moved sha h redo_requested _ edge refl refl refl refl refl refl refl
Step-IsAgreed sha (refuses_redo now e) h =
    moved sha h staged _ (rw e redo_staged) refl refl refl refl refl refl refl
Step-IsAgreed sha (submits url now edge) h =
    moved sha h submitted _ edge refl refl refl refl refl refl refl
Step-IsAgreed sha (cites i reason now edge lt prose) h =
    moved sha h cited_closed _ edge refl refl refl refl refl refl refl
Step-IsAgreed sha (completes commit time edge) h =
    moved sha h completed _ edge refl refl refl refl refl refl refl
Step-IsAgreed sha (deems now past) h =
    moved sha h deemed_completed _ (rw (deem-status _ now past) submitted_deemed) refl refl refl
      refl refl refl refl
Step-IsAgreed sha (moves to edge only) h =
    moved sha h to _ edge (status_only_later to only) refl refl refl refl refl refl
