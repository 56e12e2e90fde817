-- ===== src/Job/Edges.antt =====
-- The transition table of `validateJobTransition` as a relation.
use freeagents.Base.{ok, ◌≡◌, refl, arith, Result, ◌>>◌, >>=-eq-ok}
use freeagents.Job.Status.{
  JobStatus, draft, proposed, confirmed, staged, redo_requested, submitted, completed, declined,
  closed_unmerged, stale, withdrawn, staged_declined, closed_unpaid, expired_unstaged,
  deemed_completed, cited_closed, paid_undelivered,
}
use freeagents.Job.Model.{validate, JobFault}

-- The edges of the hire loop, one constructor for each.
infix 40 ◌⟶◌
pub data ◌⟶◌ : JobStatus → JobStatus → Type 0 where
  draft_proposed : draft ⟶ proposed
  draft_declined : draft ⟶ declined
  draft_withdrawn : draft ⟶ withdrawn
  proposed_confirmed : proposed ⟶ confirmed
  proposed_declined : proposed ⟶ declined
  proposed_withdrawn : proposed ⟶ withdrawn
  confirmed_staged : confirmed ⟶ staged
  confirmed_expired : confirmed ⟶ expired_unstaged
  confirmed_declined : confirmed ⟶ declined
  confirmed_withdrawn : confirmed ⟶ withdrawn
  staged_submitted : staged ⟶ submitted
  staged_refused : staged ⟶ staged_declined
  staged_unpaid : staged ⟶ closed_unpaid
  staged_redo : staged ⟶ redo_requested
  staged_undelivered : staged ⟶ paid_undelivered
  redo_staged : redo_requested ⟶ staged
  redo_unpaid : redo_requested ⟶ closed_unpaid
  redo_undelivered : redo_requested ⟶ paid_undelivered
  submitted_completed : submitted ⟶ completed
  submitted_deemed : submitted ⟶ deemed_completed
  submitted_stale : submitted ⟶ stale
  submitted_declined : submitted ⟶ declined
  submitted_withdrawn : submitted ⟶ withdrawn
  submitted_cited : submitted ⟶ cited_closed
  stale_completed : stale ⟶ completed
  stale_closed : stale ⟶ closed_unmerged
  stale_declined : stale ⟶ declined
  stale_withdrawn : stale ⟶ withdrawn

-- `validate` accepts the edges.
pub validate-edge : {s t : JobStatus} → s ⟶ t → validate s t ≡ ok t
unfolding validate
validate-edge draft_proposed = refl
validate-edge _ = refl

-- An accepted transition answers its target.
pub validate-target : (s t : JobStatus) {u : JobStatus} → validate s t ≡ ok u → u ≡ t
unfolding validate
validate-target draft t h = ground arith
validate-target _ t h = ground arith

-- Any other pair is refused: the table is the relation.
pub validate-⟶ : (s t : JobStatus) {u : JobStatus} → validate s t ≡ ok u → s ⟶ t
unfolding validate
validate-⟶ draft proposed h = draft_proposed
validate-⟶ draft declined h = draft_declined
validate-⟶ draft withdrawn h = draft_withdrawn
validate-⟶ proposed confirmed h = proposed_confirmed
validate-⟶ proposed declined h = proposed_declined
validate-⟶ proposed withdrawn h = proposed_withdrawn
validate-⟶ confirmed staged h = confirmed_staged
validate-⟶ confirmed expired_unstaged h = confirmed_expired
validate-⟶ confirmed declined h = confirmed_declined
validate-⟶ confirmed withdrawn h = confirmed_withdrawn
validate-⟶ staged submitted h = staged_submitted
validate-⟶ staged staged_declined h = staged_refused
validate-⟶ staged closed_unpaid h = staged_unpaid
validate-⟶ staged redo_requested h = staged_redo
validate-⟶ staged paid_undelivered h = staged_undelivered
validate-⟶ redo_requested staged h = redo_staged
validate-⟶ redo_requested closed_unpaid h = redo_unpaid
validate-⟶ redo_requested paid_undelivered h = redo_undelivered
validate-⟶ submitted completed h = submitted_completed
validate-⟶ submitted deemed_completed h = submitted_deemed
validate-⟶ submitted stale h = submitted_stale
validate-⟶ submitted declined h = submitted_declined
validate-⟶ submitted withdrawn h = submitted_withdrawn
validate-⟶ submitted cited_closed h = submitted_cited
validate-⟶ stale completed h = stale_completed
validate-⟶ stale closed_unmerged h = stale_closed
validate-⟶ stale declined h = stale_declined
validate-⟶ stale withdrawn h = stale_withdrawn
validate-⟶ _ _ h = cc

-- What a successful operation that starts with the table's check went through.
pub validate-eq-ok {ℓ} :
    {A : Type ℓ} (s t : JobStatus) (k : Result JobFault A) {b : A}
    → (validate s t >> k) ≡ ok b
    → (s ⟶ t) × (k ≡ ok b)
validate-eq-ok s t k h =
    let (u, v, e) = >>=-eq-ok (validate s t) (λ _. k) h in (validate-⟶ s t v, e)
