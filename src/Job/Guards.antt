-- ===== src/Job/Guards.antt =====
-- What a guard of `src/domain/job.ts` that lets a call through says.

use freeagents.Base.{is_some, ok, ℕ, ◌<◌, ◌≡◌, refl, ◌⊎◌, inl, inr, true, Option, none, some, arith}
use freeagents.Job.Status.{JobStatus, draft, proposed, confirmed, redo_requested}
use freeagents.Job.Model.{Rail, JobFault, validate}
use freeagents.Job.Agreement.{
  AgreementGap, no_criteria, no_price, criteria_outstanding, price_unaccepted, confirm_gate,
}
use freeagents.Job.Exchange.{proposal_status, in_range, only_proposed}
use freeagents.Job.Lifecycle.{only_confirmed, only_redo_requested}
use freeagents.Job.Edges.{◌⟶◌, proposed_confirmed}
use freeagents.Base.Number.{Number, whole, below, other}

pub in_range-lt : (index : Number) (n : ℕ) {i : ℕ} → in_range index n ≡ ok i → i < n
in_range-lt (whole k) n h = ground arith
in_range-lt (below k) n h = cc
in_range-lt other n h = cc

pub only_proposed-eq :
    (s : JobStatus) (e : JobFault) {u : Unit {0}} → only_proposed s e ≡ ok u → s ≡ proposed
only_proposed-eq proposed e h = refl
only_proposed-eq _ e h = cc

pub only_confirmed-eq :
    (s : JobStatus) (e : JobFault) {u : Unit {0}} → only_confirmed s e ≡ ok u → s ≡ confirmed
only_confirmed-eq confirmed e h = refl
only_confirmed-eq _ e h = cc

pub only_redo_requested-eq :
    (s : JobStatus) (e : JobFault) {u : Unit {0}}
    → only_redo_requested s e ≡ ok u
    → s ≡ redo_requested
only_redo_requested-eq redo_requested e h = refl
only_redo_requested-eq _ e h = cc

pub proposal_status-eq :
    (s : JobStatus) {t : JobStatus}
    → proposal_status s ≡ ok t
    → ((s ≡ draft) ⊎ (s ≡ proposed)) × (t ≡ proposed)
unfolding validate
proposal_status-eq draft h = (inl refl, ground arith)
proposal_status-eq proposed h = (inr refl, ground arith)
proposal_status-eq _ h = cc

pub confirm_gate-eq :
    (gap : Option AgreementGap) (rail : Option Rail) {u : Unit {0}}
    → confirm_gate gap rail ≡ ok u
    → (gap ≡ none) × (is_some rail ≡ true)
confirm_gate-eq none none h = cc
confirm_gate-eq none (some r) h = (refl, refl)
confirm_gate-eq (some no_criteria) r h = cc
confirm_gate-eq (some no_price) r h = cc
confirm_gate-eq (some (criteria_outstanding k n)) r h = cc
confirm_gate-eq (some (price_unaccepted p)) none h = cc
confirm_gate-eq (some (price_unaccepted p)) (some r) h = cc

pub confirmed_source : {s : JobStatus} → s ⟶ confirmed → s ≡ proposed
confirmed_source proposed_confirmed = refl
