-- ===== src/Job/Confirm.antt =====
-- When `confirmSpec` succeeds.
use freeagents.Base.{
  is_some, count, ◌≡◌, refl, ◌≢◌, true, none, List, [], ◌∷◌, arith, ok, ◌>>◌, >>=-eq-ok, ◌↔◌,
  Option, some,
}
use freeagents.Job.Status.{proposed, confirmed}
use freeagents.Job.Model.{Criterion, Job, Instant, Rail}
use freeagents.Job.Agreement.{is_outstanding, agreement_gap, spec_text, confirm_gate, confirm_spec}
use freeagents.Base.Text.{Text}
use freeagents.Job.Hashing.{hash_spec}
use freeagents.Job.Edges.{validate-eq-ok, validate-edge, proposed_confirmed}
use freeagents.Job.Guards.{confirm_gate-eq, confirmed_source}

abbrev pub All {ℓ κ} : {A : Type ℓ} → (A → Type κ) → List A → Type κ
All P [] = Unit
All P (x ∷ xs) = P x × All P xs

abbrev pub IsAcceptedLine : Criterion → Type 0
IsAcceptedLine c = (c.accepted_by_buyer ≡ true) × (c.accepted_by_agent ≡ true)

-- What both parties must have agreed to: one line at least, every line, a price, and a rail.
pub record IsReady (job : Job) : Type 0 where
  pub exchanged : job.status ≡ proposed
  pub some_line : job.criteria ≢ []
  pub lines : All IsAcceptedLine job.criteria
  pub priced : is_some job.price_usd ≡ true
  pub railed : is_some job.rail ≡ true
  pub by_buyer : job.price_accepted_by_buyer ≡ true
  pub by_agent : job.price_accepted_by_agent ≡ true

pub count-All : (cs : List Criterion) → count is_outstanding cs ≡ 0 → All IsAcceptedLine cs
count-All [] h = tt
count-All (c ∷ cs) h = ground (arith, count-All cs)

All-count : (cs : List Criterion) → All IsAcceptedLine cs → count is_outstanding cs ≡ 0
All-count [] h = refl
All-count (c ∷ cs) h = ground (arith, All-count cs h.1)

gap-IsReady :
    (job : Job)
    → job.status ≡ proposed
    → agreement_gap job ≡ none
    → is_some job.rail ≡ true
    → IsReady job
unfolding agreement_gap
gap-IsReady job e gap rail = ground (arith, count-All job.criteria)

IsReady-gap : (job : Job) → IsReady job → agreement_gap job ≡ none
unfolding agreement_gap
IsReady-gap job r = ground (arith, All-count job.criteria r.lines)

-- `confirmSpec` answers a confirmed job exactly if the job is in the exchange with at least one
-- line, every line and the price accepted by both parties, and a rail set; it throws otherwise.
pub confirm_spec_iff :
    (sha : Text → Text) (job : Job) (now : Instant)
    → IsReady job ↔ (
        confirm_spec sha job now
        ≡ ok (record job {
          status = confirmed;
          confirmed_spec_hash = some (hash_spec sha (spec_text job));
          confirmed_at = some now;
        }))
unfolding confirm_spec
confirm_spec_iff sha job now = (
  (λ r.
      rw (r.exchanged, validate-edge proposed_confirmed, IsReady-gap job r)
        (rail_set job.rail r.railed)),
  (λ h. confirmed_ready h),
)
  where
    rail_set :
        (rail : Option Rail) {j : Job}
        → is_some rail ≡ true
        → (confirm_gate none rail >> ok j) ≡ ok j
    rail_set none e = cc
    rail_set (some r) e = refl

    confirmed_ready : {b : Job} → confirm_spec sha job now ≡ ok b → IsReady job
    confirmed_ready h =
        let (edge, h₁) = validate-eq-ok job.status confirmed _ h in
        let (u, eu, e) = >>=-eq-ok (confirm_gate (agreement_gap job) job.rail) _ h₁ in
        let (gap, railed) = confirm_gate-eq (agreement_gap job) job.rail eu in
        gap-IsReady job (confirmed_source edge) gap railed
