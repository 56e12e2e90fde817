-- ===== src/Conduct/Chairs.antt =====
-- The two records of `src/domain/buyer-conduct.ts` over the same jobs.
use freeagents.Base.{ℕ, ◌+◌, ◌||◌, List, [], ◌∷◌, map, ◌≡◌, refl, sym, arith, Bool-cases, inl, inr}
use mathlib.Core.Path.{subst}
use freeagents.Base.Text.{Text, codes, text_eq, text_eq_iff}
use freeagents.Job.Status.{status_text}
use freeagents.Job.Model.{Job}
use freeagents.Conduct.Buyer.{BuyerConduct, add_if, tally_row, tally, no_rows, buyer_conduct_record}
use freeagents.Conduct.Operator.{
  OperatorJobFacts, OperatorConduct, operator_row, operator_tally, operator_conduct_record,
}
use freeagents.Conduct.History.{facts_of}

-- a stored job as a row of the operator's record
abbrev pub operator_facts_of : Job → OperatorJobFacts
operator_facts_of job = record {
  status = status_text job.status;
  redo_refused_at = job.redo_refused_at;
}

add_if-either :
    (s : Text) (m n : ℕ)
    → add_if (text_eq s (codes "staged_declined") || text_eq s (codes "closed_unpaid")) (m + n)
      ≡ add_if (text_eq s (codes "staged_declined")) m
        + add_if (text_eq s (codes "closed_unpaid")) n
add_if-either s m n = elim (Bool-cases (text_eq s (codes "staged_declined"))) [
  | inl e ↦
      subst
        (λ t.
          add_if (text_eq t (codes "staged_declined") || text_eq t (codes "closed_unpaid")) (m + n)
          ≡ add_if (text_eq t (codes "staged_declined")) m
            + add_if (text_eq t (codes "closed_unpaid")) n)
        (sym ((text_eq_iff s (codes "staged_declined")).0 e)) (omega arith)
  | inr e ↦ rw e (ground arith)
]

operator_tally-walked :
    (c : OperatorConduct) (d : BuyerConduct) (jobs : List Job)
    → c.delivered_never_paid ≡ d.staged_declined + d.closed_unpaid
    → (operator_tally c (map operator_facts_of jobs)).delivered_never_paid
      ≡ (tally d (map facts_of jobs)).staged_declined + (tally d (map facts_of jobs)).closed_unpaid
unfolding operator_tally tally
operator_tally-walked c d [] h = h
operator_tally-walked c d (job ∷ jobs) h =
    operator_tally-walked (operator_row c (operator_facts_of job)) (tally_row d (facts_of job)) jobs
      (rw h (add_if-either (status_text job.status) d.staged_declined d.closed_unpaid))

-- Of the same jobs, the figure that an operator's record shows as delivered and never paid is the
-- one that a buyer's record shows as walked away.
pub delivered_never_paid_lem :
    (jobs : List Job)
    → (operator_conduct_record (map operator_facts_of jobs)).delivered_never_paid
      ≡ (buyer_conduct_record (map facts_of jobs)).walked_away
unfolding operator_conduct_record buyer_conduct_record
delivered_never_paid_lem jobs = operator_tally-walked _ no_rows jobs refl
