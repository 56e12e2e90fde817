-- ===== src/Conduct/Operator.antt =====
-- An operator's record of `src/domain/buyer-conduct.ts`.
use freeagents.Base.{ℕ, ◌||◌, List, [], ◌∷◌, Option, is_some}
use freeagents.Base.Text.{Text, codes, text_eq}
use freeagents.Job.Model.{Instant}
use freeagents.Conduct.Buyer.{add_if}

pub record OperatorJobFacts : Type 0 where
  pub status : Text
  pub redo_refused_at : Option Instant

pub record OperatorConduct : Type 0 where
  pub delivered_never_paid : ℕ
  pub redos_refused : ℕ
  pub walked_after_deposit : ℕ
  pub paid_never_delivered : ℕ

abbrev pub operator_row : OperatorConduct → OperatorJobFacts → OperatorConduct
operator_row c job = record {
  delivered_never_paid =
      add_if
        (text_eq job.status (codes "staged_declined") || text_eq job.status (codes "closed_unpaid"))
        c.delivered_never_paid;
  redos_refused = add_if (is_some job.redo_refused_at) c.redos_refused;
  walked_after_deposit =
      add_if (text_eq job.status (codes "expired_unstaged")) c.walked_after_deposit;
  paid_never_delivered =
      add_if (text_eq job.status (codes "paid_undelivered")) c.paid_never_delivered;
}

-- the loop over the rows
unfoldable pub operator_tally : OperatorConduct → List OperatorJobFacts → OperatorConduct
operator_tally c [] = c
operator_tally c (job ∷ jobs) = operator_tally (operator_row c job) jobs

unfoldable pub operator_conduct_record : List OperatorJobFacts → OperatorConduct
unfolding operator_tally
operator_conduct_record jobs =
    operator_tally
      (record {
        delivered_never_paid = 0;
        redos_refused = 0;
        walked_after_deposit = 0;
        paid_never_delivered = 0;
      })
      jobs
