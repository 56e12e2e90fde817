-- ===== src/Conduct/Examples.antt =====
-- The theorems on `src/domain/buyer-conduct.ts` applied to the rows of one buyer.
use freeagents.Base.{◌≤◌, ◌+◌, ◌≡◌, ◌↔◌, count, none, some, List, [], ◌∷◌, refl, is_some, ◌++◌}
use freeagents.Base.Text.{codes}
use freeagents.Job.Status.{closed_unpaid, staged_declined}
use freeagents.Job.Model.{Job}
use freeagents.Job.Event.{run}
use freeagents.Job.Tests.{plain, input, first_job, agreeing, delivering, opens}
use freeagents.Conduct.Buyer.{
  BuyerJobFacts, BuyerConductThresholds, no_rows, was_confirmed, buyer_conduct_record,
  buyer_conduct_threshold_failure,
}
use freeagents.Conduct.Counts.{Counts, has_status, buyer_conduct_record_lem}
use freeagents.Conduct.Outcomes.{outcomes, buyer_conduct_record-outcomes}
use freeagents.Conduct.Thresholds.{MeetsMerges, MeetsWalked, buyer_conduct_threshold_failure_iff}
use freeagents.Conduct.History.{facts_of, was_confirmed-run}

abbrev rows : List BuyerJobFacts
rows =
    record { status = codes "completed"; confirmed_at = some 5; redo_requested_at = some 9 }
    ∷ record { status = codes "withdrawn"; confirmed_at = none; redo_requested_at = none }
    ∷ record { status = codes "closed_unpaid"; confirmed_at = some 7; redo_requested_at = none }
    ∷ record { status = codes "withdrawn"; confirmed_at = some 8; redo_requested_at = none }
    ∷ []

merged_test : (buyer_conduct_record rows).merged ≡ 1
unfolding buyer_conduct_record
merged_test = refl

walked_test : (buyer_conduct_record rows).walked_after_confirm ≡ 1
unfolding buyer_conduct_record was_confirmed
walked_test = refl

buyer_conduct_record_lem_example :
    Counts rows no_rows (buyer_conduct_record rows)
    × ((buyer_conduct_record rows).walked_away
        ≡ count (has_status (codes "staged_declined")) rows
          + count (has_status (codes "closed_unpaid")) rows)
buyer_conduct_record_lem_example = buyer_conduct_record_lem rows

buyer_conduct_record-outcomes_example :
    outcomes (buyer_conduct_record rows) ≤ (buyer_conduct_record rows).confirmed
buyer_conduct_record-outcomes_example = buyer_conduct_record-outcomes rows

abbrev thresholds : BuyerConductThresholds
thresholds = record { min_buyer_merges = some 1; max_walked_after_confirm = some 0 }

buyer_conduct_threshold_failure_iff_example :
    (buyer_conduct_threshold_failure (some (buyer_conduct_record rows)) thresholds ≡ none) ↔ (
      MeetsMerges (some (buyer_conduct_record rows)) (some 1)
      × MeetsWalked (some (buyer_conduct_record rows)) (some 0))
buyer_conduct_threshold_failure_iff_example =
    buyer_conduct_threshold_failure_iff (some (buyer_conduct_record rows)) thresholds

was_confirmed-run_example :
    was_confirmed (facts_of (run plain (agreeing ++ delivering) first_job))
    ≡ is_some (run plain (agreeing ++ delivering) first_job).confirmed_at
was_confirmed-run_example = was_confirmed-run plain input 0 (agreeing ++ delivering) opens

abbrev jobs : List Job
jobs =
    record first_job { status = closed_unpaid }
    ∷ first_job
    ∷ record first_job { status = staged_declined }
    ∷ []
