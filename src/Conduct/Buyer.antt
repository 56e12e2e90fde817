-- ===== src/Conduct/Buyer.antt =====
-- A buyer's record of `src/domain/buyer-conduct.ts`, counted from the rows, and the listing
-- thresholds. A row's date is read only for whether it is there.
use freeagents.Base.{
  ℕ, ◌+◌, Bool, true, false, ◌&&◌, ◌||◌, List, [], ◌∷◌, Option, none, some, is_some, ltb,
  if◌then◌else◌,
}
use freeagents.Base.Text.{Text, codes, text_eq}
use freeagents.Job.Model.{Instant}

pub record BuyerJobFacts : Type 0 where
  pub status : Text
  pub confirmed_at : Option Instant
  pub redo_requested_at : Option Instant

pub record BuyerConduct : Type 0 where
  pub confirmed : ℕ
  pub walked_after_confirm : ℕ
  pub staged_declined : ℕ
  pub closed_unpaid : ℕ
  pub merged : ℕ
  pub deemed : ℕ
  pub closed_unmerged : ℕ
  pub cited_closes : ℕ
  pub redos_requested : ℕ
  pub walked_away : ℕ

abbrev pub downstream_of_confirmed : List Text
downstream_of_confirmed =
    codes "confirmed"
    ∷ codes "staged"
    ∷ codes "submitted"
    ∷ codes "stale"
    ∷ codes "staged_declined"
    ∷ codes "closed_unpaid"
    ∷ codes "expired_unstaged"
    ∷ codes "deemed_completed"
    ∷ codes "completed"
    ∷ codes "closed_unmerged"
    ∷ codes "cited_closed"
    ∷ codes "paid_undelivered"
    ∷ []

-- `set.has(text)`
abbrev pub has : List Text → Text → Bool
has [] s = false
has (t ∷ ts) s = text_eq s t || has ts s

unfoldable pub was_confirmed : BuyerJobFacts → Bool
was_confirmed job =
    if is_some job.confirmed_at then true else has downstream_of_confirmed job.status

-- `if (test) n += 1`
abbrev pub add_if : Bool → ℕ → ℕ
add_if test n = if test then n + 1 else n

-- The variables of the loop, which become fields of the record; `walked_away` is set behind it.
abbrev pub no_rows : BuyerConduct
no_rows = record {
  confirmed = 0;
  walked_after_confirm = 0;
  staged_declined = 0;
  closed_unpaid = 0;
  merged = 0;
  deemed = 0;
  closed_unmerged = 0;
  cited_closes = 0;
  redos_requested = 0;
  walked_away = 0;
}

abbrev pub tally_row : BuyerConduct → BuyerJobFacts → BuyerConduct
tally_row c job =
    let reached = was_confirmed job in
    record c {
      confirmed = add_if reached c.confirmed;
      walked_after_confirm =
          add_if (text_eq job.status (codes "withdrawn") && reached) c.walked_after_confirm;
      staged_declined = add_if (text_eq job.status (codes "staged_declined")) c.staged_declined;
      closed_unpaid = add_if (text_eq job.status (codes "closed_unpaid")) c.closed_unpaid;
      merged = add_if (text_eq job.status (codes "completed")) c.merged;
      deemed = add_if (text_eq job.status (codes "deemed_completed")) c.deemed;
      closed_unmerged = add_if (text_eq job.status (codes "closed_unmerged")) c.closed_unmerged;
      cited_closes = add_if (text_eq job.status (codes "cited_closed")) c.cited_closes;
      redos_requested = add_if (is_some job.redo_requested_at) c.redos_requested;
    }

-- the loop over the rows
unfoldable pub tally : BuyerConduct → List BuyerJobFacts → BuyerConduct
tally c [] = c
tally c (job ∷ jobs) = tally (tally_row c job) jobs

abbrev pub with_walked_away : BuyerConduct → BuyerConduct
with_walked_away c = record c { walked_away = c.staged_declined + c.closed_unpaid }

unfoldable pub buyer_conduct_record : List BuyerJobFacts → BuyerConduct
unfolding tally
buyer_conduct_record jobs = with_walked_away (tally no_rows jobs)

pub record BuyerConductThresholds : Type 0 where
  pub min_buyer_merges : Option ℕ
  pub max_walked_after_confirm : Option ℕ

pub data Threshold : Type 0 where
  minimum_merges maximum_walked : Threshold

-- the kinds of failure, with `required` and `actual`
pub data BuyerConductThresholdFailure : Type 0 where
  below_minimum above_maximum : ℕ → ℕ → BuyerConductThresholdFailure
  not_keyed : Threshold → ℕ → BuyerConductThresholdFailure

-- The first of the two tests: none if the threshold is not set or is met.
abbrev pub merges_failure : Option BuyerConduct → Option ℕ → Option BuyerConductThresholdFailure
merges_failure counts none = none
merges_failure none (some required) = some (not_keyed minimum_merges required)
merges_failure (some c) (some required) =
    if ltb c.merged required then some (below_minimum required c.merged) else none

abbrev pub walked_failure : Option BuyerConduct → Option ℕ → Option BuyerConductThresholdFailure
walked_failure counts none = none
walked_failure none (some required) = some (not_keyed maximum_walked required)
walked_failure (some c) (some required) =
    if ltb required c.walked_after_confirm
    then some (above_maximum required c.walked_after_confirm)
    else none

-- the first answer that is there
abbrev pub or_else {ℓ} : {A : Type ℓ} → Option A → Option A → Option A
or_else none b = b
or_else (some a) b = some a

unfoldable pub buyer_conduct_threshold_failure :
    Option BuyerConduct → BuyerConductThresholds → Option BuyerConductThresholdFailure
buyer_conduct_threshold_failure counts thresholds =
    or_else (merges_failure counts thresholds.min_buyer_merges)
      (walked_failure counts thresholds.max_walked_after_confirm)
