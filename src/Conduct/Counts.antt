-- ===== src/Conduct/Counts.antt =====
-- The fields of `buyerConductRecord` of `src/domain/buyer-conduct.ts` as counts of rows.
use freeagents.Base.{ℕ, ◌+◌, Bool, ◌&&◌, List, [], ◌∷◌, count, is_some, ◌≡◌, arith, ◌∙◌}
use freeagents.Base.Text.{Text, codes, text_eq}
use freeagents.Conduct.Buyer.{
  BuyerJobFacts, BuyerConduct, was_confirmed, add_if, no_rows, tally_row, tally,
  buyer_conduct_record,
}

abbrev pub has_status : Text → BuyerJobFacts → Bool
has_status s job = text_eq job.status s

-- Each field of `d` is that of `c` and the number of rows that the field counts.
pub record Counts (rows : List BuyerJobFacts) (c d : BuyerConduct) : Type 0 where
  pub confirmed : d.confirmed ≡ c.confirmed + count was_confirmed rows
  pub walked_after_confirm :
      d.walked_after_confirm
      ≡ c.walked_after_confirm
        + count (λ job. has_status (codes "withdrawn") job && was_confirmed job) rows
  pub staged_declined :
      d.staged_declined ≡ c.staged_declined + count (has_status (codes "staged_declined")) rows
  pub closed_unpaid :
      d.closed_unpaid ≡ c.closed_unpaid + count (has_status (codes "closed_unpaid")) rows
  pub merged : d.merged ≡ c.merged + count (has_status (codes "completed")) rows
  pub deemed : d.deemed ≡ c.deemed + count (has_status (codes "deemed_completed")) rows
  pub closed_unmerged :
      d.closed_unmerged ≡ c.closed_unmerged + count (has_status (codes "closed_unmerged")) rows
  pub cited_closes :
      d.cited_closes ≡ c.cited_closes + count (has_status (codes "cited_closed")) rows
  pub redos_requested :
      d.redos_requested ≡ c.redos_requested + count (λ job. is_some job.redo_requested_at) rows

-- One turn of the loop, and the rest.
add_if-count :
    {A : Type 0} (p : A → Bool) (a : A) (rows : List A) (n : ℕ)
    → add_if (p a) n + count p rows ≡ n + count p (a ∷ rows)
add_if-count p a rows n = ground arith

pub tally-Counts : (c : BuyerConduct) (rows : List BuyerJobFacts) → Counts rows c (tally c rows)
unfolding tally
tally-Counts c [] = record {
  confirmed = omega arith;
  walked_after_confirm = omega arith;
  staged_declined = omega arith;
  closed_unpaid = omega arith;
  merged = omega arith;
  deemed = omega arith;
  closed_unmerged = omega arith;
  cited_closes = omega arith;
  redos_requested = omega arith;
}
tally-Counts c (job ∷ rows) =
    let h = tally-Counts (tally_row c job) rows in
    record {
      confirmed = h.confirmed ∙ add_if-count was_confirmed job rows c.confirmed;
      walked_after_confirm =
          h.walked_after_confirm
          ∙ add_if-count (λ job. has_status (codes "withdrawn") job && was_confirmed job) job rows
              c.walked_after_confirm;
      staged_declined =
          h.staged_declined
          ∙ add_if-count (has_status (codes "staged_declined")) job rows c.staged_declined;
      closed_unpaid =
          h.closed_unpaid
          ∙ add_if-count (has_status (codes "closed_unpaid")) job rows c.closed_unpaid;
      merged = h.merged ∙ add_if-count (has_status (codes "completed")) job rows c.merged;
      deemed = h.deemed ∙ add_if-count (has_status (codes "deemed_completed")) job rows c.deemed;
      closed_unmerged =
          h.closed_unmerged
          ∙ add_if-count (has_status (codes "closed_unmerged")) job rows c.closed_unmerged;
      cited_closes =
          h.cited_closes ∙ add_if-count (has_status (codes "cited_closed")) job rows c.cited_closes;
      redos_requested =
          h.redos_requested
          ∙ add_if-count (λ job. is_some job.redo_requested_at) job rows c.redos_requested;
    }

-- Every field of a buyer's record is the number of rows that the field is about, from a row's
-- status, whether it was confirmed and whether a redo was asked for; the walked-away figure is the
-- sum of two of them.
pub buyer_conduct_record_lem :
    (rows : List BuyerJobFacts)
    → Counts rows no_rows (buyer_conduct_record rows)
      × ((buyer_conduct_record rows).walked_away
          ≡ count (has_status (codes "staged_declined")) rows
            + count (has_status (codes "closed_unpaid")) rows)
unfolding buyer_conduct_record
buyer_conduct_record_lem rows =
    let h = tally-Counts no_rows rows in
    let a = h.staged_declined in
    let b = h.closed_unpaid in
    (
      record {
        confirmed = h.confirmed;
        walked_after_confirm = h.walked_after_confirm;
        staged_declined = a;
        closed_unpaid = b;
        merged = h.merged;
        deemed = h.deemed;
        closed_unmerged = h.closed_unmerged;
        cited_closes = h.cited_closes;
        redos_requested = h.redos_requested;
      },
      omega arith,
    )
