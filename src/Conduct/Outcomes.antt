-- ===== src/Conduct/Outcomes.antt =====
-- The outcomes that `buyerConductRecord` of `src/domain/buyer-conduct.ts` counts, against the
-- confirmed hires.
use freeagents.Base.{
  ℕ, ◌+◌, ◌≤◌, true, Option, ◌≡◌, sym, arith, Bool-cases, inl, inr, List, [], ◌∷◌,
}
use mathlib.Core.Path.{subst}
use freeagents.Base.Text.{Text, codes, text_eq, text_eq_iff}
use freeagents.Job.Model.{Instant}
use freeagents.Conduct.Buyer.{
  BuyerConduct, was_confirmed, tally_row, buyer_conduct_record, tally, BuyerJobFacts, no_rows,
}

-- the outcomes that a record counts
abbrev pub outcomes : BuyerConduct → ℕ
outcomes c =
    c.walked_after_confirm + c.staged_declined + c.closed_unpaid + c.merged + c.deemed
    + c.closed_unmerged + c.cited_closes

abbrev HoldsAt : BuyerConduct → Option Instant → Option Instant → Text → Type 0
HoldsAt c confirmed_at redo s =
    let d =
      tally_row c (record { status = s; confirmed_at = confirmed_at; redo_requested_at = redo }) in
    outcomes d + c.confirmed ≤ outcomes c + d.confirmed

tally_row-outcomes :
    (c : BuyerConduct) (confirmed_at redo : Option Instant) (s : Text)
    → HoldsAt c confirmed_at redo s
unfolding was_confirmed
tally_row-outcomes c confirmed_at redo s = elim (Bool-cases (text_eq s (codes "withdrawn"))) [
  | inl e ↦ at (codes "withdrawn") e (ground arith)
  | inr a ↦ elim (Bool-cases (text_eq s (codes "staged_declined"))) [
    | inl e ↦ at (codes "staged_declined") e (ground arith)
    | inr b ↦ elim (Bool-cases (text_eq s (codes "closed_unpaid"))) [
      | inl e ↦ at (codes "closed_unpaid") e (ground arith)
      | inr k ↦ elim (Bool-cases (text_eq s (codes "completed"))) [
        | inl e ↦ at (codes "completed") e (ground arith)
        | inr l ↦ elim (Bool-cases (text_eq s (codes "deemed_completed"))) [
          | inl e ↦ at (codes "deemed_completed") e (ground arith)
          | inr m ↦ elim (Bool-cases (text_eq s (codes "closed_unmerged"))) [
            | inl e ↦ at (codes "closed_unmerged") e (ground arith)
            | inr n ↦ elim (Bool-cases (text_eq s (codes "cited_closed"))) [
              | inl e ↦ at (codes "cited_closed") e (ground arith)
              | inr o ↦ rw (a, b, k, l, m, n, o) (ground arith)
            ]
          ]
        ]
      ]
    ]
  ]
]
  where
    at :
        (t : Text)
        → text_eq s t ≡ true
        → HoldsAt c confirmed_at redo t
        → HoldsAt c confirmed_at redo s
    at t e h = subst (HoldsAt c confirmed_at redo) (sym ((text_eq_iff s t).0 e)) h

tally-outcomes :
    (c : BuyerConduct) (rows : List BuyerJobFacts)
    → outcomes c ≤ c.confirmed
    → outcomes (tally c rows) ≤ (tally c rows).confirmed
unfolding tally
tally-outcomes c [] h = h
tally-outcomes c (job ∷ rows) h =
    let row = tally_row-outcomes c job.confirmed_at job.redo_requested_at job.status in
    let next : outcomes (tally_row c job) ≤ (tally_row c job).confirmed = omega arith in
    tally-outcomes (tally_row c job) rows next

-- Whatever the rows are, the outcomes that a buyer's record counts (withdrawn after confirm,
-- declined when staged, closed unpaid, merged, deemed, closed unmerged and closed with a cited
-- line) are of different confirmed hires: together they are at most the number of confirmed ones.
pub buyer_conduct_record-outcomes :
    (rows : List BuyerJobFacts)
    → outcomes (buyer_conduct_record rows) ≤ (buyer_conduct_record rows).confirmed
unfolding buyer_conduct_record
buyer_conduct_record-outcomes rows = tally-outcomes no_rows rows (omega arith)
