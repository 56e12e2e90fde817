-- ===== src/Evidence/Compromise.antt =====
-- Reports of a compromised key, of `src/domain/compromise.ts`.
use freeagents.Base.{ℕ, Bool, false, ◌&&◌, List, [], ◌∷◌, Option, some, is_some, leb, if◌then◌else◌}
use freeagents.Base.Text.{Text}
use freeagents.Evidence.Moment.{Moment, parse_instant}
use freeagents.Evidence.Keys.{same_key, split_hash}

pub record CompromiseReport : Type 0 where
  pub key : Text
  pub since : Moment
  pub reported_at : Moment

-- both ends of a window that are times, the first not behind the second
abbrev pub is_window : Option ℕ → Option ℕ → Bool
is_window (some since) (some reported) = leb since reported
is_window _ _ = false

-- `key.includes('#')`, which an empty key does not
unfoldable pub report_well_formed : (Text → Option ℕ) → CompromiseReport → Bool
unfolding split_hash
report_well_formed date_parse report =
    is_some (split_hash report.key)
    && is_window (parse_instant date_parse report.since)
        (parse_instant date_parse report.reported_at)

-- `sinceMs <= signedAtMs && signedAtMs <= reportedAtMs`
abbrev pub is_between : Option ℕ → Option ℕ → Option ℕ → Bool
is_between (some since) (some signed) (some reported) = leb since signed && leb signed reported
is_between _ _ _ = false

unfoldable pub window_contains : (Text → Option ℕ) → CompromiseReport → Moment → Bool
unfolding report_well_formed
window_contains date_parse report signed_at =
    if report_well_formed date_parse report
    then is_between (parse_instant date_parse report.since) (parse_instant date_parse signed_at)
        (parse_instant date_parse report.reported_at)
    else false

unfoldable pub is_disputing : (Text → Option ℕ) → Text → Moment → CompromiseReport → Bool
unfolding window_contains same_key
is_disputing date_parse signed_by signed_at report =
    same_key report.key signed_by && window_contains date_parse report signed_at

-- `reports.filter(...)`
unfoldable pub disputing :
    (Text → Option ℕ) → Text → Moment → List CompromiseReport → List CompromiseReport
unfolding is_disputing
disputing date_parse signed_by signed_at [] = []
disputing date_parse signed_by signed_at (r ∷ rs) =
    let rest = disputing date_parse signed_by signed_at rs in
    if is_disputing date_parse signed_by signed_at r then r ∷ rest else rest

unfoldable pub disputed_by :
    (Text → Option ℕ) → List CompromiseReport → Text → Moment → List CompromiseReport
unfolding disputing
disputed_by date_parse reports signed_by signed_at =
    if is_some (parse_instant date_parse signed_at)
    then disputing date_parse signed_by signed_at reports
    else []
