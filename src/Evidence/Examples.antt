-- ===== src/Evidence/Examples.antt =====
-- The theorems on `src/domain/compromise.ts` and `src/domain/liveness.ts` at concrete times.
use freeagents.Base.{ℕ, ◌≡◌, ◌↔◌, Option, none, some, [], ◌∷◌, refl}
use freeagents.Base.Text.{Text, codes}
use freeagents.Evidence.Moment.{Moment, date, invalid_date, other}
use freeagents.Evidence.Compromise.{CompromiseReport, disputed_by}
use freeagents.Evidence.Disputes.{Disputes, disputed_by_lem}
use freeagents.Evidence.Liveness.{ObservedActivity, active, dormant, liveness_status}
use freeagents.Evidence.Freshness.{RecordFacts}
use freeagents.Evidence.Activity.{IsObserved, liveness_status_iff}

-- knows one text
abbrev read_date : Text → Option ℕ
read_date [] = none
read_date (c ∷ s) = some 500

abbrev report : CompromiseReport
report = record { key = codes "did:abt:z1#k"; since = date 100; reported_at = date 200 }

abbrev later_report : CompromiseReport
later_report = record { key = codes "z1#k"; since = date 150; reported_at = invalid_date }

window_end :
    disputed_by read_date (report ∷ later_report ∷ []) (codes "z1#k") (date 200) ≡ report ∷ []
unfolding disputed_by
window_end = refl

disputed_by_lem_example :
    (Disputes read_date report (codes "z1#k") (date 200)
      → disputed_by read_date (report ∷ later_report ∷ []) (codes "z1#k") (date 200)
        ≡ report ∷ disputed_by read_date (later_report ∷ []) (codes "z1#k") (date 200))
    × (¬ Disputes read_date report (codes "z1#k") (date 200)
        → disputed_by read_date (report ∷ later_report ∷ []) (codes "z1#k") (date 200)
          ≡ disputed_by read_date (later_report ∷ []) (codes "z1#k") (date 200))
disputed_by_lem_example =
    disputed_by_lem read_date report (later_report ∷ []) (codes "z1#k") (date 200)

abbrev activity : ObservedActivity
activity = record {
  last_completed_hire_at = Moment.text (codes "2026-01-01");
  last_hire_activity_at = invalid_date;
  last_signed_request_at = other;
}

liveness_status_iff_example :
    ((liveness_status read_date activity (date 2678400000) ≡ active)
      ↔ IsObserved read_date activity 30 2678400000)
    × ((liveness_status read_date activity (date 2678400000) ≡ dormant)
        ↔ (¬ IsObserved read_date activity 90 2678400000))
liveness_status_iff_example =
    liveness_status_iff read_date activity (date 2678400000) 2678400000 refl

abbrev changed : RecordFacts
changed = record { created_at = date 300; key_rotations = date 700 ∷ invalid_date ∷ [] }
