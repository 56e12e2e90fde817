-- ===== src/Evidence/Liveness.antt =====
-- The liveness label of `src/domain/liveness.ts`.
use freeagents.Base.{ℕ, ◌-◌, ◌*◌, Bool, Option, none, some, max, ltb, if◌then◌else◌}
use freeagents.Base.Text.{Text}
use freeagents.Evidence.Moment.{Moment, parse_instant}

pub data LivenessStatus : Type 0 where
  active quiet dormant : LivenessStatus

abbrev pub quiet_after_days : ℕ
quiet_after_days = 30

abbrev pub dormant_after_days : ℕ
dormant_after_days = 90

abbrev pub ms_per_day : ℕ
ms_per_day = 86400000

pub record ObservedActivity : Type 0 where
  pub last_completed_hire_at : Moment
  pub last_hire_activity_at : Moment
  pub last_signed_request_at : Moment

pub record SelfReportedCheckIn : Type 0 where
  pub checked_in_at : Moment
  pub signature_verified : Bool

-- An instant stands for its ISO text.
pub record ProfileLiveness : Type 0 where
  pub status : LivenessStatus
  pub observed_at : Option ℕ
  pub self_reported : Option ℕ

-- the later of two instants that are there
abbrev pub later : Option ℕ → Option ℕ → Option ℕ
later none b = b
later (some a) none = some a
later (some a) (some b) = some (max a b)

-- The filter of nulls and `Math.max` over the rest, null for none.
unfoldable pub last_observed_at : (Text → Option ℕ) → ObservedActivity → Option ℕ
last_observed_at date_parse activity =
    later (parse_instant date_parse activity.last_completed_hire_at) (
      later (parse_instant date_parse activity.last_hire_activity_at)
        (parse_instant date_parse activity.last_signed_request_at))

-- The thresholds on the elapsed milliseconds. A quotient by `MS_PER_DAY` is above a whole number of
-- days exactly if the milliseconds are above that many days.
abbrev pub status_after : ℕ → LivenessStatus
status_after elapsed =
    if ltb (dormant_after_days * ms_per_day) elapsed
    then dormant
    else if ltb (quiet_after_days * ms_per_day) elapsed
    then quiet
    else active

-- With no elapsed time to compare (NaN) both tests are false.
abbrev pub status_of : Option ℕ → Option ℕ → LivenessStatus
status_of none now = dormant
status_of (some observed) none = active
status_of (some observed) (some now) = status_after (now - observed)

unfoldable pub liveness_status : (Text → Option ℕ) → ObservedActivity → Moment → LivenessStatus
unfolding last_observed_at
liveness_status date_parse activity now =
    status_of (last_observed_at date_parse activity) (parse_instant date_parse now)

abbrev pub check_in_of : (Text → Option ℕ) → Option SelfReportedCheckIn → Option ℕ
check_in_of date_parse none = none
check_in_of date_parse (some c) =
    if c.signature_verified then parse_instant date_parse c.checked_in_at else none

unfoldable pub profile_liveness :
    (Text → Option ℕ) → ObservedActivity → Option SelfReportedCheckIn → Moment → ProfileLiveness
unfolding liveness_status last_observed_at
profile_liveness date_parse activity check_in now = record {
  status = liveness_status date_parse activity now;
  observed_at = last_observed_at date_parse activity;
  self_reported = check_in_of date_parse check_in;
}
