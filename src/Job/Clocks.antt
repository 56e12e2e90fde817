-- ===== src/Job/Clocks.antt =====
-- The four clocks of `src/domain/job.ts` and `applyLapses`. A deadline is passed strictly after
-- its instant.
use freeagents.Base.{
  ℕ, Bool, true, false, not, ◌&&◌, ◌||◌, Option, none, some, ◌+◌, ltb, leb, is_some, if◌then◌else◌,
}
use freeagents.Job.Status.{
  JobStatus, confirmed, staged, redo_requested, submitted, closed_unpaid, expired_unstaged,
  deemed_completed, paid_undelivered,
}
use freeagents.Job.Model.{Instant, days, Job}

abbrev pub expire_unstaged_after_days : ℕ
expire_unstaged_after_days = 30

abbrev pub lapse_at_staged_after_days : ℕ
lapse_at_staged_after_days = 7

abbrev pub deem_completed_after_days : ℕ
deem_completed_after_days = 7

abbrev pub undelivered_after_paid_days : ℕ
undelivered_after_paid_days = 7

abbrev pub is_confirmed : JobStatus → Bool
is_confirmed confirmed = true
is_confirmed s = false

-- `LAPSE_AT_STAGED_STATUSES`
abbrev pub is_lapse_status : JobStatus → Bool
is_lapse_status staged = true
is_lapse_status redo_requested = true
is_lapse_status s = false

abbrev pub is_submitted : JobStatus → Bool
is_submitted submitted = true
is_submitted s = false

-- Whether `now` is strictly after an instant; there is nothing to pass where it is `null`.
abbrev pub is_past : Option Instant → Instant → Bool
is_past none now = false
is_past (some deadline) now = ltb deadline now

-- Whether `time` is at or before an instant.
abbrev pub is_by : Option Instant → Instant → Bool
is_by none time = false
is_by (some end) time = leb time end

abbrev pub plus_days : Option Instant → ℕ → Option Instant
plus_days none n = none
plus_days (some t) n = some (t + days n)

-- the test of `expireUnstaged`
unfoldable pub expires : Job → Instant → Bool
expires job now =
    is_confirmed job.status && is_past (plus_days job.confirmed_at expire_unstaged_after_days) now

-- `expireUnstaged`
unfoldable pub expire_unstaged : Job → Instant → Job
expire_unstaged job now = if expires job now then record job { status = expired_unstaged } else job

-- the test of `lapseAtStaged`
unfoldable pub goes_unpaid : Job → Instant → Bool → Bool
goes_unpaid job now settled =
    let window = lapse_at_staged_after_days + job.staged_lapse_extension_days in
    is_lapse_status job.status && not settled && is_past (plus_days job.staged_at window) now

-- `lapseAtStaged`
unfoldable pub lapse_at_staged : Job → Instant → Bool → Job
lapse_at_staged job now settled =
    if goes_unpaid job now settled then record job { status = closed_unpaid } else job

-- the test of `lapseUndelivered`
unfoldable pub goes_undelivered : Job → Instant → Option Instant → Bool
goes_undelivered job now settled_at =
    is_lapse_status job.status && is_past (plus_days settled_at undelivered_after_paid_days) now

-- `lapseUndelivered`
unfoldable pub lapse_undelivered : Job → Instant → Option Instant → Job
lapse_undelivered job now settled_at =
    if goes_undelivered job now settled_at then record job { status = paid_undelivered } else job

-- `deemWindowEnd`
unfoldable pub deem_window_end : Job → Option Instant
deem_window_end job = plus_days job.submitted_at deem_completed_after_days

-- `deemWindowHasPassed`
unfoldable pub deem_window_has_passed : Job → Instant → Bool
unfolding deem_window_end
deem_window_has_passed job now = is_submitted job.status && is_past (deem_window_end job) now

-- `mergedInsideWindow`
unfoldable pub merged_inside_window : Job → Instant → Bool
unfolding deem_window_end
merged_inside_window job merged_at = is_by (deem_window_end job) merged_at

-- `deemCompleted`
unfoldable pub deem_completed : Job → Instant → Job
deem_completed job now =
    if deem_window_has_passed job now
    then record job { status = deemed_completed; deemed_completed_at = some now }
    else job

-- `applyLapses`
unfoldable pub apply_lapses : Job → Instant → Bool → Option Instant → Job
apply_lapses job now remainder_settled settled_at =
    let settled = remainder_settled || is_some settled_at in
    deem_completed
      (lapse_undelivered (lapse_at_staged (expire_unstaged job now) now settled) now settled_at) now
