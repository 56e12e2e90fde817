-- ===== src/Limiter/Buckets.antt =====
-- The fixed-window counter of `src/adapters/identity/verify-rate-limit.ts`. A time is in
-- milliseconds, from zero up; `next` and the answer 429 are the two values of an answer.
use freeagents.Base.{
  ℕ, ◌+◌, ◌-◌, ◌/◌, List, [], ◌∷◌, Option, none, some, leb, if◌then◌else◌, Bool, true,
}
use freeagents.Base.Text.{Text, codes, text_eq}
use freeagents.Base.Table.{Table, get, set}

pub record RateLimiterOptions : Type 0 where
  pub limit : ℕ
  pub window_ms : ℕ

pub record Bucket : Type 0 where
  pub count : ℕ
  pub window_start : ℕ

-- `next()`, or 429 with the seconds of `Retry-After`
pub data Answer : Type 0 where
  passed : Answer
  too_many : ℕ → Answer

-- `req.ip ?? 'unknown'`
abbrev pub key_of : Option Text → Text
key_of none = codes "unknown"
key_of (some ip) = ip

-- `t - existing.windowStart >= windowMs`
abbrev pub is_over : RateLimiterOptions → Bucket → ℕ → Bool
is_over options b t = leb (b.window_start + options.window_ms) t

-- `Math.ceil(Math.max(0, windowMs - elapsedMs) / 1000)`
abbrev pub retry_after : RateLimiterOptions → Bucket → ℕ → ℕ
retry_after options b t = (b.window_start + options.window_ms - t + 999) / 1000

abbrev pub opened_at : ℕ → Bucket
opened_at t = record { count = 1; window_start = t }

-- the answer to a request, and the bucket that is stored for its key
abbrev pub judge : RateLimiterOptions → ℕ → Option Bucket → Bucket × Answer
judge options t none = (opened_at t, passed)
judge options t (some b) =
    if is_over options b t
    then (opened_at t, passed)
    else if leb options.limit b.count
    then (b, too_many (retry_after options b t))
    else (record b { count = b.count + 1 }, passed)

-- A refused request stores nothing, which is storing the bucket that is there.
unfoldable pub middleware : RateLimiterOptions → Text → ℕ → Table Bucket → Table Bucket × Answer
unfolding get set
middleware options key t buckets =
    let judged = judge options t (get key buckets) in (set key judged.0 buckets, judged.1)

pub record Arrival : Type 0 where
  pub ip : Option Text
  pub time : ℕ

abbrev pub passes_if : Bool → Answer → ℕ → ℕ
passes_if true passed n = n + 1
passes_if _ _ n = n

-- how many of the requests of a key pass
unfoldable pub passes : RateLimiterOptions → Text → List Arrival → Table Bucket → ℕ
unfolding middleware
passes options key [] buckets = 0
passes options key (r ∷ rs) buckets =
    let step = middleware options (key_of r.ip) r.time buckets in
    let rest = passes options key rs step.0 in passes_if (text_eq (key_of r.ip) key) step.1 rest
