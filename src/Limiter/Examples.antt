-- ===== src/Limiter/Examples.antt =====
-- The theorems on `src/adapters/identity/verify-rate-limit.ts` at two requests a second.
use freeagents.Base.{◌+◌, ◌*◌, ◌-◌, ◌<◌, ◌≤◌, ◌≡◌, ◌≢◌, max, List, [], ◌∷◌, some, none, refl, arith}
use freeagents.Base.Text.{Text, codes}
use freeagents.Base.Table.{Table, get}
use freeagents.Limiter.Buckets.{
  RateLimiterOptions, Bucket, Arrival, passed, too_many, middleware, passes,
}
use freeagents.Limiter.Windows.{AllWithin, IsFree, retry_after_lem, passes-le}

abbrev options : RateLimiterOptions
options = record { limit = 2; window_ms = 1000 }

abbrev ann : Text
ann = codes "10.0.0.1"

abbrev full : Table Bucket
full = (ann, record { count = 2; window_start = 100 }) ∷ []

full_refuses : (middleware options ann 150 full).1 ≡ too_many 1
unfolding middleware
full_refuses = refl

retry_after_lem_example :
    (0 < 1)
    × ((middleware options ann (150 + 1000 * 1) (middleware options ann 150 full).0).1 ≡ passed)
    × ((middleware options ann (150 + 1000 * (1 - 1)) (middleware options ann 150 full).0).1
        ≢ passed)
retry_after_lem_example = retry_after_lem options ann 150 1 full full_refuses

abbrev arrivals : List Arrival
arrivals =
    record { ip = some ann; time = 10 }
    ∷ record { ip = none; time = 20 }
    ∷ record { ip = some ann; time = 30 }
    ∷ record { ip = some ann; time = 40 }
    ∷ []

passes_test : passes options ann arrivals [] ≡ 2
unfolding passes
passes_test = refl

ann-IsFree : IsFree options 10 (get ann [])
unfolding get
ann-IsFree = tt

arrivals_within : AllWithin 10 1010 arrivals
arrivals_within = (
  omega arith,
  omega arith,
  (omega arith, omega arith, (omega arith, omega arith, (omega arith, omega arith, tt))),
)

passes-le_example : passes options ann arrivals [] ≤ max 1 2
passes-le_example = passes-le options ann 10 arrivals [] ann-IsFree arrivals_within
