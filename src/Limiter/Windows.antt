-- ===== src/Limiter/Windows.antt =====
-- `src/adapters/identity/verify-rate-limit.ts` over a window, and its `Retry-After`.
use freeagents.Base.{
  ℕ, ◌+◌, ◌-◌, ◌≤◌, ◌<◌, List, [], ◌∷◌, some, leb, true, false, ◌≡◌, refl, ◌∙◌, arith, Bool-cases,
  inl, inr, max, Option-cases, count, ◌*◌, sym, ◌≢◌, Option, none,
}
use mathlib.Core.Path.{subst}
use freeagents.Base.Text.{Text, text_eq, text_eq_iff}
use freeagents.Base.Table.{Table, get, set, get-set, get-set_other}
use freeagents.Limiter.Buckets.{
  RateLimiterOptions, Bucket, passed, too_many, key_of, is_over, retry_after, judge, middleware,
  Arrival, passes, opened_at,
}

-- every request comes before an instant, and not before another
abbrev pub AllWithin : ℕ → ℕ → List Arrival → Type 0
AllWithin from until [] = Unit
AllWithin from until (r ∷ rs) = (from ≤ r.time) × (r.time < until) × AllWithin from until rs

-- What a request leaves for a key that is not its own, and for its own.
middleware-other :
    (options : RateLimiterOptions) (k key : Text) (t : ℕ) (s : Table Bucket)
    → text_eq k key ≡ false
    → get key (middleware options k t s).0 ≡ get key s
unfolding middleware
middleware-other options k key t s h = get-set_other k key (judge options t (get k s)).0 s h

middleware-own :
    (options : RateLimiterOptions) (key : Text) (t : ℕ) (s : Table Bucket)
    → get key (middleware options key t s).0 ≡ some (judge options t (get key s)).0
unfolding middleware
middleware-own options key t s = get-set key (judge options t (get key s)).0 s

middleware-answer :
    (options : RateLimiterOptions) (key : Text) (t : ℕ) (s : Table Bucket)
    → (middleware options key t s).1 ≡ (judge options t (get key s)).1
unfolding middleware
middleware-answer options key t s = refl

one_more :
    (n limit count : ℕ) → n ≤ limit - (count + 1) → leb limit count ≡ false → n + 1 ≤ limit - count
one_more n limit count h k = ground arith

-- In an open window no more pass than the bucket has left.
passes-open :
    (options : RateLimiterOptions) (key : Text) (from : ℕ) (rs : List Arrival) (s : Table Bucket)
    (b : Bucket)
    → get key s ≡ some b
    → AllWithin from (b.window_start + options.window_ms) rs
    → passes options key rs s ≤ options.limit - b.count
unfolding passes
passes-open options key from [] s b e h = omega arith
passes-open options key from (r ∷ rs) s b e (h0, h1, hs) =
    elim (Bool-cases (text_eq (key_of r.ip) key)) [
      | inr k ↦ rw k (
          passes-open options key from rs _ b
            (middleware-other options (key_of r.ip) key r.time s k ∙ e) hs)
      | inl k ↦
          let same = (text_eq_iff (key_of r.ip) key).0 k in
          let still : is_over options b r.time ≡ false = ground arith in
          elim (Bool-cases (leb options.limit b.count)) [
            | inl full ↦
                rw (k, same, e, still, full)
                  (passes-open options key from rs (set key b s) b (get-set key b s) hs)
            | inr free ↦
                let next = record b { count = b.count + 1 } in
                let rest =
                  passes-open options key from rs (set key next s) next (get-set key next s) hs in
                rw (k, same, e, still, free) (one_more _ options.limit b.count rest free)
          ]
    ]

too_many-injective : {a b : ℕ} → too_many a ≡ too_many b → a ≡ b
too_many-injective h = cc

judge-refused :
    (options : RateLimiterOptions) (b : Bucket) (t r : ℕ)
    → (judge options t (some b)).1 ≡ too_many r
    → (is_over options b t ≡ false)
      × (leb options.limit b.count ≡ true)
      × (retry_after options b t ≡ r)
judge-refused options b t r h = elim (Bool-cases (is_over options b t)) [
  | inl k ↦ absurd (never (rw k at h))
  | inr k ↦ elim (Bool-cases (leb options.limit b.count)) [
    | inl m ↦ (k, m, too_many-injective (rw (k, m) at h))
    | inr m ↦ absurd (never (rw (k, m) at h))
  ]
]
  where
    never : passed ≡ too_many r → ⊥
    never h = cc

-- Behind a refusal the key's bucket is the one that refused.
refused_bucket :
    (options : RateLimiterOptions) (key : Text) (t r : ℕ) (s : Table Bucket)
    → (middleware options key t s).1 ≡ too_many r
    → (b : Bucket) × (get key (middleware options key t s).0 ≡ some b)
      × (is_over options b t ≡ false)
      × (leb options.limit b.count ≡ true)
      × (retry_after options b t ≡ r)
refused_bucket options key t r s h = elim (Option-cases (get key s)) [
  | inl e ↦ absurd (never (rw (middleware-answer options key t s, e) at h))
  | inr (b, e) ↦
      let (k, m, q) =
        judge-refused options b t r (rw (middleware-answer options key t s, e) at h) in
      (b, middleware-own options key t s ∙ rw (e, k, m) refl, k, m, q)
]
  where
    never : passed ≡ too_many r → ⊥
    never h = cc

-- A refused caller that comes again after exactly the seconds of `Retry-After` passes; that number
-- is above zero, and one that comes a second earlier is refused again.
pub retry_after_lem :
    (options : RateLimiterOptions) (key : Text) (t r : ℕ) (s : Table Bucket)
    → (middleware options key t s).1 ≡ too_many r
    → (0 < r)
      × ((middleware options key (t + 1000 * r) (middleware options key t s).0).1 ≡ passed)
      × ((middleware options key (t + 1000 * (r - 1)) (middleware options key t s).0).1 ≢ passed)
retry_after_lem options key t r s h =
    let (b, e, k, m, q) = refused_bucket options key t r s h in
    let over : is_over options b (t + 1000 * r) ≡ true = ground arith in
    let early : is_over options b (t + 1000 * (r - 1)) ≡ false = ground arith in
    let s' = (middleware options key t s).0 in
    (
      ground arith,
      middleware-answer options key (t + 1000 * r) s' ∙ rw (e, over) refl,
      λ p. refused (rw (middleware-answer options key (t + 1000 * (r - 1)) s', e, early, m) at p),
    )
  where
    refused : {n : ℕ} → too_many n ≡ passed → ⊥
    refused h = cc

-- no bucket, or one whose window is over
abbrev pub IsFree : RateLimiterOptions → ℕ → Option Bucket → Type 0
IsFree options from none = Unit
IsFree options from (some b) = b.window_start + options.window_ms ≤ from

judge-free :
    (options : RateLimiterOptions) (from t : ℕ) (o : Option Bucket)
    → IsFree options from o
    → from ≤ t
    → judge options t o ≡ (opened_at t, passed)
judge-free options from t none f h = refl
judge-free options from t (some b) f h =
    let over : is_over options b t ≡ true = ground arith in rw over refl

AllWithin-later :
    (from until later : ℕ) (rs : List Arrival)
    → until ≤ later
    → AllWithin from until rs
    → AllWithin from later rs
AllWithin-later from until later [] le h = tt
AllWithin-later from until later (r ∷ rs) le (h0, h1, hs) =
    (h0, omega arith, AllWithin-later from until later rs le hs)

first_more : (n limit : ℕ) → n ≤ limit - 1 → n + 1 ≤ max 1 limit
first_more n limit h = ground arith

-- Of the requests of one key in a stretch of time as long as the window, mixed with those of other
-- keys, at most as many pass as the limit says, one at least, if the key has no bucket before or
-- one whose window is over when they come.
pub passes-le :
    (options : RateLimiterOptions) (key : Text) (from : ℕ) (rs : List Arrival) (s : Table Bucket)
    → IsFree options from (get key s)
    → AllWithin from (from + options.window_ms) rs
    → passes options key rs s ≤ max 1 options.limit
unfolding passes
passes-le options key from [] s f h = omega arith
passes-le options key from (r ∷ rs) s f (h0, h1, hs) =
    elim (Bool-cases (text_eq (key_of r.ip) key)) [
      | inr k ↦
          let same = middleware-other options (key_of r.ip) key r.time s k in
          rw k (passes-le options key from rs _ (subst (IsFree options from) (sym same) f) hs)
      | inl k ↦
          let same = (text_eq_iff (key_of r.ip) key).0 k in
          let first = opened_at r.time in
          let rest = passes-open options key from rs (set key first s) first (get-set key first s) (
            AllWithin-later from (from + options.window_ms) (r.time + options.window_ms) rs
              (omega arith) hs) in
          rw (k, same, judge-free options from r.time (get key s) f h0)
            (first_more _ options.limit rest)
    ]
