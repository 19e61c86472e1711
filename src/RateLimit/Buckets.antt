-- ===== src/RateLimit/Buckets.antt =====
-- apps/api/src/rate_limit.rs: the fixed windows of `RateLimiter::check_many`.
pub mod Usage
pub mod Window
pub mod Runs
use wfchat.Base.{
  ℕ, ◌+◌, ◌-◌, ◌%◌, ◌^◌, Bool, List, [], ◌∷◌, Option, none, some, map, Map, lookup, insert, modify,
  retain, ltb, leb, if◌then◌else◌,
}
use wfchat.Errors.{AppError, AppResult, ok, err, rate_limited}
use wfchat.RateLimit.Policy.{
  RateLimitFamily, RateLimitIdentity, RateLimitKey, RateLimitPolicy, RateLimitPolicies, policy_for,
  default_window, key_eq,
}

pub record RateLimitBucket : Type 0 where
  pub window_started_at : ℕ
  pub count : ℕ  -- u32

abbrev pub Buckets : Type 0
Buckets = Map RateLimitKey RateLimitBucket

-- `Instant::duration_since` stops at 0.
abbrev pub duration_since : ℕ → ℕ → ℕ
duration_since now earlier = now - earlier

abbrev pub is_active : ℕ → RateLimitBucket → Bool
is_active now bucket = ltb (duration_since now bucket.window_started_at) default_window

unfoldable pub retain_active : ℕ → Buckets → Buckets
retain_active now buckets = retain (λ key bucket. is_active now bucket) buckets

-- `entry(key).or_insert_with(...)`, then the reset of a window that is over.
abbrev pub or_fresh : ℕ → Option RateLimitBucket → RateLimitBucket
or_fresh now none = record { window_started_at = now; count = 0 }
or_fresh now (some bucket) = bucket

unfoldable pub refresh : ℕ → RateLimitPolicy → Option RateLimitBucket → RateLimitBucket
refresh now policy entry =
    let bucket = or_fresh now entry in
    if leb policy.window (duration_since now bucket.window_started_at)
    then record { window_started_at = now; count = 0 }
    else bucket

-- The first loop. What it wrote stays when it rejects.
unfoldable pub check_keys :
    RateLimitPolicies → ℕ → List RateLimitKey → Buckets → Buckets × AppResult (Unit {0})
check_keys policies now [] buckets = (buckets, ok tt)
check_keys policies now (key ∷ keys) buckets =
    let policy = policy_for policies key in
    let bucket = refresh now policy (lookup key buckets) in
    let buckets' = insert key bucket buckets in
    let rest = check_keys policies now keys buckets' in
    if leb policy.max_requests bucket.count then (buckets', err rate_limited) else rest

-- `bucket.count += 1` on a `u32`.
abbrev pub bump : RateLimitBucket → RateLimitBucket
bump bucket = record bucket { count = (bucket.count + 1) % 2 ^ 32 }

-- The second loop.
unfoldable pub count_keys : List RateLimitKey → Buckets → Buckets
count_keys [] buckets = buckets
count_keys (key ∷ keys) buckets = count_keys keys (modify key bump buckets)

abbrev pub after_check :
    List RateLimitKey → Buckets × AppResult (Unit {0}) → Buckets × AppResult (Unit {0})
after_check keys (buckets, ok _) = (count_keys keys buckets, ok tt)
after_check keys (buckets, err e) = (buckets, err e)

abbrev pub keys_of : RateLimitFamily → List RateLimitIdentity → List RateLimitKey
keys_of family identities =
    map (λ identity. record { family = family; identity = identity }) identities

unfoldable pub check_many :
    RateLimitPolicies
    → ℕ
    → RateLimitFamily
    → List RateLimitIdentity
    → Buckets
    → Buckets × AppResult (Unit {0})
check_many policies now family identities buckets =
    let keys = keys_of family identities in
    after_check keys (check_keys policies now keys (retain_active now buckets))

unfoldable pub check :
    RateLimitPolicies
    → ℕ
    → RateLimitFamily
    → RateLimitIdentity
    → Buckets
    → Buckets × AppResult (Unit {0})
check policies now family identity buckets = check_many policies now family (identity ∷ []) buckets
