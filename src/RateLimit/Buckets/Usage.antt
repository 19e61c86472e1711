-- ===== src/RateLimit/Buckets/Usage.antt =====
-- What a caller has used of its window, and how `check_many` changes it.
use wfchat.Base.{
  ℕ, suc, ◌+◌, ◌^◌, ◌<◌, ◌≡◌, refl, ◌⊎◌, Bool, true, false, List, [], ◌∷◌, Option, none, some,
  lookup, insert, modify, Distinct, lookup-insert, lookup-modify, lookup-retain, ltb, leb,
  if◌then◌else◌, all, not, arith, ◌==◌, any, map_found,
}
use wfchat.Errors.{ok, err, rate_limited}
use wfchat.RateLimit.Policy.{
  RateLimitKey, RateLimitPolicy, RateLimitPolicies, policy_for, default_window, key_eq, key_beq_iff,
}
use wfchat.RateLimit.Buckets.{
  RateLimitBucket, Buckets, is_active, retain_active, refresh, check_keys, bump, count_keys,
}

-- The requests that a bucket counts at `now`: none once its window is over.
abbrev pub live_count : ℕ → Option RateLimitBucket → ℕ
live_count now none = 0
live_count now (some bucket) = if is_active now bucket then bucket.count else 0

abbrev pub usage : ℕ → RateLimitKey → Buckets → ℕ
usage now key buckets = live_count now (lookup key buckets)

abbrev pub HasPerMinute : RateLimitPolicies → Type 0
HasPerMinute policies = (key : RateLimitKey) → (policy_for policies key).window ≡ default_window

pub usage-retain_active :
    (now : ℕ) (key : RateLimitKey) (buckets : Buckets)
    → Distinct buckets
    → usage now key (retain_active now buckets) ≡ usage now key buckets
unfolding retain_active
usage-retain_active now key buckets d =
    ground (arith, lookup-retain (λ k b. is_active now b) key buckets d)

pub usage-refresh :
    (now : ℕ) (policy : RateLimitPolicy) (entry : Option RateLimitBucket)
    → policy.window ≡ default_window
    → (live_count now (some (refresh now policy entry)) ≡ live_count now entry)
      × (is_active now (refresh now policy entry) ≡ true)
      × ((refresh now policy entry).count ≡ live_count now entry)
unfolding refresh
usage-refresh now policy none h = ground arith
usage-refresh now policy (some b) h = ground arith

abbrev pub is_live : ℕ → Option RateLimitBucket → Bool
is_live now none = false
is_live now (some bucket) = is_active now bucket

-- The key's bucket has a window that is not over.
abbrev pub IsLive : ℕ → Buckets → RateLimitKey → Type 0
IsLive now buckets key = is_live now (lookup key buckets) ≡ true

-- The specification: the key may still make a request at `now`.
abbrev pub has_room : RateLimitPolicies → ℕ → Buckets → RateLimitKey → Bool
has_room policies now buckets key =
    ltb (usage now key buckets) (policy_for policies key).max_requests

-- What the first loop writes for one key.
module _ (policies : RateLimitPolicies) (now : ℕ) (key : RateLimitKey) (buckets : Buckets) where
  abbrev pub refreshed : RateLimitBucket
  refreshed = refresh now (policy_for policies key) (lookup key buckets)

  abbrev pub touched : Buckets
  touched = insert key refreshed buckets

  module _ (minute : HasPerMinute policies) where
    usage-touched : (j : RateLimitKey) → usage now j touched ≡ usage now j buckets
    usage-touched j = ground (
      arith,
      lookup-insert key j refreshed buckets,
      usage-refresh now (policy_for policies key) (lookup key buckets) (minute key),
      key_beq_iff key j,
    )

    IsLive-touched : (j : RateLimitKey) → (key ≡ j) ⊎ IsLive now buckets j → IsLive now touched j
    IsLive-touched j e = ground (
      arith,
      lookup-insert key j refreshed buckets,
      usage-refresh now (policy_for policies key) (lookup key buckets) (minute key),
      key_beq_iff key j,
    )

    has_room-touched :
        (ks : List RateLimitKey)
        → all (has_room policies now touched) ks ≡ all (has_room policies now buckets) ks
    has_room-touched [] = refl
    has_room-touched (k ∷ ks) = rw (usage-touched k, has_room-touched ks)

    leb-refreshed :
        leb (policy_for policies key).max_requests refreshed.count
        ≡ not (has_room policies now buckets key)
    leb-refreshed =
        ground
          (arith, usage-refresh now (policy_for policies key) (lookup key buckets) (minute key))

module _ (policies : RateLimitPolicies) (now : ℕ) (minute : HasPerMinute policies) where
  -- The first loop passes exactly when each key has room, and changes no usage.
  pub usage-check_keys :
      (keys : List RateLimitKey) (buckets : Buckets) (j : RateLimitKey)
      → usage now j (check_keys policies now keys buckets).0 ≡ usage now j buckets
  unfolding check_keys
  usage-check_keys [] buckets j = refl
  usage-check_keys (key ∷ keys) buckets j = ground (
    arith,
    usage-touched policies now key buckets minute j,
    usage-check_keys keys (touched policies now key buckets) j,
  )

  pub outcome-check_keys :
      (keys : List RateLimitKey) (buckets : Buckets)
      → (check_keys policies now keys buckets).1
        ≡ (if all (has_room policies now buckets) keys then ok tt else err rate_limited)
  unfolding check_keys
  outcome-check_keys [] buckets = refl
  outcome-check_keys (key ∷ keys) buckets = ground (
    arith,
    leb-refreshed policies now key buckets minute,
    has_room-touched policies now key buckets minute keys,
    outcome-check_keys keys (touched policies now key buckets),
  )

  pub IsLive-check_keys :
      (keys : List RateLimitKey) (buckets : Buckets) (j : RateLimitKey)
      → all (has_room policies now buckets) keys ≡ true
      → (any (λ k. k == j) keys ≡ true) ⊎ IsLive now buckets j
      → IsLive now (check_keys policies now keys buckets).0 j
  unfolding check_keys
  IsLive-check_keys [] buckets j room e = ground arith
  IsLive-check_keys (key ∷ keys) buckets j room e = ground (
    arith,
    leb-refreshed policies now key buckets minute,
    has_room-touched policies now key buckets minute keys,
    IsLive-touched policies now key buckets minute j,
    key_beq_iff key j,
    IsLive-check_keys keys (touched policies now key buckets) j,
  )

-- No key is listed twice.
abbrev pub IsUnique : List RateLimitKey → Type 0
IsUnique [] = Unit
IsUnique (k ∷ ks) = (any (λ j. j == k) ks ≡ false) × IsUnique ks

pub lookup-count_keys :
    (keys : List RateLimitKey) (buckets : Buckets) (j : RateLimitKey)
    → IsUnique keys
    → lookup j (count_keys keys buckets)
      ≡ (if any (λ k. k == j) keys then map_found bump (lookup j buckets) else lookup j buckets)
unfolding count_keys
lookup-count_keys [] buckets j u = refl
lookup-count_keys (key ∷ keys) buckets j u = ground (
  arith,
  lookup-modify key j bump buckets,
  key_beq_iff key j,
  lookup-count_keys keys (modify key bump buckets) j u.1,
)

pub usage-count_keys :
    (now : ℕ) (keys : List RateLimitKey) (buckets : Buckets) (j : RateLimitKey)
    → IsUnique keys
    → (any (λ k. k == j) keys ≡ true → IsLive now buckets j)
    → (any (λ k. k == j) keys ≡ true → suc (usage now j buckets) < 2 ^ 32)
    → usage now j (count_keys keys buckets)
      ≡ usage now j buckets + (if any (λ k. k == j) keys then 1 else 0)
usage-count_keys now keys buckets j u live small =
    ground (arith, lookup-count_keys keys buckets j u)
