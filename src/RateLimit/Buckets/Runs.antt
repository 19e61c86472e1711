-- ===== src/RateLimit/Buckets/Runs.antt =====
-- Runs of `check_many` over a sequence of requests.
use wfchat.Base.{
  ℕ, ◌+◌, ◌≤◌, ◌<◌, Bool, List, [], ◌∷◌, Option, none, some, lookup, modify, Distinct,
  lookup-insert, lookup-retain, insert-Distinct, retain-Distinct, modify-Distinct, if◌then◌else◌,
  any, ◌&&◌, arith, ◌==◌, All,
}
use wfchat.Errors.{AppResult, is_ok}
use wfchat.RateLimit.Policy.{
  RateLimitFamily, RateLimitIdentity, RateLimitKey, RateLimitPolicies, policy_for, default_window,
  key_eq, key_beq_iff,
}
use wfchat.RateLimit.Buckets.Usage.{HasPerMinute, IsUnique, lookup-count_keys, refreshed, touched}
use wfchat.RateLimit.Buckets.Window.{HasU32Limits, check_many_lem, room_of_any}
use wfchat.RateLimit.Buckets.{
  RateLimitBucket, Buckets, is_active, retain_active, refresh, check_keys, count_keys, keys_of,
  check_many, bump,
}

-- The key's window, if it has one, began at `t` or later.
abbrev pub IsFrom : ℕ → Option RateLimitBucket → Type 0
IsFrom t none = Unit
IsFrom t (some bucket) = t ≤ bucket.window_started_at

-- The count in the bucket, its window over or not.
abbrev pub stored : Option RateLimitBucket → ℕ
stored none = 0
stored (some bucket) = bucket.count

module _ (policies : RateLimitPolicies) (now t : ℕ) (h : t ≤ now) (j : RateLimitKey) where
  IsFrom-check_keys :
      (keys : List RateLimitKey) (buckets : Buckets)
      → IsFrom t (lookup j buckets)
      → IsFrom t (lookup j (check_keys policies now keys buckets).0)
  unfolding check_keys refresh
  IsFrom-check_keys [] buckets f = f
  IsFrom-check_keys (key ∷ keys) buckets f = ground (
    arith,
    lookup-insert key j (refreshed policies now key buckets) buckets,
    key_beq_iff key j,
    IsFrom-check_keys keys (touched policies now key buckets),
  )

  IsFrom-check_many :
      (family : RateLimitFamily) (identities : List RateLimitIdentity) (buckets : Buckets)
      → Distinct buckets
      → IsUnique (keys_of family identities)
      → IsFrom t (lookup j buckets)
      → IsFrom t (lookup j (check_many policies now family identities buckets).0)
  unfolding check_many retain_active
  IsFrom-check_many family identities buckets d u f = ground (
    arith,
    lookup-retain (λ k b. is_active now b) j buckets d,
    IsFrom-check_keys keys (retain_active now buckets),
    lookup-count_keys keys (check_keys policies now keys (retain_active now buckets)).0 j u,
  )
    where
      keys : List RateLimitKey
      keys = keys_of family identities

check_keys-Distinct :
    (policies : RateLimitPolicies) (now : ℕ) (keys : List RateLimitKey) (buckets : Buckets)
    → Distinct buckets
    → Distinct (check_keys policies now keys buckets).0
unfolding check_keys
check_keys-Distinct policies now [] buckets d = d
check_keys-Distinct policies now (key ∷ keys) buckets d = ground (
  arith,
  insert-Distinct key (refreshed policies now key buckets) buckets d,
  check_keys-Distinct policies now keys (touched policies now key buckets),
)

count_keys-Distinct :
    (keys : List RateLimitKey) (buckets : Buckets)
    → Distinct buckets
    → Distinct (count_keys keys buckets)
unfolding count_keys
count_keys-Distinct [] buckets d = d
count_keys-Distinct (key ∷ keys) buckets d =
    count_keys-Distinct keys (modify key bump buckets) (modify-Distinct key bump buckets d)

pub check_many-Distinct :
    (policies : RateLimitPolicies) (now : ℕ) (family : RateLimitFamily)
    (identities : List RateLimitIdentity) (buckets : Buckets)
    → Distinct buckets
    → Distinct (check_many policies now family identities buckets).0
unfolding check_many retain_active
check_many-Distinct policies now family identities buckets d = ground (
  arith,
  check_keys-Distinct policies now keys kept
      (retain-Distinct (λ key bucket. is_active now bucket) buckets d),
  count_keys-Distinct keys (check_keys policies now keys kept).0,
)
  where
    keys : List RateLimitKey
    keys = keys_of family identities

    kept : Buckets
    kept = retain_active now buckets

-- One call of the limiter, at the time that it read.
pub record Request : Type 0 where
  pub now : ℕ
  pub family : RateLimitFamily
  pub identities : List RateLimitIdentity

abbrev pub serve : RateLimitPolicies → Request → Buckets → Buckets × AppResult (Unit {0})
serve policies r buckets = check_many policies r.now r.family r.identities buckets

abbrev pub counts_for : RateLimitKey → Request → Bool
counts_for j r = any (λ k. k == j) (keys_of r.family r.identities)

-- How many of the calls that name the key pass.
unfoldable pub admitted : RateLimitPolicies → RateLimitKey → List Request → Buckets → ℕ
admitted policies j [] buckets = 0
admitted policies j (r ∷ rs) buckets =
    let (buckets', outcome) = serve policies r buckets in
    (if is_ok outcome && counts_for j r then 1 else 0) + admitted policies j rs buckets'

-- The call was made within a minute from `t`, and names no key twice.
abbrev pub IsWithin : ℕ → Request → Type 0
IsWithin t r = (t ≤ r.now) × (r.now < t + default_window) × IsUnique (keys_of r.family r.identities)

-- However many calls are made within one minute, in any order of their times, no key whose window, if it
-- has one, began within that minute passes more often than its limit, those that the window counts
-- already included. (Each limit stands for a minute and is a `u32`, each call names each of its keys once,
-- and the window counts no more than the limit. A window that began before that minute can end in it, and
-- then the key can pass more often.)
pub admitted-le-limit :
    (policies : RateLimitPolicies) (j : RateLimitKey) (t : ℕ) (rs : List Request)
    (buckets : Buckets)
    → HasPerMinute policies
    → HasU32Limits policies
    → Distinct buckets
    → All (IsWithin t) rs
    → IsFrom t (lookup j buckets)
    → stored (lookup j buckets) ≤ (policy_for policies j).max_requests
    → stored (lookup j buckets) + admitted policies j rs buckets
      ≤ (policy_for policies j).max_requests
unfolding admitted
admitted-le-limit policies j t [] buckets minute limits d w f le = omega arith
admitted-le-limit policies j t (r ∷ rs) buckets minute limits d w f le = ground (
  arith,
  (check_many_lem policies r.now r.family r.identities buckets minute limits d w.0.2).0,
  (check_many_lem policies r.now r.family r.identities buckets minute limits d w.0.2).1 j,
  room_of_any policies r.now buckets (keys_of r.family r.identities) j,
  IsFrom-check_many policies r.now t w.0.0 j r.family r.identities buckets d w.0.2 f,
  check_many-Distinct policies r.now r.family r.identities buckets d,
  admitted-le-limit policies j t rs (serve policies r buckets).0 minute limits
      (check_many-Distinct policies r.now r.family r.identities buckets d) w.1,
)
