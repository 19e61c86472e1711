-- ===== src/RateLimit/Buckets/Window.antt =====
-- `check_many` meets its specification, and a window admits no more than its limit.
use wfchat.Base.{
  ℕ, ◌+◌, ◌^◌, ◌<◌, ◌≡◌, refl, Bool, true, List, [], ◌∷◌, Distinct, if◌then◌else◌, all, any, ◌&&◌,
  arith, ◌==◌,
}
use wfchat.Errors.{ok, err, rate_limited}
use wfchat.RateLimit.Policy.{
  RateLimitFamily, RateLimitIdentity, RateLimitKey, RateLimitPolicies, policy_for, key_eq,
  key_beq_iff,
}
use wfchat.RateLimit.Buckets.Usage.{
  usage, HasPerMinute, has_room, IsUnique, usage-retain_active, usage-check_keys,
  outcome-check_keys, IsLive-check_keys, usage-count_keys,
}
use wfchat.RateLimit.Buckets.{Buckets, retain_active, check_keys, keys_of, check_many}

abbrev pub HasU32Limits : RateLimitPolicies → Type 0
HasU32Limits policies = (key : RateLimitKey) → (policy_for policies key).max_requests < 2 ^ 32

all-has_room-retain :
    (policies : RateLimitPolicies) (now : ℕ) (buckets : Buckets) (keys : List RateLimitKey)
    → Distinct buckets
    → all (has_room policies now (retain_active now buckets)) keys
      ≡ all (has_room policies now buckets) keys
all-has_room-retain policies now buckets [] d = refl
all-has_room-retain policies now buckets (k ∷ ks) d =
    ground
      (arith, usage-retain_active now k buckets d, all-has_room-retain policies now buckets ks d)

pub room_of_any :
    (policies : RateLimitPolicies) (now : ℕ) (buckets : Buckets) (keys : List RateLimitKey)
    (j : RateLimitKey)
    → all (has_room policies now buckets) keys ≡ true
    → any (λ k. k == j) keys ≡ true
    → has_room policies now buckets j ≡ true
room_of_any policies now buckets [] j h e = ground arith
room_of_any policies now buckets (k ∷ ks) j h e =
    ground (arith, key_beq_iff k j, room_of_any policies now buckets ks j)

module _ (policies : RateLimitPolicies) (now : ℕ) (family : RateLimitFamily)
    (identities : List RateLimitIdentity) (buckets : Buckets) (minute : HasPerMinute policies)
    (limits : HasU32Limits policies) (d : Distinct buckets)
    (u : IsUnique (keys_of family identities)) where
  abbrev room : Bool
  room = all (has_room policies now buckets) (keys_of family identities)

  outcome-check_many :
      (check_many policies now family identities buckets).1
      ≡ (if room then ok tt else err rate_limited)
  unfolding check_many
  outcome-check_many = ground (
    arith,
    outcome-check_keys policies now minute (keys_of family identities) (retain_active now buckets),
    all-has_room-retain policies now buckets (keys_of family identities) d,
  )

  usage-check_many :
      (j : RateLimitKey)
      → usage now j (check_many policies now family identities buckets).0
        ≡ usage now j buckets
          + (if room && any (λ k. k == j) (keys_of family identities) then 1 else 0)
  unfolding check_many
  usage-check_many j = ground (
    arith,
    outcome-check_keys policies now minute keys kept,
    all-has_room-retain policies now buckets keys d,
    usage-retain_active now j buckets d,
    usage-check_keys policies now minute keys kept j,
    room_of_any policies now buckets keys j,
    IsLive-check_keys policies now minute keys kept j,
    usage-count_keys now keys (check_keys policies now keys kept).0 j u,
    limits j,
  )
    where
      keys : List RateLimitKey
      keys = keys_of family identities

      kept : Buckets
      kept = retain_active now buckets

-- A call passes exactly when each of its keys has room in its window; then it counts once for each
-- of them, and else for none.
-- (Each limit stands for a window of a minute, and no key is listed twice.)
pub check_many_lem :
    (policies : RateLimitPolicies) (now : ℕ) (family : RateLimitFamily)
    (identities : List RateLimitIdentity) (buckets : Buckets)
    → HasPerMinute policies
    → HasU32Limits policies
    → Distinct buckets
    → IsUnique (keys_of family identities)
    → let keys = keys_of family identities in
      let room = all (has_room policies now buckets) keys in
      let (buckets', outcome) = check_many policies now family identities buckets in
      (outcome ≡ (if room then ok tt else err rate_limited))
      × ((j : RateLimitKey)
          → usage now j buckets'
            ≡ usage now j buckets + (if room && any (λ k. k == j) keys then 1 else 0))
check_many_lem policies now family identities buckets minute limits d u = (
  outcome-check_many policies now family identities buckets minute limits d u,
  usage-check_many policies now family identities buckets minute limits d u,
)
