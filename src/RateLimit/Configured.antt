-- ===== src/RateLimit/Configured.antt =====
-- apps/api/src/rate_limit.rs with the limits of a configuration that was read.
use wfchat.Base.{ℕ, ◌≤◌, ◌≡◌, true, List, [], Option, Text, All, arith, lookup}
use wfchat.Base.Results.{ok}
use wfchat.Cafe.F32.{F32}
use wfchat.Config.{Config}
use wfchat.Config.Origin.{Url}
use wfchat.Config.Validate.{is_production}
use wfchat.Config.Limits.{
  production_auth_guest_requests_per_minute, production_auth_guest_global_requests_per_minute,
  production_chat_requests_per_minute, production_chat_global_requests_per_minute,
}
use wfchat.Config.Security.{from_env}
use wfchat.Config.Sound.{IsHardened}
use wfchat.Config.Valid.{from_env-IsValid}
use wfchat.RateLimit.Policy.{
  RateLimitPolicies, RateLimitKey, default_policies, per_minute, policy_for, from_config, key_eq,
}
use wfchat.RateLimit.Buckets.Usage.{HasPerMinute}
use wfchat.RateLimit.Buckets.Window.{HasU32Limits}
use wfchat.RateLimit.Buckets.Runs.{Request, IsWithin, admitted, admitted-le-limit}

-- The most that each family may have in production.
unfoldable pub production_policies : RateLimitPolicies
unfolding default_policies per_minute
production_policies = record default_policies {
  guest_sessions = per_minute production_auth_guest_requests_per_minute;
  guest_global = per_minute production_auth_guest_global_requests_per_minute;
  chat_messages = per_minute production_chat_requests_per_minute;
  chat_global = per_minute production_chat_global_requests_per_minute;
}

module _ {f : F32} {IpNet : Type 0} where
  from_config-HasPerMinute : (config : Config f IpNet) → HasPerMinute (from_config config)
  unfolding policy_for from_config
  from_config-HasPerMinute config key = ground arith

production-HasU32Limits : HasU32Limits production_policies
unfolding policy_for production_policies
production-HasU32Limits key = ground arith

module _ {f : F32} {IpNet Ip : Type 0} (parse_url : Text → Option Url)
    (parse_ip : Text → Option Ip) where
  policy_for-le-production :
      (config : Config f IpNet) (key : RateLimitKey)
      → IsHardened parse_url parse_ip config
      → (policy_for (from_config config) key).max_requests
        ≤ (policy_for production_policies key).max_requests
  unfolding policy_for from_config production_policies
  policy_for-le-production config key h = ground (arith, h.limits)

  module _ (max_permits : ℕ) (parse_cidr : Text → Option IpNet)
      (parse_f32 : Text → Option f.Carrier) where
    -- With a configuration that `from_env` returned for production, in a minute that begins with an empty
    -- limiter no key is admitted more often than the greatest limit that production may have, whatever
    -- the calls of that minute and their order are. (Each call names each of its keys once.)
    pub admitted-le-production :
        (env : Text → Option Text) (config : Config f IpNet) (key : RateLimitKey) (t : ℕ)
        (rs : List Request)
        → from_env parse_url parse_ip max_permits parse_cidr parse_f32 env ≡ ok config
        → is_production config ≡ true
        → All (IsWithin t) rs
        → admitted (from_config config) key rs []
          ≤ (policy_for production_policies key).max_requests
    unfolding lookup
    admitted-le-production env config key t rs read prod near =
        let valid = from_env-IsValid parse_url parse_ip max_permits parse_cidr parse_f32 env read in
        let le = λ (k : RateLimitKey). policy_for-le-production config k (valid.hardened prod).0 in
        let bound =
          admitted-le-limit (from_config config) key t rs [] (from_config-HasPerMinute config)
            (λ k. ground (arith, le k, production-HasU32Limits k)) tt near tt (omega arith) in
        ground (arith, bound, le key)
