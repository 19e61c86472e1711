-- ===== src/Quota/Configured.antt =====
-- The daily quotas with the limits of a configuration that was read.
use wfchat.Base.{ℕ, ◌≤◌, ◌≡◌, true, List, Option, Text, arith}
use wfchat.Base.Results.{ok}
use wfchat.Cafe.F32.{F32}
use wfchat.Config.{Config}
use wfchat.Config.Origin.{Url}
use wfchat.Config.Validate.{is_production}
use wfchat.Config.Limits.{
  production_chat_registered_daily_quota, production_chat_guest_daily_quota,
  production_chat_global_daily_generation_limit,
}
use wfchat.Config.Security.{from_env}
use wfchat.Config.Sound.{IsHardened}
use wfchat.Config.Valid.{IsValid, from_env-IsValid}
use wfchat.Quota.{OwnerDay, OwnerKind, guest, account}
use wfchat.Quota.Usage.{usage, total_on}
use wfchat.Quota.Daily.{quota_limits}
use wfchat.Quota.Admission.{IsPositive}
use wfchat.Quota.Invariant.{limit_of}
use wfchat.Quota.Runs.{QuotaEvent, quota_run, IsOrdered, no_quotas, quota_run-le-limit}

-- The most that an owner may use of a day in production.
abbrev pub production_limit_of : OwnerKind → ℕ
production_limit_of guest = production_chat_guest_daily_quota
production_limit_of account = production_chat_registered_daily_quota

module _ {f : F32} {IpNet Ip : Type 0} (parse_url : Text → Option Url) (parse_ip : Text → Option Ip)
    (max_permits : ℕ) where
  quota_limits-IsPositive :
      (config : Config f IpNet)
      → IsValid parse_url parse_ip max_permits config
      → IsPositive (quota_limits config)
  unfolding quota_limits
  quota_limits-IsPositive config h = ground (arith, h.secure.chat_nonzero)

  quota_limits-le-production :
      (config : Config f IpNet) (kind : OwnerKind)
      → IsHardened parse_url parse_ip config
      → (limit_of (quota_limits config) kind ≤ production_limit_of kind)
        × ((quota_limits config).global_limit ≤ production_chat_global_daily_generation_limit)
  unfolding quota_limits
  quota_limits-le-production config kind h = ground (arith, h.limits)

  module _ (parse_cidr : Text → Option IpNet) (parse_f32 : Text → Option f.Carrier) where
    -- With a configuration that `from_env` returned for production, whatever is reserved, started,
    -- released and committed, no owner uses more generations of a day, and no day has more in all, than
    -- the greatest that production allows. (The tables began empty, the clock does not go back.)
    pub quota_run-le-production :
        (env : Text → Option Text) (config : Config f IpNet) (events : List QuotaEvent)
        (key : OwnerDay) (date : ℕ)
        → from_env parse_url parse_ip max_permits parse_cidr parse_f32 env ≡ ok config
        → is_production config ≡ true
        → IsOrdered 0 events
        → let tables = quota_run (quota_limits config) no_quotas events in
          (usage key tables.owner_quotas ≤ production_limit_of key.owner.kind)
          × (total_on date tables.global_quotas ≤ production_chat_global_daily_generation_limit)
    quota_run-le-production env config events key date read prod ordered =
        let valid = from_env-IsValid parse_url parse_ip max_permits parse_cidr parse_f32 env read in
        let bounds =
          quota_run-le-limit (quota_limits config) (quota_limits-IsPositive config valid) events
            ordered in
        let le = quota_limits-le-production config key.owner.kind (valid.hardened prod).0 in
        (ground (arith, bounds.0 key, le.0), ground (arith, bounds.1 date, le.1))
