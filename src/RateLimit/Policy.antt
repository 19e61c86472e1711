-- ===== src/RateLimit/Policy.antt =====
-- apps/api/src/rate_limit.rs: the policies, and the keys that they are looked up by.
use wfchat.Cafe.F32.{F32}
use wfchat.Config.{Config}
use wfchat.Base.{
  ℕ, ◌*◌, ◌≡◌, ◌↔◌, Bool, true, false, ◌&&◌, Text, Eq, nat_beq, list_beq, nat_eq, list_eq,
  list_beq_iff, nat_beq_iff, arith,
}

-- Instants and durations are in nanoseconds.
abbrev pub from_secs : ℕ → ℕ
from_secs n = n * 1_000_000_000

abbrev pub default_window : ℕ
default_window = from_secs 60

pub record RateLimitPolicy : Type 0 where
  pub max_requests : ℕ  -- u32
  pub window : ℕ

unfoldable pub per_minute : ℕ → RateLimitPolicy
per_minute max_requests = record { max_requests = max_requests; window = default_window }

pub record RateLimitPolicies : Type 0 where
  pub guest_sessions : RateLimitPolicy
  pub guest_global : RateLimitPolicy
  pub chat_messages : RateLimitPolicy
  pub assistant_speech : RateLimitPolicy
  pub user_transcription : RateLimitPolicy
  pub image_upload : RateLimitPolicy
  pub chat_global : RateLimitPolicy

unfoldable pub default_policies : RateLimitPolicies
unfolding per_minute
default_policies = record {
  guest_sessions = per_minute 10;
  guest_global = per_minute 60;
  chat_messages = per_minute 20;
  assistant_speech = per_minute 10;
  user_transcription = per_minute 6;
  image_upload = per_minute 12;
  chat_global = per_minute 120;
}

module _ {f : F32} {IpNet : Type 0} where
  unfoldable pub from_config : Config f IpNet → RateLimitPolicies
  unfolding default_policies per_minute
  from_config config = record default_policies {
    guest_sessions = per_minute config.security.guest_requests_per_minute;
    guest_global = per_minute config.security.guest_global_requests_per_minute;
    chat_messages = per_minute config.security.chat.requests_per_minute;
    chat_global = per_minute config.security.chat.global_requests_per_minute;
  }

pub data RateLimitFamily : Type 0 where
  guest_sessions chat_messages assistant_speech user_transcription image_upload : RateLimitFamily

-- A `Uuid` is its number.
pub data RateLimitIdentity : Type 0 where
  session : ℕ → RateLimitIdentity
  ip : Text → RateLimitIdentity
  global : RateLimitIdentity

pub record RateLimitKey : Type 0 where
  pub family : RateLimitFamily
  pub identity : RateLimitIdentity

unfoldable pub with_family_limit :
    RateLimitPolicies → RateLimitFamily → RateLimitPolicy → RateLimitPolicies
with_family_limit policies guest_sessions policy = record policies { guest_sessions = policy }
with_family_limit policies chat_messages policy = record policies { chat_messages = policy }
with_family_limit policies assistant_speech policy = record policies { assistant_speech = policy }
with_family_limit policies user_transcription policy = record policies {
  user_transcription = policy;
}
with_family_limit policies image_upload policy = record policies { image_upload = policy }

-- The families other than `guest_sessions` and `chat_messages` have one limit for both.
policy_by : RateLimitPolicies → RateLimitFamily → RateLimitIdentity → RateLimitPolicy
policy_by policies guest_sessions global = policies.guest_global
policy_by policies chat_messages global = policies.chat_global
policy_by policies assistant_speech global = policies.assistant_speech
policy_by policies user_transcription global = policies.user_transcription
policy_by policies image_upload global = policies.image_upload
policy_by policies guest_sessions _ = policies.guest_sessions
policy_by policies chat_messages _ = policies.chat_messages
policy_by policies assistant_speech _ = policies.assistant_speech
policy_by policies user_transcription _ = policies.user_transcription
policy_by policies image_upload _ = policies.image_upload

unfoldable pub policy_for : RateLimitPolicies → RateLimitKey → RateLimitPolicy
unfolding policy_by
policy_for policies key = policy_by policies key.family key.identity

abbrev family_tag : RateLimitFamily → ℕ
family_tag guest_sessions = 0
family_tag chat_messages = 1
family_tag assistant_speech = 2
family_tag user_transcription = 3
family_tag image_upload = 4

family_tag-injective : (a b : RateLimitFamily) → family_tag a ≡ family_tag b → a ≡ b
family_tag-injective a b h = ground arith

abbrev pub identity_beq : RateLimitIdentity → RateLimitIdentity → Bool
identity_beq (session a) (session b) = nat_beq a b
identity_beq (ip a) (ip b) = list_beq a b
identity_beq global global = true
identity_beq _ _ = false

identity_beq_iff : (a b : RateLimitIdentity) → (identity_beq a b ≡ true) ↔ (a ≡ b)
identity_beq_iff (session a) (session b) = ground (arith, nat_beq_iff a b)
identity_beq_iff (ip a) (ip b) = ground (arith, list_beq_iff a b)
identity_beq_iff a b = ground arith

abbrev pub key_beq : RateLimitKey → RateLimitKey → Bool
key_beq a b =
    nat_beq (family_tag a.family) (family_tag b.family) && identity_beq a.identity b.identity

pub key_beq_iff : (a b : RateLimitKey) → (key_beq a b ≡ true) ↔ (a ≡ b)
key_beq_iff a b =
    ground (arith, family_tag-injective a.family b.family, identity_beq_iff a.identity b.identity)

instance abbrev pub key_eq : Eq RateLimitKey
key_eq = record { beq = key_beq; beq_iff = key_beq_iff }
