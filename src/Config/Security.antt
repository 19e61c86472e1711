-- ===== src/Config/Security.antt =====
-- apps/api/src/config.rs: `validate_security_config`, and `from_env` as a whole. `max_permits` is
-- `Semaphore::MAX_PERMITS` of the crate `tokio`.
use wfchat.Base.{
  ℕ, not, ◌&&◌, ◌||◌, List, [], ◌∷◌, ◌++◌, Option, Text, codes, is_empty, trim, any, split, ltb,
  nat_eq, show, if◌then◌else◌,
}
use wfchat.Base.Results.{ok, ◌>>=◌, ◌>>◌, refuse_if}
use wfchat.Cafe.F32.{F32}
use wfchat.Config.{SecurityConfig, Config, CafeSecurityConfig}
use wfchat.Config.Values.{Outcome}
use wfchat.Config.Origin.{Url, validate_production_origin}
use wfchat.Config.Read.{security_from_env, config_from_env}
use wfchat.Config.Limits.{
  production_ai_connect_timeout_seconds, production_ai_idle_timeout_seconds,
  production_ai_total_timeout_seconds, production_auth_guest_global_requests_per_minute,
  production_auth_guest_requests_per_minute, production_cafe_cleanup_interval_seconds,
  production_cafe_empty_room_ttl_seconds, production_cafe_max_sockets_global,
  production_cafe_max_sockets_per_ip, production_cafe_max_sockets_per_session,
  production_cafe_never_joined_ttl_seconds, production_cafe_room_creation_window_seconds_min,
  production_cafe_room_creations_global, production_cafe_room_creations_per_ip,
  production_cafe_room_creations_per_session, production_cafe_telemetry_interval_seconds,
  production_cafe_websocket_max_bytes, production_chat_global_daily_generation_limit,
  production_chat_global_requests_per_minute, production_chat_guest_daily_quota,
  production_chat_max_chats_per_owner, production_chat_max_messages_per_chat,
  production_chat_max_stored_chars_per_chat, production_chat_registered_daily_quota,
  production_chat_requests_per_minute, production_context_max_chars,
  production_context_max_messages, production_max_concurrent_generations,
  production_max_concurrent_per_session, production_message_max_chars, production_output_max_chars,
  production_output_max_tokens, production_request_max_bytes,
}
use wfchat.Config.Validate.{
  is_zero, validate_production_min, validate_maxima, is_production, validate_ai_provider,
  validate_voice_provider, validate_transcription_provider, validate_voice_speech_text_policy,
}
use wfchat.Config.Attachments.{validate_chat_attachment_config}

-- The limits of the cafe and of the chat that must not be 0.
abbrev pub cafe_positive : CafeSecurityConfig → List ℕ
cafe_positive cafe =
    cafe.max_sockets_per_session ∷ cafe.max_sockets_per_ip ∷ cafe.max_sockets_global
    ∷ cafe.room_creations_per_session ∷ cafe.room_creations_per_ip ∷ cafe.room_creations_global
    ∷ cafe.room_creation_window_seconds ∷ cafe.websocket_max_bytes ∷ cafe.never_joined_ttl_seconds
    ∷ cafe.empty_room_ttl_seconds ∷ cafe.cleanup_interval_seconds ∷ cafe.telemetry_interval_seconds
    ∷ []

module _ {IpNet : Type 0} where
  abbrev pub chat_positive : SecurityConfig IpNet → List ℕ
  chat_positive security =
      security.chat.message_max_chars ∷ security.chat.request_max_bytes
      ∷ security.chat.context_max_messages ∷ security.chat.context_max_chars
      ∷ security.chat.output_max_tokens ∷ security.chat.output_max_chars
      ∷ security.chat.ai_connect_timeout_seconds ∷ security.chat.ai_total_timeout_seconds
      ∷ security.chat.ai_idle_timeout_seconds ∷ security.chat.max_concurrent_generations
      ∷ security.chat.max_concurrent_per_session ∷ security.guest_requests_per_minute
      ∷ security.guest_global_requests_per_minute ∷ security.chat.requests_per_minute
      ∷ security.chat.global_requests_per_minute ∷ security.chat.registered_daily_quota
      ∷ security.chat.guest_daily_quota ∷ security.chat.global_daily_generation_limit
      ∷ security.chat.max_chats_per_owner ∷ security.chat.max_messages_per_chat
      ∷ security.chat.max_stored_chars_per_chat ∷ []

  -- Those before and those after the one minimum.
  abbrev pub security_maxima : SecurityConfig IpNet → List (Text × ℕ × ℕ)
  security_maxima security =
      (
        codes "CHAT_MESSAGE_MAX_CHARS",
        security.chat.message_max_chars,
        production_message_max_chars,
      )
      ∷ (
        codes "CHAT_REQUEST_MAX_BYTES",
        security.chat.request_max_bytes,
        production_request_max_bytes,
      )
      ∷ (
        codes "CHAT_CONTEXT_MAX_MESSAGES",
        security.chat.context_max_messages,
        production_context_max_messages,
      )
      ∷ (
        codes "CHAT_CONTEXT_MAX_CHARS",
        security.chat.context_max_chars,
        production_context_max_chars,
      )
      ∷ (
        codes "CHAT_OUTPUT_MAX_TOKENS",
        security.chat.output_max_tokens,
        production_output_max_tokens,
      )
      ∷ (codes "CHAT_OUTPUT_MAX_CHARS", security.chat.output_max_chars, production_output_max_chars)
      ∷ (
        codes "CHAT_AI_CONNECT_TIMEOUT_SECONDS",
        security.chat.ai_connect_timeout_seconds,
        production_ai_connect_timeout_seconds,
      )
      ∷ (
        codes "CHAT_AI_IDLE_TIMEOUT_SECONDS",
        security.chat.ai_idle_timeout_seconds,
        production_ai_idle_timeout_seconds,
      )
      ∷ (
        codes "CHAT_AI_TOTAL_TIMEOUT_SECONDS",
        security.chat.ai_total_timeout_seconds,
        production_ai_total_timeout_seconds,
      )
      ∷ (
        codes "CHAT_MAX_CONCURRENT_GENERATIONS",
        security.chat.max_concurrent_generations,
        production_max_concurrent_generations,
      )
      ∷ (
        codes "CHAT_MAX_CONCURRENT_PER_SESSION",
        security.chat.max_concurrent_per_session,
        production_max_concurrent_per_session,
      )
      ∷ (
        codes "AUTH_GUEST_REQUESTS_PER_MINUTE",
        security.guest_requests_per_minute,
        production_auth_guest_requests_per_minute,
      )
      ∷ (
        codes "AUTH_GUEST_GLOBAL_REQUESTS_PER_MINUTE",
        security.guest_global_requests_per_minute,
        production_auth_guest_global_requests_per_minute,
      )
      ∷ (
        codes "CHAT_REQUESTS_PER_MINUTE",
        security.chat.requests_per_minute,
        production_chat_requests_per_minute,
      )
      ∷ (
        codes "CHAT_GLOBAL_REQUESTS_PER_MINUTE",
        security.chat.global_requests_per_minute,
        production_chat_global_requests_per_minute,
      )
      ∷ (
        codes "CHAT_REGISTERED_DAILY_QUOTA",
        security.chat.registered_daily_quota,
        production_chat_registered_daily_quota,
      )
      ∷ (
        codes "CHAT_GUEST_DAILY_QUOTA",
        security.chat.guest_daily_quota,
        production_chat_guest_daily_quota,
      )
      ∷ (
        codes "CHAT_GLOBAL_DAILY_GENERATION_LIMIT",
        security.chat.global_daily_generation_limit,
        production_chat_global_daily_generation_limit,
      )
      ∷ (
        codes "CHAT_MAX_CHATS_PER_OWNER",
        security.chat.max_chats_per_owner,
        production_chat_max_chats_per_owner,
      )
      ∷ (
        codes "CHAT_MAX_MESSAGES_PER_CHAT",
        security.chat.max_messages_per_chat,
        production_chat_max_messages_per_chat,
      )
      ∷ (
        codes "CHAT_MAX_STORED_CHARS_PER_CHAT",
        security.chat.max_stored_chars_per_chat,
        production_chat_max_stored_chars_per_chat,
      )
      ∷ (
        codes "CAFE_MAX_SOCKETS_PER_SESSION",
        security.cafe.max_sockets_per_session,
        production_cafe_max_sockets_per_session,
      )
      ∷ (
        codes "CAFE_MAX_SOCKETS_PER_IP",
        security.cafe.max_sockets_per_ip,
        production_cafe_max_sockets_per_ip,
      )
      ∷ (
        codes "CAFE_MAX_SOCKETS_GLOBAL",
        security.cafe.max_sockets_global,
        production_cafe_max_sockets_global,
      )
      ∷ (
        codes "CAFE_ROOM_CREATIONS_PER_SESSION",
        security.cafe.room_creations_per_session,
        production_cafe_room_creations_per_session,
      )
      ∷ (
        codes "CAFE_ROOM_CREATIONS_PER_IP",
        security.cafe.room_creations_per_ip,
        production_cafe_room_creations_per_ip,
      )
      ∷ (
        codes "CAFE_ROOM_CREATIONS_GLOBAL",
        security.cafe.room_creations_global,
        production_cafe_room_creations_global,
      )
      ∷ (
        codes "CAFE_WEBSOCKET_MAX_BYTES",
        security.cafe.websocket_max_bytes,
        production_cafe_websocket_max_bytes,
      )
      ∷ []

  abbrev pub lifetime_maxima : SecurityConfig IpNet → List (Text × ℕ × ℕ)
  lifetime_maxima security =
      (
        codes "CAFE_NEVER_JOINED_TTL_SECONDS",
        security.cafe.never_joined_ttl_seconds,
        production_cafe_never_joined_ttl_seconds,
      )
      ∷ (
        codes "CAFE_EMPTY_ROOM_TTL_SECONDS",
        security.cafe.empty_room_ttl_seconds,
        production_cafe_empty_room_ttl_seconds,
      )
      ∷ (
        codes "CAFE_CLEANUP_INTERVAL_SECONDS",
        security.cafe.cleanup_interval_seconds,
        production_cafe_cleanup_interval_seconds,
      )
      ∷ (
        codes "CAFE_TELEMETRY_INTERVAL_SECONDS",
        security.cafe.telemetry_interval_seconds,
        production_cafe_telemetry_interval_seconds,
      )
      ∷ []

module _ {Ip : Type 0} (parse_url : Text → Option Url) (parse_ip : Text → Option Ip) where
  unfoldable pub validate_origins : List Text → Outcome (Unit {0})
  validate_origins [] = ok tt
  validate_origins (origin ∷ origins) = do
    validate_production_origin parse_ip parse_url (trim origin)
    validate_origins origins

module _ {IpNet : Type 0} (max_permits : ℕ) where
  -- What every server has to meet.
  unfoldable pub validate_limits : SecurityConfig IpNet → Outcome (Unit {0})
  validate_limits security = do
    let chat = security.chat
    let cafe = security.cafe
    refuse_if (any is_zero (cafe_positive cafe))
        (codes "cafe security limits must be greater than 0")
    refuse_if
        (ltb cafe.max_sockets_per_ip cafe.max_sockets_per_session
          || ltb cafe.max_sockets_global cafe.max_sockets_per_ip)
        (codes "Cafe socket limits must be ordered session <= IP <= global")
    refuse_if
        (ltb cafe.room_creations_per_ip cafe.room_creations_per_session
          || ltb cafe.room_creations_global cafe.room_creations_per_ip)
        (codes "Cafe room creation limits must be ordered session <= IP <= global")
    refuse_if (any is_zero (chat_positive security))
        (codes "chat security limits must be greater than 0")
    refuse_if (ltb chat.max_concurrent_generations chat.max_concurrent_per_session)
        (codes "CHAT_MAX_CONCURRENT_PER_SESSION must not exceed CHAT_MAX_CONCURRENT_GENERATIONS")
    refuse_if (ltb chat.ai_total_timeout_seconds chat.ai_connect_timeout_seconds)
        (codes "CHAT_AI_CONNECT_TIMEOUT_SECONDS must not exceed CHAT_AI_TOTAL_TIMEOUT_SECONDS")
    refuse_if (ltb chat.ai_total_timeout_seconds chat.ai_idle_timeout_seconds)
        (codes "CHAT_AI_IDLE_TIMEOUT_SECONDS must not exceed CHAT_AI_TOTAL_TIMEOUT_SECONDS")
    refuse_if
        (ltb max_permits chat.max_concurrent_generations
          || ltb max_permits chat.max_concurrent_per_session)
        (codes "chat concurrency limits must not exceed Tokio semaphore maximum ("
          ++ (show max_permits ++ codes ")"))
    refuse_if (security.trust_proxy_headers && is_empty security.trusted_proxy_cidrs)
        (codes "TRUSTED_PROXY_CIDRS must not be empty when TRUST_PROXY_HEADERS=true")

module _ {f : F32} {IpNet Ip : Type 0} (parse_url : Text → Option Url)
    (parse_ip : Text → Option Ip) where
  -- What a production server has to meet beyond the rest.
  unfoldable pub validate_production_security : Config f IpNet → Outcome (Unit {0})
  unfolding validate_maxima validate_production_min validate_origins
  validate_production_security config = do
    refuse_if config.security.allow_session_header
        (codes "ALLOW_SESSION_HEADER must be false in production")
    validate_maxima (security_maxima config.security)
    validate_production_min (codes "CAFE_ROOM_CREATION_WINDOW_SECONDS")
        config.security.cafe.room_creation_window_seconds
        production_cafe_room_creation_window_seconds_min
    validate_maxima (lifetime_maxima config.security)
    validate_origins parse_url parse_ip (split b',' config.frontend_origin)

  module _ (max_permits : ℕ) where
    unfoldable pub validate_security_config : Config f IpNet → Outcome (Unit {0})
    unfolding validate_limits validate_production_security is_production
    validate_security_config config = do
      validate_limits max_permits config.security
      if not (is_production config) then ok tt else validate_production_security config

    unfoldable pub validate : Config f IpNet → Outcome (Unit {0})
    unfolding validate_security_config
    validate config = do
      validate_ai_provider config
      validate_voice_speech_text_policy config.ai_voice_speech_text_policy
      validate_voice_provider config
      validate_transcription_provider config
      validate_chat_attachment_config max_permits config
      validate_security_config config

    module _ (parse_cidr : Text → Option IpNet) (parse_f32 : Text → Option f.Carrier) where
      unfoldable pub from_env : (Text → Option Text) → Outcome (Config f IpNet)
      from_env env = do
        security ← security_from_env env parse_cidr
        config ← config_from_env env parse_cidr f parse_f32 security
        validate config
        ok config
