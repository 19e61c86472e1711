-- ===== src/Config/Valid.antt =====
-- apps/api/src/config.rs: what a configuration that was read meets.
use wfchat.Base.{
  ℕ, ◌+◌, ◌*◌, ◌≤◌, ◌<◌, ◌≡◌, refl, subst, true, false, Option, Text, All, arith, trim, is_empty,
  usize_max, i64_max,
}
use wfchat.Base.Results.{Result, ok, ok->>=}
use wfchat.Cafe.F32.{F32}
use wfchat.Config.{Config}
use wfchat.Config.Origin.{Url}
use wfchat.Config.Validate.{
  require_non_empty, is_production, validate_ai_provider, validate_voice_provider,
  validate_transcription_provider, validate_voice_speech_text_policy,
}
use wfchat.Config.Attachments.{attachment_maxima, validate_chat_attachment_config}
use wfchat.Config.Read.{security_from_env, config_from_env}
use wfchat.Config.Security.{validate, from_env}
use wfchat.Config.Sound.{
  WithinMaximum, IsSecure, IsHardened, validate_maxima-All, validate_security_config_lem,
}

of_ok : {A : Type 0} {a b : A} (m : Result Text A) → m ≡ ok a → m ≡ ok b → a ≡ b
of_ok m h h' = cc

module _ {f : F32} {IpNet : Type 0} where
  pub record AttachmentsFit (max_permits : ℕ) (config : Config f IpNet) : Type 0 where
    pub upload_dir : is_empty (trim config.chat_attachment_upload_dir) ≡ false
    pub images : 0 < config.chat_attachment_max_images_per_message
    pub size :
        (0 < config.chat_attachment_max_width)
        × (0 < config.chat_attachment_max_height)
        × (0 < config.chat_attachment_max_pixels)
        × (0 < config.chat_attachment_decoder_max_alloc_bytes)
    pub bytes :
        (0 < config.chat_attachment_max_bytes)
        × (config.chat_attachment_max_bytes ≤ config.chat_attachment_max_total_bytes_per_message)
        × (config.chat_attachment_max_bytes + 64 * 1024 ≤ usize_max)
    pub storage :
        (0 < config.chat_attachment_max_storage_bytes_per_owner)
        × (config.chat_attachment_max_storage_bytes_per_owner ≤ i64_max)
    pub decodes :
        (0 < config.chat_attachment_max_concurrent_decodes)
        × (config.chat_attachment_max_concurrent_decodes ≤ max_permits)

  module _ (max_permits : ℕ) where
    validate_chat_attachment_config-AttachmentsFit :
        (config : Config f IpNet)
        → validate_chat_attachment_config max_permits config ≡ ok tt
        → AttachmentsFit max_permits config
    unfolding validate_chat_attachment_config require_non_empty
    validate_chat_attachment_config-AttachmentsFit config h = ground arith

    validate_chat_attachment_config-All :
        (config : Config f IpNet)
        → validate_chat_attachment_config max_permits config ≡ ok tt
        → is_production config ≡ true
        → All WithinMaximum (attachment_maxima config)
    unfolding validate_chat_attachment_config
    validate_chat_attachment_config-All config h prod =
        ground (arith, validate_maxima-All (attachment_maxima config))

module _ {f : F32} {IpNet Ip : Type 0} (parse_url : Text → Option Url) (parse_ip : Text → Option Ip)
    (max_permits : ℕ) where
  pub record IsValid (config : Config f IpNet) : Type 0 where
    pub secure : IsSecure max_permits config.security
    pub attachments : AttachmentsFit max_permits config
    pub hardened :
        is_production config ≡ true
        → IsHardened parse_url parse_ip config × All WithinMaximum (attachment_maxima config)

  validate-IsValid :
      (config : Config f IpNet)
      → validate parse_url parse_ip max_permits config ≡ ok tt
      → IsValid config
  unfolding validate
  validate-IsValid config h =
      let (u0, provider, h0) = ok->>= (validate_ai_provider config) _ h in
      let (u1, policy, h1) =
        ok->>= (validate_voice_speech_text_policy config.ai_voice_speech_text_policy) _ h0 in
      let (u2, voice, h2) = ok->>= (validate_voice_provider config) _ h1 in
      let (u3, transcription, h3) = ok->>= (validate_transcription_provider config) _ h2 in
      let (u4, attachments, security) =
        ok->>= (validate_chat_attachment_config max_permits config) _ h3 in
      let safe = validate_security_config_lem parse_url parse_ip max_permits config security in
      record {
        secure = safe.0;
        attachments = validate_chat_attachment_config-AttachmentsFit max_permits config attachments;
        hardened = λ prod.
            (safe.1 prod, validate_chat_attachment_config-All max_permits config attachments prod);
      }

  -- Every configuration that `from_env` returns is valid: the limits of the cafe and of the chats are
  -- positive and ordered, trusted proxies are named where their headers are trusted, the attachment
  -- limits fit each other and their types; in production, moreover, the session header is off, no limit
  -- is above its maximum, and every origin is an https origin of a public host.
  pub from_env-IsValid :
      (parse_cidr : Text → Option IpNet) (parse_f32 : Text → Option f.Carrier)
      (env : Text → Option Text) {config : Config f IpNet}
      → from_env parse_url parse_ip max_permits parse_cidr parse_f32 env ≡ ok config
      → IsValid config
  unfolding from_env
  from_env-IsValid parse_cidr parse_f32 env h =
      let (security, read, h0) = ok->>= (security_from_env env parse_cidr) _ h in
      let (config', built, h1) =
        ok->>= (config_from_env env parse_cidr f parse_f32 security) _ h0 in
      let (u, valid, same) = ok->>= (validate parse_url parse_ip max_permits config') _ h1 in
      subst IsValid (of_ok _ refl same) (validate-IsValid config' valid)
