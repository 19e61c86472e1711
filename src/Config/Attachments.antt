-- ===== src/Config/Attachments.antt =====
-- apps/api/src/config.rs: `validate_chat_attachment_config`. `max_permits` is `Semaphore::MAX_PERMITS` of
-- the crate `tokio`.
use wfchat.Base.{
  ℕ, ◌+◌, ◌*◌, List, [], ◌∷◌, ◌++◌, some, Text, codes, ltb, nat_eq, show, if◌then◌else◌, usize_max,
  i64_max,
}
use wfchat.Base.Results.{ok, ◌>>◌, refuse_if}
use wfchat.Cafe.F32.{F32}
use wfchat.Config.{Config}
use wfchat.Config.Values.{Outcome}
use wfchat.Config.Limits.{
  production_chat_attachment_decoder_max_alloc_bytes, production_chat_attachment_max_bytes,
  production_chat_attachment_max_concurrent_decodes, production_chat_attachment_max_height,
  production_chat_attachment_max_images_per_message, production_chat_attachment_max_pixels,
  production_chat_attachment_max_storage_bytes_per_owner,
  production_chat_attachment_max_total_bytes_per_message, production_chat_attachment_max_width,
}
use wfchat.Config.Validate.{is_zero, validate_maxima, require_non_empty, is_production}

module _ {f : F32} {IpNet : Type 0} where
  abbrev pub attachment_maxima : Config f IpNet → List (Text × ℕ × ℕ)
  attachment_maxima config =
      (
        codes "CHAT_ATTACHMENT_MAX_BYTES",
        config.chat_attachment_max_bytes,
        production_chat_attachment_max_bytes,
      )
      ∷ (
        codes "CHAT_ATTACHMENT_MAX_IMAGES_PER_MESSAGE",
        config.chat_attachment_max_images_per_message,
        production_chat_attachment_max_images_per_message,
      )
      ∷ (
        codes "CHAT_ATTACHMENT_MAX_WIDTH",
        config.chat_attachment_max_width,
        production_chat_attachment_max_width,
      )
      ∷ (
        codes "CHAT_ATTACHMENT_MAX_HEIGHT",
        config.chat_attachment_max_height,
        production_chat_attachment_max_height,
      )
      ∷ (
        codes "CHAT_ATTACHMENT_MAX_PIXELS",
        config.chat_attachment_max_pixels,
        production_chat_attachment_max_pixels,
      )
      ∷ (
        codes "CHAT_ATTACHMENT_DECODER_MAX_ALLOC_BYTES",
        config.chat_attachment_decoder_max_alloc_bytes,
        production_chat_attachment_decoder_max_alloc_bytes,
      )
      ∷ (
        codes "CHAT_ATTACHMENT_MAX_CONCURRENT_DECODES",
        config.chat_attachment_max_concurrent_decodes,
        production_chat_attachment_max_concurrent_decodes,
      )
      ∷ (
        codes "CHAT_ATTACHMENT_MAX_TOTAL_BYTES_PER_MESSAGE",
        config.chat_attachment_max_total_bytes_per_message,
        production_chat_attachment_max_total_bytes_per_message,
      )
      ∷ (
        codes "CHAT_ATTACHMENT_MAX_STORAGE_BYTES_PER_OWNER",
        config.chat_attachment_max_storage_bytes_per_owner,
        production_chat_attachment_max_storage_bytes_per_owner,
      )
      ∷ []

  module _ (max_permits : ℕ) where
    unfoldable pub validate_chat_attachment_config : Config f IpNet → Outcome (Unit {0})
    unfolding require_non_empty is_production validate_maxima
    validate_chat_attachment_config config = do
      require_non_empty (some config.chat_attachment_upload_dir)
          (codes "CHAT_ATTACHMENT_UPLOAD_DIR is required")
      refuse_if (is_zero config.chat_attachment_max_bytes)
          (codes "CHAT_ATTACHMENT_MAX_BYTES must be greater than 0")
      refuse_if (is_zero config.chat_attachment_max_images_per_message)
          (codes "CHAT_ATTACHMENT_MAX_IMAGES_PER_MESSAGE must be greater than 0")
      refuse_if (is_zero config.chat_attachment_max_width)
          (codes "CHAT_ATTACHMENT_MAX_WIDTH must be greater than 0")
      refuse_if (is_zero config.chat_attachment_max_height)
          (codes "CHAT_ATTACHMENT_MAX_HEIGHT must be greater than 0")
      refuse_if (is_zero config.chat_attachment_max_pixels)
          (codes "CHAT_ATTACHMENT_MAX_PIXELS must be greater than 0")
      refuse_if (is_zero config.chat_attachment_decoder_max_alloc_bytes)
          (codes "CHAT_ATTACHMENT_DECODER_MAX_ALLOC_BYTES must be greater than 0")
      refuse_if (is_zero config.chat_attachment_max_concurrent_decodes)
          (codes "CHAT_ATTACHMENT_MAX_CONCURRENT_DECODES must be greater than 0")
      refuse_if (is_zero config.chat_attachment_max_total_bytes_per_message)
          (codes "CHAT_ATTACHMENT_MAX_TOTAL_BYTES_PER_MESSAGE must be greater than 0")
      refuse_if (is_zero config.chat_attachment_max_storage_bytes_per_owner)
          (codes "CHAT_ATTACHMENT_MAX_STORAGE_BYTES_PER_OWNER must be greater than 0")
      refuse_if (ltb i64_max config.chat_attachment_max_storage_bytes_per_owner)
          (codes "CHAT_ATTACHMENT_MAX_STORAGE_BYTES_PER_OWNER is too large")
      refuse_if
          (ltb config.chat_attachment_max_total_bytes_per_message config.chat_attachment_max_bytes)
          (codes
            "CHAT_ATTACHMENT_MAX_TOTAL_BYTES_PER_MESSAGE must not be less than CHAT_ATTACHMENT_MAX_BYTES")
      refuse_if (ltb usize_max (config.chat_attachment_max_bytes + 64 * 1024))
          (codes "CHAT_ATTACHMENT_MAX_BYTES is too large")
      refuse_if (ltb max_permits config.chat_attachment_max_concurrent_decodes) (
          codes "CHAT_ATTACHMENT_MAX_CONCURRENT_DECODES must not exceed Tokio semaphore maximum ("
          ++ (show max_permits ++ codes ")"))
      if is_production config then validate_maxima (attachment_maxima config) else ok tt
