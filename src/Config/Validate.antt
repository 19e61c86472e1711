-- ===== src/Config/Validate.antt =====
-- apps/api/src/config.rs: the checks of single values, and of the providers.
use wfchat.Base.{
  ℕ, Bool, true, false, not, ◌&&◌, List, [], ◌∷◌, ◌++◌, Option, none, some, Text, codes, is_empty,
  trim, ltb, nat_beq, list_beq, nat_eq, show, if◌then◌else◌,
}
use wfchat.Base.Results.{ok, err, ◌>>◌, refuse_if}
use wfchat.Cafe.F32.{F32, whole}
use wfchat.Config.{Config, is_production_environment}
use wfchat.Config.Values.{Outcome, is_one_of}

abbrev pub is_zero : ℕ → Bool
is_zero n = nat_beq n 0

unfoldable pub validate_production_max : Text → ℕ → ℕ → Outcome (Unit {0})
validate_production_max key value maximum =
    refuse_if (ltb maximum value)
      (key ++ (codes " must not exceed " ++ (show maximum ++ codes " in production")))

unfoldable pub validate_production_min : Text → ℕ → ℕ → Outcome (Unit {0})
validate_production_min key value minimum = refuse_if (ltb value minimum) (
    key
    ++ (codes " must be at least "
        ++ (show minimum ++ (codes " in production (received " ++ (show value ++ codes ")")))))

-- One call of `validate_production_max` after another, each with `?`.
unfoldable pub validate_maxima : List (Text × ℕ × ℕ) → Outcome (Unit {0})
unfolding validate_production_max
validate_maxima [] = ok tt
validate_maxima ((key, value, maximum) ∷ rest) = do
  validate_production_max key value maximum
  validate_maxima rest

abbrev has_text : Option Text → Bool
has_text none = false
has_text (some value) = not (is_empty (trim value))

unfoldable pub require_non_empty : Option Text → Text → Outcome (Unit {0})
require_non_empty value message = refuse_if (not (has_text value)) message

unfoldable pub validate_voice_format : Text → Outcome (Unit {0})
validate_voice_format format =
    refuse_if (not (is_one_of format (codes "mp3" ∷ codes "wav" ∷ [])))
      (codes "AI_VOICE_FORMAT=" ++ (format ++ codes " is invalid. Allowed values: mp3, wav"))

unfoldable pub validate_voice_speech_text_policy : Text → Outcome (Unit {0})
validate_voice_speech_text_policy policy =
    refuse_if (not (is_one_of policy (codes "original" ∷ codes "japanese_translation" ∷ []))) (
      codes "AI_VOICE_SPEECH_TEXT_POLICY="
      ++ (policy ++ codes " is invalid. Allowed values: original, japanese_translation"))

module _ (f : F32) where
  abbrev is_non_negative : Option f.Carrier → Bool
  is_non_negative none = true
  is_non_negative (some value) = f.is_finite value && f.le (whole f 0) value

  unfoldable pub validate_non_negative_f32 : Option f.Carrier → Text → Outcome (Unit {0})
  validate_non_negative_f32 value message = refuse_if (not (is_non_negative value)) message

  abbrev is_finite_number : Option f.Carrier → Bool
  is_finite_number none = true
  is_finite_number (some value) = f.is_finite value

  unfoldable pub validate_finite_f32 : Option f.Carrier → Text → Outcome (Unit {0})
  validate_finite_f32 value message = refuse_if (not (is_finite_number value)) message

module _ {f : F32} {IpNet : Type 0} where
  unfoldable pub is_production : Config f IpNet → Bool
  is_production config = is_production_environment config.security.environment

  unfoldable pub active_model : Config f IpNet → Text
  active_model config =
      if list_beq config.ai_provider (codes "openai")
      then config.openai_model
      else if list_beq config.ai_provider (codes "lmstudio")
      then config.lmstudio_model
      else if list_beq config.ai_provider (codes "xai")
      then config.xai_model
      else if list_beq config.ai_provider (codes "mock")
      then codes "mock-waifu"
      else codes "unknown"

  unfoldable pub validate_ai_provider : Config f IpNet → Outcome (Unit {0})
  unfolding require_non_empty
  validate_ai_provider config =
      if list_beq config.ai_provider (codes "mock")
      then ok tt
      else if list_beq config.ai_provider (codes "openai")
      then (do
        require_non_empty config.openai_api_key
            (codes "OPENAI_API_KEY is required when AI_PROVIDER=openai")
        require_non_empty (some config.openai_model)
            (codes "OPENAI_MODEL is required when AI_PROVIDER=openai"))
      else if list_beq config.ai_provider (codes "xai")
      then (do
        require_non_empty config.xai_api_key (codes "XAI_API_KEY is required when AI_PROVIDER=xai")
        require_non_empty (some config.xai_model)
            (codes "XAI_MODEL is required when AI_PROVIDER=xai"))
      else if list_beq config.ai_provider (codes "lmstudio")
      then require_non_empty (some config.lmstudio_model)
          (codes "LMSTUDIO_MODEL is required when AI_PROVIDER=lmstudio")
      else err (
          codes "AI_PROVIDER="
          ++ (config.ai_provider
              ++ codes " is invalid. Allowed values: mock, openai, xai, lmstudio"))

  unfoldable pub validate_voice_provider : Config f IpNet → Outcome (Unit {0})
  unfolding require_non_empty validate_voice_format validate_finite_f32 validate_non_negative_f32
  validate_voice_provider config =
      if is_one_of config.ai_voice_provider (codes "disabled" ∷ codes "mock" ∷ [])
      then ok tt
      else if list_beq config.ai_voice_provider (codes "openai")
      then (do
        require_non_empty config.openai_api_key
            (codes "OPENAI_API_KEY is required when AI_VOICE_PROVIDER=openai")
        require_non_empty (some config.ai_voice_model)
            (codes "AI_VOICE_MODEL is required when AI_VOICE_PROVIDER=openai")
        require_non_empty (some config.ai_voice_id)
            (codes "AI_VOICE_ID is required when AI_VOICE_PROVIDER=openai")
        validate_voice_format config.ai_voice_format)
      else if list_beq config.ai_voice_provider (codes "voicevox")
      then (do
        require_non_empty (some config.voicevox_base_url)
            (codes "VOICEVOX_BASE_URL is required when AI_VOICE_PROVIDER=voicevox")
        require_non_empty (some config.voicevox_speaker_id)
            (codes "VOICEVOX_SPEAKER_ID is required when AI_VOICE_PROVIDER=voicevox")
        validate_finite_f32 f config.voicevox_pitch_scale
            (codes "VOICEVOX_PITCH_SCALE must be a finite number")
        validate_non_negative_f32 f config.voicevox_speed_scale
            (codes "VOICEVOX_SPEED_SCALE must be a non-negative number")
        validate_non_negative_f32 f config.voicevox_intonation_scale
            (codes "VOICEVOX_INTONATION_SCALE must be a non-negative number")
        validate_non_negative_f32 f config.voicevox_volume_scale
            (codes "VOICEVOX_VOLUME_SCALE must be a non-negative number")
        validate_non_negative_f32 f config.voicevox_pre_phoneme_length
            (codes "VOICEVOX_PRE_PHONEME_LENGTH must be a non-negative number")
        validate_non_negative_f32 f config.voicevox_post_phoneme_length
            (codes "VOICEVOX_POST_PHONEME_LENGTH must be a non-negative number"))
      else err (
          codes "AI_VOICE_PROVIDER="
          ++ (config.ai_voice_provider
              ++ codes " is invalid. Allowed values: disabled, mock, openai, voicevox"))

  unfoldable pub validate_transcription_provider : Config f IpNet → Outcome (Unit {0})
  unfolding require_non_empty
  validate_transcription_provider config =
      if is_one_of config.ai_transcription_provider (codes "disabled" ∷ codes "mock" ∷ [])
      then ok tt
      else if list_beq config.ai_transcription_provider (codes "openai")
      then (do
        require_non_empty config.openai_api_key
            (codes "OPENAI_API_KEY is required when AI_TRANSCRIPTION_PROVIDER=openai")
        require_non_empty (some config.ai_transcription_model)
            (codes "AI_TRANSCRIPTION_MODEL is required when AI_TRANSCRIPTION_PROVIDER=openai"))
      else err (
          codes "AI_TRANSCRIPTION_PROVIDER="
          ++ (config.ai_transcription_provider
              ++ codes " is invalid. Allowed values: disabled, mock, openai"))
