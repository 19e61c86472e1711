-- ===== src/Config.antt =====
-- apps/api/src/config.rs: the configuration of the server and its defaults.
pub mod Values
pub mod Origin
pub mod Read
pub mod Limits
pub mod Validate
pub mod Attachments
pub mod Security
pub mod PublicOrigins
pub mod Printed
pub mod Sound
pub mod Valid
use wfchat.Base.{ℕ, ◌*◌, Bool, true, false, List, [], Option, Text}
use wfchat.Cafe.F32.{F32}

pub data AppEnvironment : Type 0 where
  development production : AppEnvironment

abbrev pub is_production_environment : AppEnvironment → Bool
is_production_environment production = true
is_production_environment development = false

pub record CafeSecurityConfig : Type 0 where
  pub max_sockets_per_session : ℕ  -- usize
  pub max_sockets_per_ip : ℕ  -- usize
  pub max_sockets_global : ℕ  -- usize
  pub room_creations_per_session : ℕ  -- u32
  pub room_creations_per_ip : ℕ  -- u32
  pub room_creations_global : ℕ  -- u32
  pub room_creation_window_seconds : ℕ  -- u64
  pub websocket_max_bytes : ℕ  -- usize
  pub never_joined_ttl_seconds : ℕ  -- u64
  pub empty_room_ttl_seconds : ℕ  -- u64
  pub cleanup_interval_seconds : ℕ  -- u64
  pub telemetry_interval_seconds : ℕ  -- u64

pub record ChatSecurityConfig : Type 0 where
  pub message_max_chars : ℕ  -- usize
  pub request_max_bytes : ℕ  -- usize
  pub context_max_messages : ℕ  -- usize
  pub context_max_chars : ℕ  -- usize
  pub output_max_tokens : ℕ  -- u32
  pub output_max_chars : ℕ  -- usize
  pub ai_connect_timeout_seconds : ℕ  -- u64
  pub ai_total_timeout_seconds : ℕ  -- u64
  pub ai_idle_timeout_seconds : ℕ  -- u64
  pub max_concurrent_generations : ℕ  -- usize
  pub max_concurrent_per_session : ℕ  -- usize
  pub requests_per_minute : ℕ  -- u32
  pub global_requests_per_minute : ℕ  -- u32
  pub registered_daily_quota : ℕ  -- u32
  pub guest_daily_quota : ℕ  -- u32
  pub global_daily_generation_limit : ℕ  -- u32
  pub max_chats_per_owner : ℕ  -- usize
  pub max_messages_per_chat : ℕ  -- usize
  pub max_stored_chars_per_chat : ℕ  -- usize
  pub image_upload_enabled : Bool
  pub transcription_enabled : Bool
  pub tts_enabled : Bool

-- A network is a value of `IpNet`.
pub record SecurityConfig (IpNet : Type 0) : Type 0 where
  pub environment : AppEnvironment
  pub allow_session_header : Bool
  pub trust_proxy_headers : Bool
  pub trusted_proxy_cidrs : List IpNet
  pub guest_requests_per_minute : ℕ  -- u32
  pub guest_global_requests_per_minute : ℕ  -- u32
  pub chat : ChatSecurityConfig
  pub cafe : CafeSecurityConfig

abbrev pub default_cafe : CafeSecurityConfig
default_cafe = record {
  max_sockets_per_session = 2;
  max_sockets_per_ip = 32;
  max_sockets_global = 512;
  room_creations_per_session = 5;
  room_creations_per_ip = 30;
  room_creations_global = 300;
  room_creation_window_seconds = 10 * 60;
  websocket_max_bytes = 16 * 1024;
  never_joined_ttl_seconds = 10 * 60;
  empty_room_ttl_seconds = 2 * 60;
  cleanup_interval_seconds = 30;
  telemetry_interval_seconds = 60;
}

abbrev pub default_chat : ChatSecurityConfig
default_chat = record {
  message_max_chars = 4_000;
  request_max_bytes = 64 * 1024;
  context_max_messages = 40;
  context_max_chars = 32_000;
  output_max_tokens = 1_024;
  output_max_chars = 16_384;
  ai_connect_timeout_seconds = 10;
  ai_total_timeout_seconds = 60;
  ai_idle_timeout_seconds = 20;
  max_concurrent_generations = 8;
  max_concurrent_per_session = 2;
  requests_per_minute = 20;
  global_requests_per_minute = 120;
  registered_daily_quota = 50;
  guest_daily_quota = 50;
  global_daily_generation_limit = 2_000;
  max_chats_per_owner = 50;
  max_messages_per_chat = 100;
  max_stored_chars_per_chat = 500_000;
  image_upload_enabled = true;
  transcription_enabled = true;
  tts_enabled = true;
}

abbrev pub default_security : {IpNet : Type 0} → SecurityConfig IpNet
default_security = record {
  environment = development;
  allow_session_header = true;
  trust_proxy_headers = false;
  trusted_proxy_cidrs = [];
  guest_requests_per_minute = 10;
  guest_global_requests_per_minute = 60;
  chat = default_chat;
  cafe = default_cafe;
}

pub record Config (f : F32) (IpNet : Type 0) : Type 0 where
  pub app_host : Text
  pub app_port : ℕ  -- u16
  pub frontend_origin : Text
  pub ai_provider : Text
  pub ai_voice_provider : Text
  pub ai_voice_model : Text
  pub ai_voice_id : Text
  pub ai_voice_format : Text
  pub ai_voice_instructions : Option Text
  pub ai_voice_speech_text_policy : Text
  pub ai_transcription_provider : Text
  pub ai_transcription_model : Text
  pub ai_transcription_prompt : Option Text
  pub database_url : Text
  pub openai_api_key : Option Text
  pub openai_base_url : Text
  pub openai_model : Text
  pub lmstudio_base_url : Text
  pub lmstudio_model : Text
  pub xai_api_key : Option Text
  pub xai_base_url : Text
  pub xai_model : Text
  pub voicevox_base_url : Text
  pub voicevox_speaker_id : Text
  pub voicevox_credit : Option Text
  pub voicevox_speed_scale : Option f.Carrier
  pub voicevox_pitch_scale : Option f.Carrier
  pub voicevox_intonation_scale : Option f.Carrier
  pub voicevox_volume_scale : Option f.Carrier
  pub voicevox_pre_phoneme_length : Option f.Carrier
  pub voicevox_post_phoneme_length : Option f.Carrier
  pub google_client_id : Option Text
  pub chat_attachment_upload_dir : Text
  pub chat_attachment_max_bytes : ℕ  -- usize
  pub chat_attachment_max_images_per_message : ℕ  -- usize
  pub chat_attachment_max_width : ℕ  -- u32
  pub chat_attachment_max_height : ℕ  -- u32
  pub chat_attachment_max_pixels : ℕ  -- u64
  pub chat_attachment_decoder_max_alloc_bytes : ℕ  -- u64
  pub chat_attachment_max_concurrent_decodes : ℕ  -- usize
  pub chat_attachment_max_total_bytes_per_message : ℕ  -- usize
  pub chat_attachment_max_storage_bytes_per_owner : ℕ  -- usize
  pub security : SecurityConfig IpNet
