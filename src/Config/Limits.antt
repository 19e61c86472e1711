-- ===== src/Config/Limits.antt =====
-- apps/api/src/config.rs: the greatest values of a production server.
use wfchat.Base.{ℕ, ◌*◌}

abbrev pub production_message_max_chars : ℕ
production_message_max_chars = 16_000

abbrev pub production_request_max_bytes : ℕ
production_request_max_bytes = 262_144

abbrev pub production_context_max_messages : ℕ
production_context_max_messages = 200

abbrev pub production_context_max_chars : ℕ
production_context_max_chars = 200_000

abbrev pub production_output_max_tokens : ℕ
production_output_max_tokens = 8_192

abbrev pub production_output_max_chars : ℕ
production_output_max_chars = 65_536

abbrev pub production_ai_connect_timeout_seconds : ℕ
production_ai_connect_timeout_seconds = 30

abbrev pub production_ai_idle_timeout_seconds : ℕ
production_ai_idle_timeout_seconds = 120

abbrev pub production_ai_total_timeout_seconds : ℕ
production_ai_total_timeout_seconds = 300

abbrev pub production_max_concurrent_generations : ℕ
production_max_concurrent_generations = 128

abbrev pub production_max_concurrent_per_session : ℕ
production_max_concurrent_per_session = 8

abbrev pub production_auth_guest_requests_per_minute : ℕ
production_auth_guest_requests_per_minute = 10

abbrev pub production_auth_guest_global_requests_per_minute : ℕ
production_auth_guest_global_requests_per_minute = 60

abbrev pub production_chat_requests_per_minute : ℕ
production_chat_requests_per_minute = 20

abbrev pub production_chat_global_requests_per_minute : ℕ
production_chat_global_requests_per_minute = 120

abbrev pub production_chat_registered_daily_quota : ℕ
production_chat_registered_daily_quota = 50

abbrev pub production_chat_guest_daily_quota : ℕ
production_chat_guest_daily_quota = 50

abbrev pub production_chat_global_daily_generation_limit : ℕ
production_chat_global_daily_generation_limit = 2_000

abbrev pub production_chat_max_chats_per_owner : ℕ
production_chat_max_chats_per_owner = 50

abbrev pub production_chat_max_messages_per_chat : ℕ
production_chat_max_messages_per_chat = 100

abbrev pub production_chat_max_stored_chars_per_chat : ℕ
production_chat_max_stored_chars_per_chat = 500_000

abbrev pub production_chat_attachment_max_bytes : ℕ
production_chat_attachment_max_bytes = 10 * 1024 * 1024

abbrev pub production_chat_attachment_max_images_per_message : ℕ
production_chat_attachment_max_images_per_message = 4

abbrev pub production_chat_attachment_max_width : ℕ
production_chat_attachment_max_width = 8_192

abbrev pub production_chat_attachment_max_height : ℕ
production_chat_attachment_max_height = 8_192

abbrev pub production_chat_attachment_max_pixels : ℕ
production_chat_attachment_max_pixels = 20_000_000

abbrev pub production_chat_attachment_decoder_max_alloc_bytes : ℕ
production_chat_attachment_decoder_max_alloc_bytes = 128 * 1024 * 1024

abbrev pub production_chat_attachment_max_concurrent_decodes : ℕ
production_chat_attachment_max_concurrent_decodes = 4

abbrev pub production_chat_attachment_max_total_bytes_per_message : ℕ
production_chat_attachment_max_total_bytes_per_message = 20 * 1024 * 1024

abbrev pub production_chat_attachment_max_storage_bytes_per_owner : ℕ
production_chat_attachment_max_storage_bytes_per_owner = 200 * 1024 * 1024

abbrev pub production_cafe_max_sockets_per_session : ℕ
production_cafe_max_sockets_per_session = 2

abbrev pub production_cafe_max_sockets_per_ip : ℕ
production_cafe_max_sockets_per_ip = 32

abbrev pub production_cafe_max_sockets_global : ℕ
production_cafe_max_sockets_global = 512

abbrev pub production_cafe_room_creations_per_session : ℕ
production_cafe_room_creations_per_session = 5

abbrev pub production_cafe_room_creations_per_ip : ℕ
production_cafe_room_creations_per_ip = 30

abbrev pub production_cafe_room_creations_global : ℕ
production_cafe_room_creations_global = 300

abbrev pub production_cafe_websocket_max_bytes : ℕ
production_cafe_websocket_max_bytes = 16 * 1024

abbrev pub production_cafe_room_creation_window_seconds_min : ℕ
production_cafe_room_creation_window_seconds_min = 10 * 60

abbrev pub production_cafe_never_joined_ttl_seconds : ℕ
production_cafe_never_joined_ttl_seconds = 10 * 60

abbrev pub production_cafe_empty_room_ttl_seconds : ℕ
production_cafe_empty_room_ttl_seconds = 2 * 60

abbrev pub production_cafe_cleanup_interval_seconds : ℕ
production_cafe_cleanup_interval_seconds = 30

abbrev pub production_cafe_telemetry_interval_seconds : ℕ
production_cafe_telemetry_interval_seconds = 60
