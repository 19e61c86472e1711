-- ===== src/Chat/Context.antt =====
-- apps/api/src/chat/messages.rs: `bounded_chat_history`, `ensure_chat_has_turn_capacity`,
-- `normalize_user_timezone`, and the guards of `prepare_chat_completion_context`.
use wfchat.Base.{
  ℕ, ◌+◌, ◌-◌, Bool, false, not, ◌&&◌, ◌||◌, List, [], ◌∷◌, Option, none, some, Text, codes, length,
  take, reverse, is_empty, trim, if◌then◌else◌, ltb, leb, usize_max,
}
use wfchat.Errors.{AppResult, ok, err, reasoned, bad_request, not_found, message_size_limit}
use wfchat.Chat.{StoredMessage, AiMessage, to_ai_message}
use wfchat.Quota.Daily.{chat_storage_limit_error}

-- The loop, on the messages from the newest on.
unfoldable pub select_messages : ℕ → List StoredMessage → List AiMessage
select_messages remaining_chars [] = []
select_messages remaining_chars (message ∷ messages) =
    let message_chars = length message.content in
    let rest = select_messages (remaining_chars - message_chars) messages in
    if ltb remaining_chars message_chars then [] else to_ai_message message ∷ rest

unfoldable pub bounded_chat_history : List StoredMessage → ℕ → ℕ → List AiMessage
unfolding select_messages
bounded_chat_history messages max_messages max_chars =
    reverse (select_messages max_chars (take max_messages (reverse messages)))

-- `checked_add` at `usize`.
abbrev pub checked_add : Option ℕ → ℕ → Option ℕ
checked_add none n = none
checked_add (some m) n = if leb (m + n) usize_max then some (m + n) else none

abbrev pub is_within : ℕ → Option ℕ → Bool
is_within maximum none = false
is_within maximum (some n) = leb n maximum

unfoldable pub stored_chars : Option ℕ → List StoredMessage → Option ℕ
stored_chars total [] = total
stored_chars total (message ∷ messages) =
    stored_chars (checked_add total (length message.content)) messages

pub record ChatStorageLimits : Type 0 where
  pub max_messages_per_chat : ℕ  -- usize
  pub max_stored_chars_per_chat : ℕ  -- usize

unfoldable pub ensure_chat_has_turn_capacity :
    List StoredMessage → Text → ChatStorageLimits → AppResult (Unit {0})
unfolding stored_chars chat_storage_limit_error
ensure_chat_has_turn_capacity messages user_content limits =
    let message_count_fits =
      is_within limits.max_messages_per_chat (checked_add (some (length messages)) 2) in
    let stored_chars_fit =
      is_within limits.max_stored_chars_per_chat
        (checked_add (stored_chars (some 0) messages) (length user_content)) in
    if not message_count_fits || not stored_chars_fit then err chat_storage_limit_error else ok tt

module _ (is_timezone : Text → Bool) where
  abbrev known_timezone : Option Text → Text
  known_timezone none = codes "UTC"
  known_timezone (some value) = if is_timezone (trim value) then trim value else codes "UTC"

  -- The crate `chrono_tz` knows the names.
  unfoldable pub normalize_user_timezone : Option Text → Text
  normalize_user_timezone value = known_timezone value

-- The guards before the chat is loaded; `attachments` is their number.
unfoldable pub check_message : Text → ℕ → ℕ → Bool → AppResult Text
check_message content attachments message_max_chars image_upload_enabled =
    let trimmed = trim content in
    if is_empty trimmed && leb attachments 0
    then err (bad_request (codes "message content is empty"))
    else if ltb message_max_chars (length trimmed)
    then err
        (reasoned 400 (codes "bad request: message content is too long") message_size_limit none)
    else if ltb 0 attachments && not image_upload_enabled
    then err not_found
    else ok trimmed
