-- ===== src/Tests/Chat.antt =====
-- apps/api/src/chat/messages.rs and apps/api/src/session.rs at concrete inputs.
use wfchat.Base.{
  ℕ, zero, suc, ◌≤◌, ◌<◌, ◌≡◌, refl, true, List, [], ◌∷◌, ◌++◌, Option, none, some, Text, codes,
  map, reverse, take, length, arith, nat_beq, nat_eq, if◌then◌else◌, all, pos, is_whitespace,
  is_solid, is_other, split, trim, trim_start,
}
use wfchat.Errors.{AppResult, ok, is_ok}
use wfchat.Chat.{StoredMessage, user, to_ai_message}
use wfchat.Chat.Context.{bounded_chat_history}
use wfchat.Chat.Selection.{total_chars, bounded_chat_history_lem}
use wfchat.Chat.Images.{
  SendMessageAttachmentRequest, ChatAttachmentRecord, chat_attachment_kind_image, check_attachment,
  check_attachments, validate_message_attachment_requests, add_attachment_byte_size,
  is_supported_chat_image_mime_type,
}
use wfchat.Chat.Checked.{IsFresh, Answers, total_bytes, validate_message_attachment_requests-ok}
use wfchat.Chat.Output.{send_chunks, concat, send_chunks-ensure_output_within_limit}
use wfchat.Quota.Daily.{ensure_output_within_limit}
use wfchat.Session.{session_cookie, session_id_from_cookie, find_session, split_once}
use wfchat.Session.Cookies.{
  IsUuidText, session_pair, followed_by, session_id_from_cookie-session_cookie,
  session_id_from_cookie-others,
}
use wfchat.Tests.Config.{production_config}

abbrev said : ℕ → Text → StoredMessage
said n content = record { id = n; role = user; content = content; created_at = n }

abbrev three_messages : List StoredMessage
three_messages = said 1 (codes "hello") ∷ said 2 (codes "hi") ∷ said 3 (codes "bye") ∷ []

bounded_chat_history_lem_example :
    let newest = reverse three_messages in
    (n : ℕ) × (bounded_chat_history three_messages 3 6
      ≡ reverse (map to_ai_message (take n newest)))
    × (n ≤ 3)
    × (total_chars (take n newest) ≤ 6)
    × (n < 3 → n < length newest → 6 < total_chars (take (suc n) newest))
bounded_chat_history_lem_example = bounded_chat_history_lem three_messages 3 6

abbrev a_picture : ChatAttachmentRecord
a_picture = record {
  id = 4;
  chat_id = none;
  message_id = none;
  kind = chat_attachment_kind_image;
  mime_type = codes "image/png";
  byte_size = pos 900;
}

abbrev pictures : ℕ → AppResult (Option ChatAttachmentRecord)
pictures id = if nat_beq id 4 then ok (some a_picture) else ok none

abbrev a_request : SendMessageAttachmentRequest
a_request = record { id = 4; kind = chat_attachment_kind_image }

a_request-accepted :
    validate_message_attachment_requests pictures 1000 2 (a_request ∷ []) ≡ ok (a_picture ∷ [])
unfolding validate_message_attachment_requests check_attachments check_attachment
    add_attachment_byte_size is_supported_chat_image_mime_type
a_request-accepted = refl

validate_message_attachment_requests-ok_example :
    (length (a_request ∷ []) ≤ 2)
    × IsFresh [] (a_request ∷ [])
    × Answers pictures 1000 (a_request ∷ []) (a_picture ∷ [])
    × (total_bytes (a_picture ∷ []) ≤ 1000)
validate_message_attachment_requests-ok_example =
    validate_message_attachment_requests-ok pictures 1000 2 (a_request ∷ []) (a_picture ∷ [])
      a_request-accepted

abbrev two_chunks : List Text
two_chunks = codes "hel" ∷ codes "lo" ∷ []

send_chunks-ensure_output_within_limit_example :
    (is_ok (send_chunks 0 4 two_chunks).1
      ≡ is_ok (ensure_output_within_limit (concat two_chunks) 4))
    × (length (concat (send_chunks 0 4 two_chunks).0) ≤ 4)
send_chunks-ensure_output_within_limit_example =
    send_chunks-ensure_output_within_limit 4 two_chunks (omega arith)

-- An id is as many letters; any text is read as its length.
abbrev print_uuid : ℕ → Text
print_uuid zero = []
print_uuid (suc n) = b'a' ∷ print_uuid n

abbrev parse_uuid : Text → Option ℕ
parse_uuid s = some (length s)

print_uuid-solid : (n : ℕ) → all is_solid (print_uuid n) ≡ true
unfolding is_whitespace
print_uuid-solid zero = refl
print_uuid-solid (suc n) = print_uuid-solid n

print_uuid-other : (n : ℕ) → all (is_other b';') (print_uuid n) ≡ true
print_uuid-other zero = refl
print_uuid-other (suc n) = print_uuid-other n

print_uuid-read : (n : ℕ) → length (print_uuid n) ≡ n
print_uuid-read zero = refl
print_uuid-read (suc n) = omega (arith, print_uuid-read n)

letters-IsUuidText : IsUuidText print_uuid parse_uuid
letters-IsUuidText = record {
  read_back = λ n. ground (arith, print_uuid-read n);
  solid = print_uuid-solid;
  no_semicolon = print_uuid-other;
}

session_id_from_cookie-session_cookie_example :
    session_id_from_cookie parse_uuid (some (session_cookie print_uuid production_config 3))
    ≡ some 3
session_id_from_cookie-session_cookie_example =
    session_id_from_cookie-session_cookie print_uuid parse_uuid letters-IsUuidText 3
      production_config

theme-unnamed : session_id_from_cookie parse_uuid (some (codes "theme=dark")) ≡ none
unfolding session_id_from_cookie find_session split split_once trim trim_start is_whitespace
theme-unnamed = refl

session_id_from_cookie-others_example :
    session_id_from_cookie parse_uuid (
      some (
        codes "theme=dark"
        ++ b';' ∷ (b' ' ∷ (session_pair print_uuid 3 ++ followed_by (some (codes " a=b"))))))
    ≡ some 3
session_id_from_cookie-others_example =
    session_id_from_cookie-others print_uuid parse_uuid letters-IsUuidText 3 (codes "theme=dark")
      (some (codes " a=b")) theme-unnamed
