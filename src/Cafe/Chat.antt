-- ===== src/Cafe/Chat.antt =====
-- apps/api/src/cafe.rs: what players say, and how often: the texts that `normalize_*` accept, the
-- socket's message windows, and chat and emotes on the room found.
pub mod Windows
use wfchat.Base.{
  ℕ, ◌-◌, Bool, true, false, ◌&&◌, ◌||◌, List, [], ◌∷◌, ◌++◌, Option, none, some, Text, codes,
  lookup, length, any, is_empty, leb, ltb, nat_beq, list_beq, nat_eq, if◌then◌else◌, is_control,
  is_whitespace,
}
use wfchat.Cafe.F32.{F32}
use wfchat.Cafe.Room.{CafeRoom, CafePlayer, message, emote, push_chat_event, send}

abbrev pub max_messages_per_window : ℕ
max_messages_per_window = 45

abbrev pub message_window : ℕ
message_window = 2_000_000_000

abbrev pub max_chat_messages_per_window : ℕ
max_chat_messages_per_window = 5

abbrev pub chat_message_window : ℕ
chat_message_window = 10_000_000_000

abbrev pub max_chat_message_chars : ℕ
max_chat_message_chars = 200

abbrev pub max_cafe_player_name_chars : ℕ
max_cafe_player_name_chars = 24

pub data CafeChatErrorCode : Type 0 where
  empty too_long links_not_allowed rate_limited : CafeChatErrorCode

pub data ChatResult {ℓ} (A : Type ℓ) : Type ℓ where
  ok : A → ChatResult A
  err : CafeChatErrorCode → ChatResult A

-- The `while` loop at the front of the queue. It keeps a message that is exactly a window old.
unfoldable pub drop_before : ℕ → ℕ → List ℕ → List ℕ
drop_before window now [] = []
drop_before window now (timestamp ∷ timestamps) =
    let rest = drop_before window now timestamps in
    if ltb window (now - timestamp) then rest else timestamp ∷ timestamps

-- `accept_message` and `accept_chat_message` differ in their two constants.
unfoldable pub accept_within : ℕ → ℕ → ℕ → List ℕ → List ℕ × Bool
unfolding drop_before
accept_within limit window now recent =
    let kept = drop_before window now recent in
    if leb limit (length kept) then (kept, false) else (kept ++ now ∷ [], true)

unfoldable pub accept_message : ℕ → List ℕ → List ℕ × Bool
unfolding accept_within
accept_message now recent = accept_within max_messages_per_window message_window now recent

unfoldable pub accept_chat_message : ℕ → List ℕ → List ℕ × Bool
unfolding accept_within
accept_chat_message now recent =
    accept_within max_chat_messages_per_window chat_message_window now recent

abbrev push_word : Text → List Text → List Text
push_word [] words = words
push_word (c ∷ s) words = (c ∷ s) ∷ words

-- The first word of what is left, and the others; a blank ends a word.
unfoldable pub words_from : Text → Text × List Text
words_from [] = ([], [])
words_from (c ∷ s) =
    let (word, words) = words_from s in
    if is_whitespace c then ([], push_word word words) else (c ∷ word, words)

unfoldable pub split_whitespace : Text → List Text
unfolding words_from
split_whitespace s = let (word, words) = words_from s in push_word word words

-- `join(" ")`.
unfoldable pub join_words : List Text → Text
join_words [] = []
join_words (w ∷ []) = w
join_words (w ∷ v ∷ ws) = w ++ (b' ' ∷ join_words (v ∷ ws))

unfoldable pub normalize_spaces : Text → Text
unfolding split_whitespace join_words
normalize_spaces value = join_words (split_whitespace value)

abbrev is_prefix : Text → Text → Bool
is_prefix [] s = true
is_prefix (c ∷ p) [] = false
is_prefix (c ∷ p) (d ∷ s) = nat_beq c d && is_prefix p s

-- `str::contains`.
unfoldable pub contains_text : Text → Text → Bool
contains_text p [] = is_prefix p []
contains_text p (c ∷ s) = is_prefix p (c ∷ s) || contains_text p s

abbrev pub link_prefixes : List Text
link_prefixes = codes "http://" ∷ codes "https://" ∷ codes "www." ∷ []

-- `to_lowercase` is Unicode's, from the standard library: a parameter.
module _ (to_lowercase : Text → Text) where
  unfoldable pub normalize_cafe_chat_message : Text → ChatResult Text
  unfolding normalize_spaces contains_text
  normalize_cafe_chat_message value =
      let normalized = normalize_spaces value in
      if any is_control value
      then err empty
      else if is_empty normalized
      then err empty
      else if ltb max_chat_message_chars (length normalized)
      then err too_long
      else if any (λ prefix. contains_text prefix (to_lowercase normalized)) link_prefixes
      then err links_not_allowed
      else ok normalized

unfoldable pub normalize_cafe_player_name : Text → Option Text
unfolding normalize_spaces
normalize_cafe_player_name value =
    let normalized = normalize_spaces value in
    if any is_control value
    then none
    else if ltb 0 (length normalized) && leb (length normalized) max_cafe_player_name_chars
    then some normalized
    else none

abbrev allowed_emotes : List Text
allowed_emotes = codes "wave" ∷ codes "heart" ∷ codes "happy" ∷ codes "tea" ∷ []

module _ {f : F32} where
  abbrev owned_by : ℕ → Option (CafePlayer f) → Bool
  owned_by connection_id none = false
  owned_by connection_id (some player) = nat_beq player.connection_id connection_id

  unfoldable pub emote_room : ℕ → ℕ → Text → CafeRoom f → CafeRoom f
  emote_room player_id connection_id name room =
      if any (λ allowed. list_beq allowed name) allowed_emotes
        && owned_by connection_id (lookup player_id room.players)
      then send (emote player_id name) room
      else room

  abbrev pub say : ℕ → ℕ → ℕ → ℕ → Text → Option (CafePlayer f) → CafeRoom f → CafeRoom f
  say event_id now player_id connection_id text none room = room
  say event_id now player_id connection_id text (some player) room =
      if nat_beq player.connection_id connection_id
      then push_chat_event
          (record {
            id = event_id;
            kind = message;
            player_id = player_id;
            player_name = player.name;
            text = some text;
            created_at = now;
          })
          room
      else room

  -- What `?` leaves of the call: the error, or the text that is said.
  abbrev pub chat_normalized :
      ℕ → ℕ → ℕ → ℕ → ChatResult Text → CafeRoom f → CafeRoom f × ChatResult (Unit {0})
  chat_normalized event_id now player_id connection_id (err e) room = (room, err e)
  chat_normalized event_id now player_id connection_id (ok text) room =
      (say event_id now player_id connection_id text (lookup player_id room.players) room, ok tt)

  unfoldable pub chat_room :
      (Text → Text) → ℕ → ℕ → ℕ → ℕ → Text → CafeRoom f → CafeRoom f × ChatResult (Unit {0})
  unfolding normalize_cafe_chat_message push_chat_event
  chat_room to_lowercase event_id now player_id connection_id value room =
      chat_normalized event_id now player_id connection_id
        (normalize_cafe_chat_message to_lowercase value) room
