-- ===== src/Cafe/Hub.antt =====
-- apps/api/src/cafe.rs: `CafeHub`'s table of rooms: creation, lookup, and each handler on the room
-- that it names. The locks make each call one step.
use wfchat.Base.{
  ℕ, zero, suc, ◌+◌, ◌-◌, ◌*◌, ◌/◌, ◌%◌, ◌^◌, Bool, false, not, ◌&&◌, ◌||◌, List, [], ◌∷◌, Option,
  none, some, Text, Map, insert, retain, values, map, filter, find, any, all, length, is_empty, leb,
  ltb, nat_beq, nat_eq, list_beq, trim, if◌then◌else◌,
}
use wfchat.Cafe.F32.{F32}
use wfchat.Cafe.Activity.{for_round}
use wfchat.Cafe.Room.{CafeRoom, CafeRoomSummary, room_capacity, room_summary}
use wfchat.Cafe.Presence.{CafeJoinError, room_not_found, room_full}

abbrev hex_digit : ℕ → ℕ
hex_digit d = if ltb d 10 then b'0' + d else b'A' + (d - 10)

-- `format!("{:06X}", value & 0xFF_FFFF)`.
unfoldable pub code_of : ℕ → Text
code_of value =
    hex_digit (value / 16 ^ 5 % 16)
    ∷ hex_digit (value / 16 ^ 4 % 16)
    ∷ hex_digit (value / 16 ^ 3 % 16)
    ∷ hex_digit (value / 16 ^ 2 % 16)
    ∷ hex_digit (value / 16 % 16)
    ∷ hex_digit (value % 16)
    ∷ []

abbrev to_ascii_uppercase : ℕ → ℕ
to_ascii_uppercase c = if leb b'a' c && leb c b'z' then c - 32 else c

abbrev is_ascii_hexdigit : ℕ → Bool
is_ascii_hexdigit c =
    (leb b'0' c && leb c b'9') || (leb b'a' c && leb c b'f') || (leb b'A' c && leb c b'F')

-- `str::len`: the bytes of the UTF-8 form.
abbrev pub utf8_len : Text → ℕ
utf8_len [] = 0
utf8_len (c ∷ s) =
    (if ltb c 0x80 then 1 else if ltb c 0x800 then 2 else if ltb c 0x10000 then 3 else 4)
    + utf8_len s

unfoldable pub normalize_invite_code : Text → Option Text
normalize_invite_code value =
    let normalized = map to_ascii_uppercase (trim value) in
    if nat_beq (utf8_len normalized) 6 && all is_ascii_hexdigit normalized
    then some normalized
    else none

pub data CodeResult : Type 0 where
  found : CafeRoomSummary → CodeResult
  refused : CafeJoinError → CodeResult

-- A limit in seconds is over.
abbrev since_over : ℕ → ℕ → Option ℕ → Bool
since_over now ttl none = false
since_over now ttl (some since) = leb (ttl * 1_000_000_000) (now - since)

module _ {f : F32} where
  abbrev pub code_taken : Text → Map ℕ (CafeRoom f) → Bool
  code_taken code rooms = any (λ room. list_beq room.invite_code code) (values rooms)

  -- The loop counts on from the seed, a `u128` that wraps, until a code is free.
  unfoldable pub free_code : ℕ → ℕ → Map ℕ (CafeRoom f) → Option Text
  free_code zero value rooms = none
  free_code (suc fuel) value rooms =
      let rest = free_code fuel ((value + 1) % 2 ^ 128) rooms in
      if code_taken (code_of value) rooms then rest else some (code_of value)

  -- One try more than there are rooms is enough while there are fewer rooms than codes.
  unfoldable pub unique_invite_code : ℕ → Map ℕ (CafeRoom f) → Option Text
  unfolding free_code code_of
  unique_invite_code seed rooms = free_code (suc (length rooms)) seed rooms

  -- The fields that `new_room` sets; `id` is the new `Uuid`, `instant` the monotonic clock.
  abbrev pub empty_room : ℕ → ℕ → ℕ → Bool → Text → CafeRoom f
  empty_room id now instant is_private invite_code = record {
    id = id;
    invite_code = invite_code;
    is_private = is_private;
    players = [];
    activity = for_round f now 1 0;
    chat_history = [];
    sender = [];
    movement_sender = record { revision = 0; players = [] };
    revision = 0;
    movement_dirty = false;
    movement_tick_stop = false;
    created_at = instant;
    ever_joined = false;
    empty_since = none;
  }

  -- `none` where the search for a code does not end.
  unfoldable pub new_room : ℕ → ℕ → ℕ → Bool → Map ℕ (CafeRoom f) → Option (CafeRoom f)
  unfolding unique_invite_code
  new_room id now instant is_private rooms =
      let code = unique_invite_code id rooms in
      elim code [ none ↦ none | some c ↦ some (empty_room id now instant is_private c) ]

  abbrev pub put_room : CafeRoom f → Map ℕ (CafeRoom f) → Map ℕ (CafeRoom f)
  put_room room rooms = insert room.id room rooms

  unfoldable pub create_room :
      ℕ → ℕ → ℕ → Bool → Map ℕ (CafeRoom f) → Option (Map ℕ (CafeRoom f) × CafeRoomSummary)
  create_room id now instant is_private rooms =
      let created = new_room id now instant is_private rooms in
      elim created [ none ↦ none | some room ↦ some (put_room room rooms, room_summary room) ]

  abbrev pub is_open : CafeRoom f → Bool
  is_open room = not room.is_private && ltb (length room.players) room_capacity

  -- `max_by_key`: of several rooms with most players, the last.
  abbrev pub busier : CafeRoom f → Option (CafeRoom f) → Option (CafeRoom f)
  busier room none = some room
  busier room (some later) =
      if ltb (length later.players) (length room.players) then some room else some later

  unfoldable pub busiest : List (CafeRoom f) → Option (CafeRoom f)
  busiest [] = none
  busiest (room ∷ rooms) = busier room (busiest rooms)

  unfoldable pub open_room : Map ℕ (CafeRoom f) → Option (CafeRoom f)
  unfolding busiest
  open_room rooms = busiest (filter is_open (values rooms))

  unfoldable pub find_by_invite_code : Text → Map ℕ (CafeRoom f) → CodeResult
  find_by_invite_code code rooms = elim (normalize_invite_code code) [
    | none ↦ refused room_not_found
    | some normalized ↦ elim (find (λ room. list_beq room.invite_code normalized) (values rooms)) [
      | none ↦ refused room_not_found
      | some room ↦
          if leb room_capacity (length room.players)
          then refused room_full
          else found (room_summary room)
    ]
  ]

  -- Whether `cleanup_at` removes the room.
  unfoldable pub is_expired : ℕ → ℕ → ℕ → CafeRoom f → Bool
  is_expired never_joined_ttl empty_ttl now room =
      if is_empty room.players
      then (if room.ever_joined
          then since_over now empty_ttl room.empty_since
          else leb (never_joined_ttl * 1_000_000_000) (now - room.created_at))
      else false

  unfoldable pub cleanup_rooms : ℕ → ℕ → ℕ → Map ℕ (CafeRoom f) → Map ℕ (CafeRoom f)
  unfolding is_expired
  cleanup_rooms never_joined_ttl empty_ttl now rooms =
      retain (λ id room. not (is_expired never_joined_ttl empty_ttl now room)) rooms
