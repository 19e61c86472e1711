-- ===== src/Cafe/Room.antt =====
-- apps/api/src/cafe.rs: a room with its players, what it shows of them, and what it sends.
pub mod History
use wfchat.Base.{
  ℕ, zero, suc, ◌+◌, ◌-◌, ◌%◌, ◌^◌, Bool, true, false, List, [], ◌∷◌, ◌++◌, Option, none, some,
  Text, codes, Map, values, length, drop, leb, ltb, nat_eq, nat_beq, if◌then◌else◌, min, map,
  u64_max,
}
use wfchat.Cafe.F32.{F32, whole}
use wfchat.Cafe.Activity.{
  CafeActivity, CafeActivityId, cafe_map_interaction_target, for_round, Place,
}

abbrev pub room_capacity : ℕ
room_capacity = 8

abbrev pub chat_history_limit : ℕ
chat_history_limit = 30

-- apps/api/src/store/mod.rs.
pub record OwnerScope : Type 0 where
  pub session_id : ℕ
  pub user_id : Option ℕ

pub data Direction : Type 0 where
  up down left right : Direction

-- `last_move_at` and `created_at` are of the monotonic clock, in nanoseconds.
pub record CafePlayer (f : F32) : Type 0 where
  pub id : ℕ
  pub owner : OwnerScope
  pub name : Text
  pub color : Text
  pub x : f.Carrier
  pub y : f.Carrier
  pub direction : Direction
  pub moving : Bool
  pub carried_tea : ℕ  -- u8
  pub carried_rush_ingredient_ids : List Text
  pub carried_order_id : Option Text
  pub equipped_cosmetic : Option Text
  pub avatar_id : Text
  pub last_sequence : ℕ  -- u64
  pub last_move_at : ℕ
  pub connection_id : ℕ

pub record CafePlayerState (f : F32) : Type 0 where
  pub id : ℕ
  pub name : Text
  pub color : Text
  pub x : f.Carrier
  pub y : f.Carrier
  pub direction : Direction
  pub moving : Bool
  pub carried_tea : ℕ
  pub carried_order_id : Option Text
  pub equipped_cosmetic : Option Text
  pub avatar_id : Text

pub record CafeMovementPlayerState (f : F32) : Type 0 where
  pub id : ℕ
  pub x : f.Carrier
  pub y : f.Carrier
  pub direction : Direction
  pub moving : Bool

pub record CafeMovementUpdate (f : F32) : Type 0 where
  pub revision : ℕ
  pub players : List (CafeMovementPlayerState f)

pub record CafeAikoState (f : F32) : Type 0 where
  pub x : f.Carrier
  pub y : f.Carrier
  pub motion : Text

pub data CafeChatEventKind : Type 0 where
  message joined left : CafeChatEventKind

pub record CafeChatEvent : Type 0 where
  pub id : ℕ
  pub kind : CafeChatEventKind
  pub player_id : ℕ
  pub player_name : Text
  pub text : Option Text
  pub created_at : ℕ

pub record CafeDynamicRoomState (f : F32) : Type 0 where
  pub id : ℕ
  pub invite_code : Text
  pub is_private : Bool
  pub capacity : ℕ
  pub players : List (CafePlayerState f)
  pub activity : CafeActivity f
  pub aiko : CafeAikoState f

-- The messages that a room sends to all that are in it.
pub data CafeServerMessage (f : F32) : Type 0 where
  snapshot : ℕ → CafeDynamicRoomState f → CafeServerMessage f
  dialogue : Text → Text → CafeServerMessage f
  emote : ℕ → Text → CafeServerMessage f
  chat_event : CafeChatEvent → CafeServerMessage f
  reward : ℕ → ℕ → CafeServerMessage f

-- `sender` is what was handed to the broadcast channel, oldest first, and `movement_sender` the value
-- of the watch channel. `movement_tick_stop` says whether the room has a movement tick to stop.
pub record CafeRoom (f : F32) : Type 0 where
  pub id : ℕ
  pub invite_code : Text
  pub is_private : Bool
  pub players : Map ℕ (CafePlayer f)
  pub activity : CafeActivity f
  pub chat_history : List CafeChatEvent
  pub sender : List (CafeServerMessage f)
  pub movement_sender : CafeMovementUpdate f
  pub revision : ℕ  -- u64
  pub movement_dirty : Bool
  pub movement_tick_stop : Bool
  pub created_at : ℕ
  pub ever_joined : Bool
  pub empty_since : Option ℕ

pub record CafeRoomSummary : Type 0 where
  pub id : ℕ
  pub invite_code : Text
  pub is_private : Bool
  pub player_count : ℕ
  pub capacity : ℕ
  pub activity_id : CafeActivityId
  pub activity_completed : Bool

-- A machine integer's `saturating_add(1)`.
abbrev pub next_saturating : ℕ → ℕ → ℕ
next_saturating limit n = min (n + 1) limit

module _ {ℓ} {A : Type ℓ} (key : A → ℕ) where
  insert_sorted : A → List A → List A
  insert_sorted a [] = a ∷ []
  insert_sorted a (b ∷ bs) = if leb (key a) (key b) then a ∷ b ∷ bs else b ∷ insert_sorted a bs

  -- `sort_by_key`, which is stable.
  unfoldable pub sort_by_key : List A → List A
  unfolding insert_sorted
  sort_by_key [] = []
  sort_by_key (a ∷ as') = insert_sorted a (sort_by_key as')

-- The loop that shortens the history takes one event at a time from its front.
abbrev pub trim_history : ℕ → List CafeChatEvent → List CafeChatEvent
trim_history limit [] = []
trim_history limit (e ∷ es) =
    let rest = trim_history limit es in if ltb limit (length (e ∷ es)) then rest else e ∷ es

module _ {f : F32} where
  abbrev player_state : CafePlayer f → CafePlayerState f
  player_state p = record {
    id = p.id;
    name = p.name;
    color = p.color;
    x = p.x;
    y = p.y;
    direction = p.direction;
    moving = p.moving;
    carried_tea = p.carried_tea;
    carried_order_id = p.carried_order_id;
    equipped_cosmetic = p.equipped_cosmetic;
    avatar_id = p.avatar_id;
  }

  unfoldable pub player_states : CafeRoom f → List (CafePlayerState f)
  unfolding sort_by_key
  player_states room = sort_by_key (λ p. p.id) (map player_state (values room.players))

  unfoldable pub aiko_state : CafeRoom f → CafeAikoState f
  aiko_state room =
      let aiko = cafe_map_interaction_target (codes "aiko") in
      record {
        x = whole f aiko.place_x;
        y = whole f aiko.place_y;
        motion = if room.activity.completed then codes "celebrate" else codes "idle";
      }

  unfoldable pub dynamic_room_state : CafeRoom f → CafeDynamicRoomState f
  unfolding player_states aiko_state
  dynamic_room_state room = record {
    id = room.id;
    invite_code = room.invite_code;
    is_private = room.is_private;
    capacity = room_capacity;
    players = player_states room;
    activity = room.activity;
    aiko = aiko_state room;
  }

  unfoldable pub room_summary : CafeRoom f → CafeRoomSummary
  room_summary room = record {
    id = room.id;
    invite_code = room.invite_code;
    is_private = room.is_private;
    player_count = length room.players;
    capacity = room_capacity;
    activity_id = room.activity.id;
    activity_completed = room.activity.completed;
  }

  -- `sender.send(message)`.
  abbrev pub send : CafeServerMessage f → CafeRoom f → CafeRoom f
  send sent room = record room { sender = room.sender ++ sent ∷ [] }

  unfoldable pub next_room_revision : CafeRoom f → CafeRoom f
  next_room_revision room = record room { revision = next_saturating u64_max room.revision }

  -- The revision that the source returns is the new room's.
  unfoldable pub broadcast_room_snapshot : CafeRoom f → CafeRoom f
  unfolding next_room_revision
  broadcast_room_snapshot room =
      let room' = next_room_revision room in
      send (snapshot room'.revision (dynamic_room_state room'))
        (record room' { movement_dirty = false })

  abbrev movement_state : CafePlayer f → CafeMovementPlayerState f
  movement_state p = record {
    id = p.id;
    x = p.x;
    y = p.y;
    direction = p.direction;
    moving = p.moving;
  }

  unfoldable pub broadcast_room_movement : CafeRoom f → CafeRoom f
  unfolding next_room_revision
  broadcast_room_movement room =
      let room' = next_room_revision room in
      record room' {
        movement_dirty = false;
        movement_sender = record {
          revision = room'.revision;
          players = sort_by_key (λ p. p.id) (map movement_state (values room'.players));
        };
      }

  unfoldable pub push_chat_event : CafeChatEvent → CafeRoom f → CafeRoom f
  push_chat_event event room = send (chat_event event) (record room {
    chat_history = trim_history chat_history_limit (room.chat_history ++ event ∷ []);
  })

  -- `event_id` is the new `Uuid`, `now` the wall clock.
  unfoldable pub push_left_event : ℕ → ℕ → ℕ → Text → CafeRoom f → CafeRoom f
  unfolding push_chat_event
  push_left_event event_id now player_id player_name room =
      push_chat_event
        (record {
          id = event_id;
          kind = CafeChatEventKind.left;
          player_id = player_id;
          player_name = player_name;
          text = none;
          created_at = now;
        })
        room
