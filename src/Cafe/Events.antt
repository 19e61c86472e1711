-- ===== src/Cafe/Events.antt =====
-- apps/api/src/cafe.rs: all that happens to a room, one call of the hub at a time. Which call comes
-- next, with its clocks and new ids, is the environment's choice.
use wfchat.Base.{ℕ, List, [], ◌∷◌, Option, none, Text, ◌≡◌}
use wfchat.Cafe.F32.{F32}
use wfchat.Cafe.Room.{CafeRoom, CafePlayer, OwnerScope}
use wfchat.Cafe.Presence.{join_room, leave_room}
use wfchat.Cafe.Interact.{interact_room}
use wfchat.Cafe.Rounds.{
  start_next_round_room, expire_cafe_rush_room, reward_room, equip_cosmetic_room, equip_avatar_room,
}
use wfchat.Cafe.Movement.{PlayerMovement, update_player_room, flush_room}
use wfchat.Cafe.Chat.{emote_room, chat_room}

pub data RoomEvent (f : F32) : Type 0 where
  joins : ℕ → ℕ → CafePlayer f → RoomEvent f
  leaves : ℕ → ℕ → ℕ → ℕ → ℕ → RoomEvent f
  moves : ℕ → ℕ → ℕ → PlayerMovement f → RoomEvent f
  interacts : ℕ → ℕ → ℕ → Text → RoomEvent f
  emotes : ℕ → ℕ → Text → RoomEvent f
  chats : (Text → Text) → ℕ → ℕ → ℕ → ℕ → Text → RoomEvent f
  ticks : RoomEvent f
  next_round_due : ℕ → ℕ → RoomEvent f
  rush_over : ℕ → ℕ → RoomEvent f
  rewarded : List ℕ → ℕ → RoomEvent f
  cosmetic_equipped : OwnerScope → Option Text → RoomEvent f
  avatar_equipped : OwnerScope → Text → RoomEvent f

unfoldable pub room_step : {f : F32} → RoomEvent f → CafeRoom f → CafeRoom f
room_step (joins event_id now player) room = (join_room event_id now player room).0
room_step (leaves event_id now instant player_id connection_id) room =
    leave_room event_id now instant player_id connection_id room
room_step (moves instant player_id connection_id movement) room =
    update_player_room instant player_id connection_id movement room
room_step (interacts now player_id connection_id target_id) room =
    (interact_room now player_id connection_id target_id room).0
room_step (emotes player_id connection_id emote) room =
    emote_room player_id connection_id emote room
room_step (chats lower event_id now player_id connection_id text) room =
    (chat_room lower event_id now player_id connection_id text room).0
room_step ticks room = (flush_room room).0
room_step (next_round_due now completed_round) room =
    (start_next_round_room now completed_round room).0
room_step (rush_over now round_number) room = (expire_cafe_rush_room now round_number room).0
room_step (rewarded player_ids earned_stars) room = reward_room player_ids earned_stars room
room_step (cosmetic_equipped owner cosmetic_id) room = equip_cosmetic_room owner cosmetic_id room
room_step (avatar_equipped owner avatar_id) room = equip_avatar_room owner avatar_id room

unfoldable pub room_run : {f : F32} → List (RoomEvent f) → CafeRoom f → CafeRoom f
room_run [] room = room
room_run (e ∷ es) room = room_run es (room_step e room)

-- A player who joins has nothing in hand, as `new_player_with_avatar` makes it.
abbrev pub HasEmptyHands : {f : F32} → CafePlayer f → Type 0
HasEmptyHands player =
    (player.carried_tea ≡ 0)
    × (player.carried_rush_ingredient_ids ≡ [])
    × (player.carried_order_id ≡ none)

abbrev pub IsFair : {f : F32} → RoomEvent f → Type 0
IsFair (joins event_id now player) = HasEmptyHands player
IsFair _ = Unit
