-- ===== src/Cafe/Capacity/Runs.antt =====
-- Whatever happens to a room, it holds no more players than it may.
use wfchat.Base.{
  ℕ, inl, inr, not, ◌||◌, List, [], ◌∷◌, Option, Text, lookup, is_empty, nat_beq, nat_eq, option_eq,
  list_eq, if-cases, Option-cases, length, ◌≤◌, arith, map_values, length-map_values,
}
use wfchat.Cafe.F32.{F32}
use wfchat.Cafe.Room.{room_capacity, push_chat_event}
use wfchat.Cafe.Rounds.{empty_hands, with_cosmetic, with_avatar}
use wfchat.Cafe.Activity.{cafe_rush}
use wfchat.Cafe.Room.{CafeRoom, OwnerScope, send, reward}
use wfchat.Cafe.Delivery.{is_id, is_intermission}
use wfchat.Cafe.Rounds.{
  start_next_round_room, expire_cafe_rush_room, reward_room, equip_cosmetic_room, equip_avatar_room,
}
use wfchat.Cafe.Movement.{
  PlayerMovement, MovementTickOutcome, is_stale, update_player_room, update_found, flush_room,
}
use wfchat.Cafe.Chat.{
  emote_room, chat_room, say, chat_normalized, ChatResult, normalize_cafe_chat_message,
}
use wfchat.Cafe.Events.{
  RoomEvent, room_step, room_run, joins, leaves, moves, interacts, emotes, chats, ticks,
  next_round_due, rush_over, rewarded, cosmetic_equipped, avatar_equipped,
}
use wfchat.Base.{Bool}
use wfchat.Cafe.Room.{broadcast_room_snapshot, broadcast_room_movement}
use wfchat.Cafe.Capacity.{RoomFits, modify-Fits, join-RoomFits, leave-RoomFits, interact-RoomFits}

module _ {f : F32} where
  move-RoomFits :
      (instant player_id connection_id : ℕ) (movement : PlayerMovement f) (room : CafeRoom f)
      → RoomFits room
      → RoomFits (update_player_room instant player_id connection_id movement room)
  unfolding update_player_room
  move-RoomFits instant player_id connection_id movement room v =
      elim (Option-cases (lookup player_id room.players)) [
        | inl gone ↦ rw (gone, update_found) v
        | inr (player, here) ↦
            rw (here, update_found)
              (if-cases RoomFits
                (not (nat_beq player.connection_id connection_id) || is_stale movement player) _ _
                (λ refused. v) (λ moved. modify-Fits _ _ _ v))
      ]

  flush-RoomFits : (room : CafeRoom f) → RoomFits room → RoomFits (flush_room room).0
  unfolding flush_room broadcast_room_movement
  flush-RoomFits room v =
      if-cases (λ (r : CafeRoom f × MovementTickOutcome). RoomFits r.0) (is_empty room.players) _ _
        (λ e. v)
        (λ e.
          if-cases (λ (r : CafeRoom f × MovementTickOutcome). RoomFits r.0)
            (not room.movement_dirty) _ _ (λ e. v) (λ e. v))

  emote-RoomFits :
      (player_id connection_id : ℕ) (name : Text) (room : CafeRoom f)
      → RoomFits room
      → RoomFits (emote_room player_id connection_id name room)
  unfolding emote_room
  emote-RoomFits player_id connection_id name room v = if-cases RoomFits _ _ _ (λ e. v) (λ e. v)

  normalized-RoomFits :
      (event_id now player_id connection_id : ℕ) (r : ChatResult Text) (room : CafeRoom f)
      → RoomFits room
      → RoomFits (chat_normalized event_id now player_id connection_id r room).0
  unfolding push_chat_event
  normalized-RoomFits event_id now player_id connection_id (ChatResult.err e) room v = v
  normalized-RoomFits event_id now player_id connection_id (ChatResult.ok text) room v =
      elim (Option-cases (lookup player_id room.players)) [
        | inl gone ↦ rw (gone, say) v
        | inr (player, here) ↦
            rw (here, say)
              (if-cases RoomFits (nat_beq player.connection_id connection_id) _ _ (λ own. v)
                (λ e. v))
      ]

  chat-RoomFits :
      (lower : Text → Text) (event_id now player_id connection_id : ℕ) (value : Text)
      (room : CafeRoom f)
      → RoomFits room
      → RoomFits (chat_room lower event_id now player_id connection_id value room).0
  unfolding chat_room
  chat-RoomFits lower event_id now player_id connection_id value room v =
      normalized-RoomFits event_id now player_id connection_id
        (normalize_cafe_chat_message lower value) room v

  emptied :
      (room : CafeRoom f)
      → RoomFits room
      → length (map_values empty_hands room.players) ≤ room_capacity
  emptied room v = omega (arith, v, length-map_values (empty_hands {f = f}) room.players)

  start-RoomFits :
      (now completed_round : ℕ) (room : CafeRoom f)
      → RoomFits room
      → RoomFits (start_next_round_room now completed_round room).0
  unfolding start_next_round_room broadcast_room_snapshot
  start-RoomFits now completed_round room v =
      if-cases (λ (r : CafeRoom f × Bool × Bool). RoomFits r.0)
        (not (nat_beq room.activity.round_number completed_round)
          || not (is_intermission room.activity.phase))
        _ _ (λ stale. v) (λ due. emptied room v)

  expire-RoomFits :
      (now round_number : ℕ) (room : CafeRoom f)
      → RoomFits room
      → RoomFits (expire_cafe_rush_room now round_number room).0
  unfolding expire_cafe_rush_room broadcast_room_snapshot
  expire-RoomFits now round_number room v =
      if-cases (λ (r : CafeRoom f × Bool). RoomFits r.0)
        (not (is_id room.activity.id cafe_rush)
          || not (nat_beq room.activity.round_number round_number)
          || is_intermission room.activity.phase
          || room.activity.completed)
        _ _ (λ stale. v) (λ due. emptied room v)

  reward-RoomFits :
      (player_ids : List ℕ) (stars : ℕ) (room : CafeRoom f)
      → RoomFits room
      → RoomFits (reward_room player_ids stars room)
  unfolding reward_room
  reward-RoomFits [] stars room v = v
  reward-RoomFits (p ∷ ps) stars room v = reward-RoomFits ps stars (send (reward p stars) room) v

  cosmetic-RoomFits :
      (owner : OwnerScope) (cosmetic_id : Option Text) (room : CafeRoom f)
      → RoomFits room
      → RoomFits (equip_cosmetic_room owner cosmetic_id room)
  unfolding equip_cosmetic_room broadcast_room_snapshot
  cosmetic-RoomFits owner cosmetic_id room v =
      if-cases RoomFits _ _ _ (λ e. equipped) (λ e. equipped)
    where
      equipped : length (map_values (with_cosmetic owner cosmetic_id) room.players) ≤ room_capacity
      equipped = omega (arith, v, length-map_values (with_cosmetic owner cosmetic_id) room.players)

  avatar-RoomFits :
      (owner : OwnerScope) (avatar_id : Text) (room : CafeRoom f)
      → RoomFits room
      → RoomFits (equip_avatar_room owner avatar_id room)
  unfolding equip_avatar_room broadcast_room_snapshot
  avatar-RoomFits owner avatar_id room v = if-cases RoomFits _ _ _ (λ e. equipped) (λ e. equipped)
    where
      equipped : length (map_values (with_avatar owner avatar_id) room.players) ≤ room_capacity
      equipped = omega (arith, v, length-map_values (with_avatar owner avatar_id) room.players)

  step-RoomFits :
      (e : RoomEvent f) (room : CafeRoom f) → RoomFits room → RoomFits (room_step e room)
  unfolding room_step
  step-RoomFits (joins event_id now player) room v = join-RoomFits event_id now player room v
  step-RoomFits (leaves event_id now instant player_id connection_id) room v =
      leave-RoomFits event_id now instant player_id connection_id room v
  step-RoomFits (moves instant player_id connection_id movement) room v =
      move-RoomFits instant player_id connection_id movement room v
  step-RoomFits (interacts now player_id connection_id target_id) room v =
      interact-RoomFits now player_id connection_id target_id room v
  step-RoomFits (emotes player_id connection_id name) room v =
      emote-RoomFits player_id connection_id name room v
  step-RoomFits (chats lower event_id now player_id connection_id text) room v =
      chat-RoomFits lower event_id now player_id connection_id text room v
  step-RoomFits ticks room v = flush-RoomFits room v
  step-RoomFits (next_round_due now completed_round) room v =
      start-RoomFits now completed_round room v
  step-RoomFits (rush_over now round_number) room v = expire-RoomFits now round_number room v
  step-RoomFits (rewarded player_ids stars) room v = reward-RoomFits player_ids stars room v
  step-RoomFits (cosmetic_equipped owner cosmetic_id) room v =
      cosmetic-RoomFits owner cosmetic_id room v
  step-RoomFits (avatar_equipped owner avatar_id) room v = avatar-RoomFits owner avatar_id room v

  -- After any events, a room has at most 8 players, if it had before.
  pub room_run-RoomFits :
      (es : List (RoomEvent f)) (room : CafeRoom f) → RoomFits room → RoomFits (room_run es room)
  unfolding room_run
  room_run-RoomFits [] room v = v
  room_run-RoomFits (e ∷ es) room v =
      room_run-RoomFits es (room_step e room) (step-RoomFits e room v)
