-- ===== src/Cafe/Recent/Runs.antt =====
-- Whatever happens to a room, its chat history is what was said last.
use wfchat.Base.{
  ℕ, refl, inl, inr, not, ◌||◌, List, [], ◌∷◌, Option, Text, lookup, is_empty, nat_beq, nat_eq,
  option_eq, list_eq, if-cases, Option-cases,
}
use wfchat.Cafe.F32.{F32}
use wfchat.Cafe.Activity.{cafe_rush}
use wfchat.Cafe.Room.{CafeRoom, CafePlayer, CafeServerMessage, OwnerScope, send, reward}
use wfchat.Cafe.Presence.{JoinResult, join_room}
use wfchat.Cafe.Delivery.{is_id, is_intermission}
use wfchat.Cafe.Rounds.{
  start_next_round_room, expire_cafe_rush_room, reward_room, equip_cosmetic_room, equip_avatar_room,
}
use wfchat.Cafe.Movement.{
  PlayerMovement, MovementTickOutcome, is_stale, update_player_room, update_found, flush_room,
}
use wfchat.Cafe.Chat.{
  emote_room, chat_room, say, chat_normalized, ChatResult, normalize_cafe_chat_message,
}
use wfchat.Cafe.Events.{
  RoomEvent, room_step, room_run, joins, leaves, moves, interacts, emotes, chats, ticks,
  next_round_due, rush_over, rewarded, cosmetic_equipped, avatar_equipped,
}
use wfchat.Base.{Bool, ◌&&◌, Bool-cases, contains_key, leb, length}
use wfchat.Cafe.Room.{room_capacity}
use wfchat.Cafe.Room.{broadcast_room_snapshot, broadcast_room_movement}
use wfchat.Cafe.Room.History.{IsRecent, push_chat_event-IsRecent, send-IsRecent}
use wfchat.Cafe.Recent.{RoomRecent, join-RoomRecent, leave-RoomRecent, interact-RoomRecent}

module _ {f : F32} where
  move-RoomRecent :
      (instant player_id connection_id : ℕ) (movement : PlayerMovement f) (room : CafeRoom f)
      → RoomRecent room
      → RoomRecent (update_player_room instant player_id connection_id movement room)
  unfolding update_player_room
  move-RoomRecent instant player_id connection_id movement room v =
      elim (Option-cases (lookup player_id room.players)) [
        | inl gone ↦ rw (gone, update_found) v
        | inr (player, here) ↦
            rw (here, update_found)
              (if-cases RoomRecent
                (not (nat_beq player.connection_id connection_id) || is_stale movement player) _ _
                (λ refused. v) (λ moved. v))
      ]

  flush-RoomRecent : (room : CafeRoom f) → RoomRecent room → RoomRecent (flush_room room).0
  unfolding flush_room broadcast_room_movement
  flush-RoomRecent room v =
      if-cases (λ (r : CafeRoom f × MovementTickOutcome). RoomRecent r.0) (is_empty room.players) _
        _ (λ e. v)
        (λ e.
          if-cases (λ (r : CafeRoom f × MovementTickOutcome). RoomRecent r.0)
            (not room.movement_dirty) _ _ (λ e. v) (λ e. v))

  emote-RoomRecent :
      (player_id connection_id : ℕ) (name : Text) (room : CafeRoom f)
      → RoomRecent room
      → RoomRecent (emote_room player_id connection_id name room)
  unfolding emote_room
  emote-RoomRecent player_id connection_id name room v =
      if-cases RoomRecent _ _ _ (λ e. send-IsRecent _ _ _ refl v) (λ e. v)

  normalized-RoomRecent :
      (event_id now player_id connection_id : ℕ) (r : ChatResult Text) (room : CafeRoom f)
      → RoomRecent room
      → RoomRecent (chat_normalized event_id now player_id connection_id r room).0
  normalized-RoomRecent event_id now player_id connection_id (ChatResult.err e) room v = v
  normalized-RoomRecent event_id now player_id connection_id (ChatResult.ok text) room v =
      elim (Option-cases (lookup player_id room.players)) [
        | inl gone ↦ rw (gone, say) v
        | inr (player, here) ↦
            rw (here, say)
              (if-cases RoomRecent (nat_beq player.connection_id connection_id) _ _
                (λ own. push_chat_event-IsRecent _ room v) (λ e. v))
      ]

  chat-RoomRecent :
      (lower : Text → Text) (event_id now player_id connection_id : ℕ) (value : Text)
      (room : CafeRoom f)
      → RoomRecent room
      → RoomRecent (chat_room lower event_id now player_id connection_id value room).0
  unfolding chat_room
  chat-RoomRecent lower event_id now player_id connection_id value room v =
      normalized-RoomRecent event_id now player_id connection_id
        (normalize_cafe_chat_message lower value) room v

  start-RoomRecent :
      (now completed_round : ℕ) (room : CafeRoom f)
      → RoomRecent room
      → RoomRecent (start_next_round_room now completed_round room).0
  unfolding start_next_round_room broadcast_room_snapshot
  start-RoomRecent now completed_round room v =
      if-cases (λ (r : CafeRoom f × Bool × Bool). RoomRecent r.0)
        (not (nat_beq room.activity.round_number completed_round)
          || not (is_intermission room.activity.phase))
        _ _ (λ stale. v) (λ due. send-IsRecent _ _ _ refl (send-IsRecent _ _ _ refl v))

  expire-RoomRecent :
      (now round_number : ℕ) (room : CafeRoom f)
      → RoomRecent room
      → RoomRecent (expire_cafe_rush_room now round_number room).0
  unfolding expire_cafe_rush_room broadcast_room_snapshot
  expire-RoomRecent now round_number room v =
      if-cases (λ (r : CafeRoom f × Bool). RoomRecent r.0)
        (not (is_id room.activity.id cafe_rush)
          || not (nat_beq room.activity.round_number round_number)
          || is_intermission room.activity.phase
          || room.activity.completed)
        _ _ (λ stale. v) (λ due. send-IsRecent _ _ _ refl (send-IsRecent _ _ _ refl v))

  reward-RoomRecent :
      (player_ids : List ℕ) (stars : ℕ) (room : CafeRoom f)
      → RoomRecent room
      → RoomRecent (reward_room player_ids stars room)
  unfolding reward_room
  reward-RoomRecent [] stars room v = v
  reward-RoomRecent (p ∷ ps) stars room v =
      reward-RoomRecent ps stars (send (reward p stars) room) (send-IsRecent _ _ _ refl v)

  cosmetic-RoomRecent :
      (owner : OwnerScope) (cosmetic_id : Option Text) (room : CafeRoom f)
      → RoomRecent room
      → RoomRecent (equip_cosmetic_room owner cosmetic_id room)
  unfolding equip_cosmetic_room broadcast_room_snapshot
  cosmetic-RoomRecent owner cosmetic_id room v =
      if-cases RoomRecent _ _ _ (λ e. send-IsRecent _ _ _ refl v) (λ e. v)

  avatar-RoomRecent :
      (owner : OwnerScope) (avatar_id : Text) (room : CafeRoom f)
      → RoomRecent room
      → RoomRecent (equip_avatar_room owner avatar_id room)
  unfolding equip_avatar_room broadcast_room_snapshot
  avatar-RoomRecent owner avatar_id room v =
      if-cases RoomRecent _ _ _ (λ e. send-IsRecent _ _ _ refl v) (λ e. v)

  step-RoomRecent :
      (e : RoomEvent f) (room : CafeRoom f) → RoomRecent room → RoomRecent (room_step e room)
  unfolding room_step
  step-RoomRecent (joins event_id now player) room v = join-RoomRecent event_id now player room v
  step-RoomRecent (leaves event_id now instant player_id connection_id) room v =
      leave-RoomRecent event_id now instant player_id connection_id room v
  step-RoomRecent (moves instant player_id connection_id movement) room v =
      move-RoomRecent instant player_id connection_id movement room v
  step-RoomRecent (interacts now player_id connection_id target_id) room v =
      interact-RoomRecent now player_id connection_id target_id room v
  step-RoomRecent (emotes player_id connection_id name) room v =
      emote-RoomRecent player_id connection_id name room v
  step-RoomRecent (chats lower event_id now player_id connection_id text) room v =
      chat-RoomRecent lower event_id now player_id connection_id text room v
  step-RoomRecent ticks room v = flush-RoomRecent room v
  step-RoomRecent (next_round_due now completed_round) room v =
      start-RoomRecent now completed_round room v
  step-RoomRecent (rush_over now round_number) room v = expire-RoomRecent now round_number room v
  step-RoomRecent (rewarded player_ids stars) room v = reward-RoomRecent player_ids stars room v
  step-RoomRecent (cosmetic_equipped owner cosmetic_id) room v =
      cosmetic-RoomRecent owner cosmetic_id room v
  step-RoomRecent (avatar_equipped owner avatar_id) room v =
      avatar-RoomRecent owner avatar_id room v

  run-RoomRecent :
      (es : List (RoomEvent f)) (room : CafeRoom f)
      → RoomRecent room
      → RoomRecent (room_run es room)
  unfolding room_run
  run-RoomRecent [] room v = v
  run-RoomRecent (e ∷ es) room v = run-RoomRecent es (room_step e room) (step-RoomRecent e room v)

  -- A player who is let in gets the history that these messages make.
  abbrev pub IsTold : List (CafeServerMessage f) → JoinResult f → Type 0
  IsTold ms (JoinResult.ok joined_room) = IsRecent joined_room.chat_history ms
  IsTold ms (JoinResult.err e) = Unit

  join_room-IsTold :
      (event_id now : ℕ) (player : CafePlayer f) (room : CafeRoom f)
      → RoomRecent room
      → IsTold room.sender (join_room event_id now player room).1
  unfolding join_room
  join_room-IsTold event_id now player room v =
      elim (Bool-cases
        (not (contains_key player.id room.players) && leb room_capacity (length room.players))) [
          | inl full ↦ rw full tt
          | inr fits ↦ rw fits v
        ]

  -- After any events, the history that the room keeps, and that a player gets who joins then and is let
  -- in, is the last 30 chat events of those that the room sent, or all of them if there were fewer. (It
  -- was so before the events.)
  pub room_run-RoomRecent :
      (es : List (RoomEvent f)) (room : CafeRoom f)
      → RoomRecent room
      → RoomRecent (room_run es room)
        × ((event_id now : ℕ) (player : CafePlayer f)
            → IsTold (room_run es room).sender (join_room event_id now player (room_run es room)).1)
  room_run-RoomRecent es room v =
      let recent = run-RoomRecent es room v in
      (
        recent,
        λ event_id now player. join_room-IsTold event_id now player (room_run es room) recent,
      )
