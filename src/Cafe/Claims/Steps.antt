-- ===== src/Cafe/Claims/Steps.antt =====
-- Every event of a room keeps orders and players in agreement.
use wfchat.Base.{
  ℕ, ◌≡◌, refl, inl, inr, not, ◌||◌, List, [], ◌∷◌, Option, none, some, Text, Map, lookup,
  map_values, lookup-map_values, is_empty, nat_beq, nat_eq, option_eq, list_eq, if-cases, All,
  arith, Option-cases,
}
use wfchat.Cafe.F32.{F32}
use wfchat.Cafe.Room.{CafeRoom, CafePlayer, OwnerScope, send, reward, push_chat_event}
use wfchat.Cafe.Rounds.{
  reward_room, equip_cosmetic_room, equip_avatar_room, with_cosmetic, with_avatar,
}
use wfchat.Cafe.Movement.{
  PlayerMovement, MovementTickOutcome, is_stale, update_player_room, update_found, flush_room,
  move_player,
}
use wfchat.Cafe.Chat.{
  emote_room, chat_room, say, chat_normalized, ChatResult, normalize_cafe_chat_message,
}
use wfchat.Cafe.Claims.Invariant.{carried_by, Agree, Agree-players}
use wfchat.Cafe.Claims.Rooms.{is_playing, RoomAgrees}
use wfchat.Cafe.Claims.Rooms.{
  join-RoomAgrees, leave-RoomAgrees, start-RoomAgrees, expire-RoomAgrees,
}
use wfchat.Cafe.Claims.Interactions.{interact-RoomAgrees, carries-modify}
use wfchat.Cafe.Events.{
  RoomEvent, room_step, room_run, IsFair, joins, leaves, moves, interacts, emotes, chats, ticks,
  next_round_due, rush_over, rewarded, cosmetic_equipped, avatar_equipped,
}

module _ {f : F32} where
  move-RoomAgrees :
      (instant player_id connection_id : ℕ) (movement : PlayerMovement f) (room : CafeRoom f)
      → RoomAgrees room
      → RoomAgrees (update_player_room instant player_id connection_id movement room)
  unfolding update_player_room move_player
  move-RoomAgrees instant player_id connection_id movement room v =
      elim (Option-cases (lookup player_id room.players)) [
        | inl gone ↦ rw (gone, update_found) v
        | inr (player, here) ↦
            rw (here, update_found)
              (if-cases RoomAgrees
                (not (nat_beq player.connection_id connection_id) || is_stale movement player) _ _
                (λ refused. v)
                (λ moved.
                  Agree-players (is_playing room) room.players room.activity.table_orders v
                    (is_playing room) _ (λ e. e)
                    (carries-modify player_id (move_player instant movement) room.players
                      (λ p. refl))))
      ]

  flush-RoomAgrees : (room : CafeRoom f) → RoomAgrees room → RoomAgrees (flush_room room).0
  unfolding flush_room
  flush-RoomAgrees room v =
      if-cases (λ (r : CafeRoom f × MovementTickOutcome). RoomAgrees r.0) (is_empty room.players) _
        _ (λ e. v)
        (λ e.
          if-cases (λ (r : CafeRoom f × MovementTickOutcome). RoomAgrees r.0)
            (not room.movement_dirty) _ _ (λ e. v) (λ e. v))

  emote-RoomAgrees :
      (player_id connection_id : ℕ) (name : Text) (room : CafeRoom f)
      → RoomAgrees room
      → RoomAgrees (emote_room player_id connection_id name room)
  unfolding emote_room
  emote-RoomAgrees player_id connection_id name room v = if-cases RoomAgrees _ _ _ (λ e. v) (λ e. v)

  say-RoomAgrees :
      (event_id now player_id connection_id : ℕ) (text : Text) (o : Option (CafePlayer f))
      (room : CafeRoom f)
      → RoomAgrees room
      → RoomAgrees (say event_id now player_id connection_id text o room)
  unfolding push_chat_event
  say-RoomAgrees event_id now player_id connection_id text none room v = v
  say-RoomAgrees event_id now player_id connection_id text (some player) room v =
      if-cases RoomAgrees (nat_beq player.connection_id connection_id) _ _ (λ e. v) (λ e. v)

  normalized-RoomAgrees :
      (event_id now player_id connection_id : ℕ) (r : ChatResult Text) (room : CafeRoom f)
      → RoomAgrees room
      → RoomAgrees (chat_normalized event_id now player_id connection_id r room).0
  normalized-RoomAgrees event_id now player_id connection_id (ChatResult.err e) room v = v
  normalized-RoomAgrees event_id now player_id connection_id (ChatResult.ok text) room v =
      say-RoomAgrees event_id now player_id connection_id text (lookup player_id room.players) room
        v

  chat-RoomAgrees :
      (lower : Text → Text) (event_id now player_id connection_id : ℕ) (value : Text)
      (room : CafeRoom f)
      → RoomAgrees room
      → RoomAgrees (chat_room lower event_id now player_id connection_id value room).0
  unfolding chat_room
  chat-RoomAgrees lower event_id now player_id connection_id value room v =
      normalized-RoomAgrees event_id now player_id connection_id
        (normalize_cafe_chat_message lower value) room v

  reward-RoomAgrees :
      (player_ids : List ℕ) (stars : ℕ) (room : CafeRoom f)
      → RoomAgrees room
      → RoomAgrees (reward_room player_ids stars room)
  unfolding reward_room
  reward-RoomAgrees [] stars room v = v
  reward-RoomAgrees (p ∷ ps) stars room v =
      reward-RoomAgrees ps stars (send (reward p stars) room) v

  carries-map_values :
      (g : CafePlayer f → CafePlayer f) (players : Map ℕ (CafePlayer f))
      → ((player : CafePlayer f) → (g player).carried_order_id ≡ player.carried_order_id)
      → (q : ℕ) → carried_by q (map_values g players) ≡ carried_by q players
  carries-map_values g players same q = elim (Option-cases (lookup q players)) [
    | inl e ↦ ground (arith, lookup-map_values g q players)
    | inr (player, e) ↦ ground (arith, lookup-map_values g q players, same player)
  ]

  -- What is equipped is no work.
  equip-RoomAgrees :
      (g : CafePlayer f → CafePlayer f) (room : CafeRoom f)
      → ((player : CafePlayer f) → (g player).carried_order_id ≡ player.carried_order_id)
      → RoomAgrees room
      → Agree (is_playing room) (map_values g room.players) room.activity.table_orders
  equip-RoomAgrees g room same v =
      Agree-players (is_playing room) room.players room.activity.table_orders v (is_playing room)
        (map_values g room.players) (λ e. e) (carries-map_values g room.players same)

  cosmetic-RoomAgrees :
      (owner : OwnerScope) (cosmetic_id : Option Text) (room : CafeRoom f)
      → RoomAgrees room
      → RoomAgrees (equip_cosmetic_room owner cosmetic_id room)
  unfolding equip_cosmetic_room
  cosmetic-RoomAgrees owner cosmetic_id room v =
      if-cases RoomAgrees _ _ _ (λ e. equipped) (λ e. equipped)
    where
      equipped :
          Agree
            (is_playing room)
            (map_values (with_cosmetic owner cosmetic_id) room.players)
            room.activity.table_orders
      equipped = equip-RoomAgrees (with_cosmetic owner cosmetic_id) room (λ p. ground arith) v

  avatar-RoomAgrees :
      (owner : OwnerScope) (avatar_id : Text) (room : CafeRoom f)
      → RoomAgrees room
      → RoomAgrees (equip_avatar_room owner avatar_id room)
  unfolding equip_avatar_room
  avatar-RoomAgrees owner avatar_id room v =
      if-cases RoomAgrees _ _ _ (λ e. equipped) (λ e. equipped)
    where
      equipped :
          Agree
            (is_playing room)
            (map_values (with_avatar owner avatar_id) room.players)
            room.activity.table_orders
      equipped = equip-RoomAgrees (with_avatar owner avatar_id) room (λ p. ground arith) v

  -- One event, whichever it is, where a player who joins has nothing in hand.
  pub room_step-RoomAgrees :
      (e : RoomEvent f) (room : CafeRoom f)
      → IsFair e
      → RoomAgrees room
      → RoomAgrees (room_step e room)
  unfolding room_step
  room_step-RoomAgrees (joins event_id now player) room h v =
      join-RoomAgrees event_id now player room h.2 v
  room_step-RoomAgrees (leaves event_id now instant player_id connection_id) room h v =
      leave-RoomAgrees event_id now instant player_id connection_id room v
  room_step-RoomAgrees (moves instant player_id connection_id movement) room h v =
      move-RoomAgrees instant player_id connection_id movement room v
  room_step-RoomAgrees (interacts now player_id connection_id target_id) room h v =
      interact-RoomAgrees now player_id connection_id target_id room v
  room_step-RoomAgrees (emotes player_id connection_id name) room h v =
      emote-RoomAgrees player_id connection_id name room v
  room_step-RoomAgrees (chats lower event_id now player_id connection_id text) room h v =
      chat-RoomAgrees lower event_id now player_id connection_id text room v
  room_step-RoomAgrees ticks room h v = flush-RoomAgrees room v
  room_step-RoomAgrees (next_round_due now completed_round) room h v =
      start-RoomAgrees now completed_round room v
  room_step-RoomAgrees (rush_over now round_number) room h v =
      expire-RoomAgrees now round_number room v
  room_step-RoomAgrees (rewarded player_ids stars) room h v =
      reward-RoomAgrees player_ids stars room v
  room_step-RoomAgrees (cosmetic_equipped owner cosmetic_id) room h v =
      cosmetic-RoomAgrees owner cosmetic_id room v
  room_step-RoomAgrees (avatar_equipped owner avatar_id) room h v =
      avatar-RoomAgrees owner avatar_id room v

  -- After any events, orders and players agree on who carries what, if they did before: no order is
  -- carried by two players, and while a round is played each claimed order is in the hands of the player
  -- whom it names. (Players who join have nothing in hand.)
  pub room_run-RoomAgrees :
      (es : List (RoomEvent f)) (room : CafeRoom f)
      → All IsFair es
      → RoomAgrees room
      → RoomAgrees (room_run es room)
  unfolding room_run
  room_run-RoomAgrees [] room h v = v
  room_run-RoomAgrees (e ∷ es) room h v =
      room_run-RoomAgrees es (room_step e room) h.1 (room_step-RoomAgrees e room h.0 v)
