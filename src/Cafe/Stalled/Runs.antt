-- ===== src/Cafe/Stalled/Runs.antt =====
-- Whatever happens to a stalled tea round, it stays so.
use wfchat.Base.{
  ℕ, ◌<◌, ◌≡◌, refl, inl, inr, true, false, not, ◌||◌, List, [], ◌∷◌, Option, some, Text, lookup,
  map_values, is_empty, nat_beq, nat_eq, option_eq, list_eq, if-cases, All, arith, Option-cases,
}
use wfchat.Cafe.F32.{F32}
use wfchat.Cafe.Activity.{cafe_rush}
use wfchat.Cafe.Room.{CafeRoom, CafePlayer, OwnerScope, send, reward, push_chat_event}
use wfchat.Cafe.Presence.{leave_room, leave_found, vacate, return_ingredients}
use wfchat.Cafe.Delivery.{is_id, is_intermission}
use wfchat.Cafe.Rounds.{
  start_next_round_room, expire_cafe_rush_room, reward_room, equip_cosmetic_room, equip_avatar_room,
  with_cosmetic, with_avatar,
}
use wfchat.Cafe.Movement.{
  PlayerMovement, MovementTickOutcome, is_stale, update_player_room, update_found, flush_room,
  move_player,
}
use wfchat.Cafe.Chat.{
  emote_room, chat_room, say, chat_normalized, ChatResult, normalize_cafe_chat_message,
}
use wfchat.Cafe.Events.{
  RoomEvent, room_step, room_run, IsFair, joins, leaves, moves, interacts, emotes, chats, ticks,
  next_round_due, rush_over, rewarded, cosmetic_equipped, avatar_equipped,
}
use wfchat.Cafe.Stalled.{
  Stalled, RoomStalled, Accounted, tea_held-leave, tea_held-modify, tea_held-map_values,
  modify-HasNoIngredients, map_values-HasNoIngredients, remove-HasNoIngredients, ingredients-lookup,
}
use wfchat.Cafe.Stalled.Steps.{
  Stalled-players, settle-RoomStalled, join-RoomStalled, leave-RoomStalled,
}
use wfchat.Cafe.Stalled.Interactions.{interact-RoomStalled}

module _ {f : F32} where
  move-RoomStalled :
      (instant player_id connection_id : ℕ) (movement : PlayerMovement f) (room : CafeRoom f)
      → RoomStalled room
      → RoomStalled (update_player_room instant player_id connection_id movement room)
  unfolding update_player_room move_player
  move-RoomStalled instant player_id connection_id movement room v =
      elim (Option-cases (lookup player_id room.players)) [
        | inl gone ↦ rw (gone, update_found) v
        | inr (player, here) ↦
            rw (here, update_found)
              (if-cases RoomStalled
                (not (nat_beq player.connection_id connection_id) || is_stale movement player) _ _
                (λ refused. v)
                (λ moved.
                  Stalled-players room.players _ room.activity
                    (omega (
                      arith,
                      tea_held-modify player_id (move_player instant movement) room.players player
                          here,
                    ))
                    (modify-HasNoIngredients player_id (move_player instant movement) room.players
                      (λ p. refl) v.no_ingredients)
                    v))
      ]

  flush-RoomStalled : (room : CafeRoom f) → RoomStalled room → RoomStalled (flush_room room).0
  unfolding flush_room
  flush-RoomStalled room v =
      if-cases (λ (r : CafeRoom f × MovementTickOutcome). RoomStalled r.0) (is_empty room.players) _
        _ (λ e. v)
        (λ e.
          if-cases (λ (r : CafeRoom f × MovementTickOutcome). RoomStalled r.0)
            (not room.movement_dirty) _ _ (λ e. v) (λ e. v))

  emote-RoomStalled :
      (player_id connection_id : ℕ) (name : Text) (room : CafeRoom f)
      → RoomStalled room
      → RoomStalled (emote_room player_id connection_id name room)
  unfolding emote_room
  emote-RoomStalled player_id connection_id name room v =
      if-cases RoomStalled _ _ _ (λ e. v) (λ e. v)

  normalized-RoomStalled :
      (event_id now player_id connection_id : ℕ) (r : ChatResult Text) (room : CafeRoom f)
      → RoomStalled room
      → RoomStalled (chat_normalized event_id now player_id connection_id r room).0
  unfolding push_chat_event
  normalized-RoomStalled event_id now player_id connection_id (ChatResult.err e) room v = v
  normalized-RoomStalled event_id now player_id connection_id (ChatResult.ok text) room v =
      elim (Option-cases (lookup player_id room.players)) [
        | inl gone ↦ rw (gone, say) v
        | inr (player, here) ↦
            rw (here, say)
              (if-cases RoomStalled (nat_beq player.connection_id connection_id) _ _ (λ e. v)
                (λ e. v))
      ]

  chat-RoomStalled :
      (lower : Text → Text) (event_id now player_id connection_id : ℕ) (value : Text)
      (room : CafeRoom f)
      → RoomStalled room
      → RoomStalled (chat_room lower event_id now player_id connection_id value room).0
  unfolding chat_room
  chat-RoomStalled lower event_id now player_id connection_id value room v =
      normalized-RoomStalled event_id now player_id connection_id
        (normalize_cafe_chat_message lower value) room v

  -- A round that is played is not replaced.
  start-RoomStalled :
      (now completed_round : ℕ) (room : CafeRoom f)
      → RoomStalled room
      → RoomStalled (start_next_round_room now completed_round room).0
  unfolding start_next_round_room
  start-RoomStalled now completed_round room v =
      let stale : (not (nat_beq room.activity.round_number completed_round)
            || not (is_intermission room.activity.phase))
          ≡ true =
        ground (arith, v.playing) in
      rw stale v

  expire-RoomStalled :
      (now round_number : ℕ) (room : CafeRoom f)
      → RoomStalled room
      → RoomStalled (expire_cafe_rush_room now round_number room).0
  unfolding expire_cafe_rush_room
  expire-RoomStalled now round_number room v =
      let not_rush : is_id room.activity.id cafe_rush ≡ false = rw v.tea refl in rw not_rush v

  reward-RoomStalled :
      (player_ids : List ℕ) (stars : ℕ) (room : CafeRoom f)
      → RoomStalled room
      → RoomStalled (reward_room player_ids stars room)
  unfolding reward_room
  reward-RoomStalled [] stars room v = v
  reward-RoomStalled (p ∷ ps) stars room v =
      reward-RoomStalled ps stars (send (reward p stars) room) v

  equip-Stalled :
      (g : CafePlayer f → CafePlayer f) (room : CafeRoom f)
      → ((player : CafePlayer f) → (g player).carried_tea ≡ player.carried_tea)
      → ((player : CafePlayer f)
          → (g player).carried_rush_ingredient_ids ≡ player.carried_rush_ingredient_ids)
      → RoomStalled room
      → Stalled (map_values g room.players) room.activity
  equip-Stalled g room same same' v =
      Stalled-players room.players (map_values g room.players) room.activity
        (omega (arith, tea_held-map_values g room.players same))
        (map_values-HasNoIngredients g room.players same' v.no_ingredients) v

  cosmetic-RoomStalled :
      (owner : OwnerScope) (cosmetic_id : Option Text) (room : CafeRoom f)
      → RoomStalled room
      → RoomStalled (equip_cosmetic_room owner cosmetic_id room)
  unfolding equip_cosmetic_room
  cosmetic-RoomStalled owner cosmetic_id room v =
      if-cases RoomStalled _ _ _ (λ e. equipped) (λ e. equipped)
    where
      equipped : Stalled (map_values (with_cosmetic owner cosmetic_id) room.players) room.activity
      equipped =
          equip-Stalled (with_cosmetic owner cosmetic_id) room (λ p. ground arith)
            (λ p. ground arith) v

  avatar-RoomStalled :
      (owner : OwnerScope) (avatar_id : Text) (room : CafeRoom f)
      → RoomStalled room
      → RoomStalled (equip_avatar_room owner avatar_id room)
  unfolding equip_avatar_room
  avatar-RoomStalled owner avatar_id room v =
      if-cases RoomStalled _ _ _ (λ e. equipped) (λ e. equipped)
    where
      equipped : Stalled (map_values (with_avatar owner avatar_id) room.players) room.activity
      equipped =
          equip-Stalled (with_avatar owner avatar_id) room (λ p. ground arith) (λ p. ground arith) v

  step-RoomStalled :
      (e : RoomEvent f) (room : CafeRoom f)
      → IsFair e
      → RoomStalled room
      → RoomStalled (room_step e room)
  unfolding room_step
  step-RoomStalled (joins event_id now player) room h v =
      join-RoomStalled event_id now player room h.0 h.1 v
  step-RoomStalled (leaves event_id now instant player_id connection_id) room h v =
      leave-RoomStalled event_id now instant player_id connection_id room v
  step-RoomStalled (moves instant player_id connection_id movement) room h v =
      move-RoomStalled instant player_id connection_id movement room v
  step-RoomStalled (interacts now player_id connection_id target_id) room h v =
      interact-RoomStalled now player_id connection_id target_id room v
  step-RoomStalled (emotes player_id connection_id name) room h v =
      emote-RoomStalled player_id connection_id name room v
  step-RoomStalled (chats lower event_id now player_id connection_id text) room h v =
      chat-RoomStalled lower event_id now player_id connection_id text room v
  step-RoomStalled ticks room h v = flush-RoomStalled room v
  step-RoomStalled (next_round_due now completed_round) room h v =
      start-RoomStalled now completed_round room v
  step-RoomStalled (rush_over now round_number) room h v =
      expire-RoomStalled now round_number room v
  step-RoomStalled (rewarded player_ids stars) room h v = reward-RoomStalled player_ids stars room v
  step-RoomStalled (cosmetic_equipped owner cosmetic_id) room h v =
      cosmetic-RoomStalled owner cosmetic_id room v
  step-RoomStalled (avatar_equipped owner avatar_id) room h v =
      avatar-RoomStalled owner avatar_id room v

  run-RoomStalled :
      (es : List (RoomEvent f)) (room : CafeRoom f)
      → All IsFair es
      → RoomStalled room
      → RoomStalled (room_run es room)
  unfolding room_run
  run-RoomStalled [] room h v = v
  run-RoomStalled (e ∷ es) room h v =
      run-RoomStalled es (room_step e room) h.1 (step-RoomStalled e room h.0 v)

  leave-Accounted :
      (event_id now instant player_id : ℕ) (room : CafeRoom f) (player : CafePlayer f)
      → lookup player_id room.players ≡ some player
      → 0 < player.carried_tea
      → Accounted room.players room.activity
      → RoomStalled (leave_room event_id now instant player_id player.connection_id room)
  unfolding leave_room return_ingredients
  leave-Accounted event_id now instant player_id room player here some_tea v =
      let nothing = ingredients-lookup player_id room.players player v.no_ingredients here in
      let less = tea_held-leave player_id room.players player here in
      let own : nat_beq player.connection_id player.connection_id ≡ true = ground arith in
      rw (here, leave_found, own)
        (settle-RoomStalled event_id now instant player_id player.name
          (vacate player_id player room)
          (record {
            tea = v.tea;
            playing = v.playing;
            incomplete = v.incomplete;
            short = rw nothing (omega (arith, v.at_most, less, some_tea));
            no_ingredients = remove-HasNoIngredients player_id room.players v.no_ingredients;
          }))

  -- Once a player who carries tea leaves a tea round that has no more leaves than it asks for, the
  -- round is never completed and no other begins, whatever happens next. (Players who join have
  -- nothing in hand.)
  pub room_run-leave_room :
      (event_id now instant player_id : ℕ) (room : CafeRoom f) (player : CafePlayer f)
      (es : List (RoomEvent f))
      → lookup player_id room.players ≡ some player
      → 0 < player.carried_tea
      → Accounted room.players room.activity
      → All IsFair es
      → let room' =
          room_run es (leave_room event_id now instant player_id player.connection_id room) in
        (room'.activity.completed ≡ false) × (is_intermission room'.activity.phase ≡ false)
  room_run-leave_room event_id now instant player_id room player es here some_tea v fair =
      (stalled.incomplete, stalled.playing)
    where
      stalled :
          RoomStalled
            (room_run es (leave_room event_id now instant player_id player.connection_id room))
      stalled =
          run-RoomStalled es _ fair
            (leave-Accounted event_id now instant player_id room player here some_tea v)
