-- ===== src/Cafe/Stalled/Steps.antt =====
-- A tea round that has lost a leaf never ends, in apps/api/src/cafe.rs.
use wfchat.Base.{
  ℕ, ◌≤◌, ◌≡◌, not, ◌&&◌, [], Option, none, some, Text, Map, lookup, insert, nat_beq, nat_eq,
  list_eq, option_eq, arith, is_empty, Bool-cases, Option-cases, inl, inr, leb, length,
  contains_key,
}
use wfchat.Cafe.F32.{F32}
use wfchat.Cafe.Activity.{CafeActivity}
use wfchat.Cafe.Room.{CafeRoom, CafePlayer, broadcast_room_snapshot, push_left_event, room_capacity}
use wfchat.Cafe.Presence.{
  join_room, leave_room, leave_found, settle, vacate, resume, return_ingredients,
}
use wfchat.Cafe.Delivery.{carried_tea_of}
use wfchat.Cafe.Stalled.{
  Stalled, RoomStalled, HasNoIngredients, tea_held, tea_held-insert, tea_held-remove,
  insert-HasNoIngredients, remove-HasNoIngredients, ingredients-lookup,
}

module _ {f : F32} where
  pub Stalled-players :
      (players players' : Map ℕ (CafePlayer f)) (activity : CafeActivity f)
      → tea_held players' ≤ tea_held players
      → HasNoIngredients players'
      → Stalled players activity
      → Stalled players' activity
  Stalled-players players players' activity less none_held v = record {
    tea = v.tea;
    playing = v.playing;
    incomplete = v.incomplete;
    short = omega (arith, v.short, less);
    no_ingredients = none_held;
  }

  resume-carried_tea :
      (o : Option (CafePlayer f)) (player : CafePlayer f)
      → player.carried_tea ≡ 0
      → (resume o player).carried_tea ≤ carried_tea_of o
  resume-carried_tea none player h = omega (arith, h)
  resume-carried_tea (some existing) player h = omega arith

  resume-ingredients :
      (players : Map ℕ (CafePlayer f)) (player : CafePlayer f)
      → player.carried_rush_ingredient_ids ≡ []
      → HasNoIngredients players
      → (resume (lookup player.id players) player).carried_rush_ingredient_ids ≡ []
  resume-ingredients players player h v = elim (Option-cases (lookup player.id players)) [
    | inl gone ↦ rw gone h
    | inr (existing, here) ↦ rw here (ingredients-lookup player.id players existing v here)
  ]

  seated-Stalled :
      (player : CafePlayer f) (room : CafeRoom f)
      → player.carried_tea ≡ 0
      → player.carried_rush_ingredient_ids ≡ []
      → RoomStalled room
      → Stalled
          (insert player.id (resume (lookup player.id room.players) player) room.players)
          room.activity
  seated-Stalled player room no_tea free v =
      let seat = resume (lookup player.id room.players) player in
      Stalled-players room.players (insert player.id seat room.players) room.activity
        (tea_held-insert player.id seat room.players
          (resume-carried_tea (lookup player.id room.players) player no_tea))
        (insert-HasNoIngredients player.id seat room.players
          (resume-ingredients room.players player free v.no_ingredients) v.no_ingredients)
        v

  pub join-RoomStalled :
      (event_id now : ℕ) (player : CafePlayer f) (room : CafeRoom f)
      → player.carried_tea ≡ 0
      → player.carried_rush_ingredient_ids ≡ []
      → RoomStalled room
      → RoomStalled (join_room event_id now player room).0
  unfolding join_room
  join-RoomStalled event_id now player room no_tea free v =
      elim (Bool-cases
        (not (contains_key player.id room.players) && leb room_capacity (length room.players))) [
          | inl full ↦ rw full v
          | inr fits ↦ rw fits (elim (Bool-cases (contains_key player.id room.players)) [
            | inl present ↦ rw present (seated-Stalled player room no_tea free v)
            | inr absent ↦ rw absent (seated-Stalled player room no_tea free v)
          ])
        ]

  vacate-RoomStalled :
      (player_id : ℕ) (player : CafePlayer f) (room : CafeRoom f)
      → lookup player_id room.players ≡ some player
      → RoomStalled room
      → RoomStalled (vacate player_id player room)
  unfolding return_ingredients
  vacate-RoomStalled player_id player room here v =
      let nothing = ingredients-lookup player_id room.players player v.no_ingredients here in
      let less = tea_held-remove player_id room.players in
      record {
        tea = v.tea;
        playing = v.playing;
        incomplete = v.incomplete;
        short = rw nothing (omega (arith, v.short, less));
        no_ingredients = remove-HasNoIngredients player_id room.players v.no_ingredients;
      }

  pub settle-RoomStalled :
      (event_id now instant player_id : ℕ) (name : Text) (room : CafeRoom f)
      → RoomStalled room
      → RoomStalled (settle event_id now instant player_id name room)
  unfolding push_left_event broadcast_room_snapshot
  settle-RoomStalled event_id now instant player_id name room v =
      elim (Bool-cases (is_empty room.players)) [ inl e ↦ rw e v | inr e ↦ rw e v ]

  pub leave-RoomStalled :
      (event_id now instant player_id connection_id : ℕ) (room : CafeRoom f)
      → RoomStalled room
      → RoomStalled (leave_room event_id now instant player_id connection_id room)
  unfolding leave_room
  leave-RoomStalled event_id now instant player_id connection_id room v =
      elim (Option-cases (lookup player_id room.players)) [
        | inl gone ↦ rw (gone, leave_found) v
        | inr (player, here) ↦
            rw (here, leave_found)
              (elim (Bool-cases (nat_beq player.connection_id connection_id)) [
                | inl own ↦ rw own (
                    settle-RoomStalled event_id now instant player_id player.name
                      (vacate player_id player room)
                      (vacate-RoomStalled player_id player room here v))
                | inr other ↦ rw other v
              ])
      ]
