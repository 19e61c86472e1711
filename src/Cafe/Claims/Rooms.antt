-- ===== src/Cafe/Claims/Rooms.antt =====
-- Who comes and goes, and which round is played, keeps orders and players in agreement.
use wfchat.Base.{
  u32_max, ℕ, ◌≡◌, inl, inr, Bool, not, ◌&&◌, ◌||◌, none, some, Text, lookup, is_empty, nat_beq,
  nat_eq, option_eq, list_eq, Bool-cases, Option-cases, leb, length, contains_key,
}
use wfchat.Cafe.F32.{F32}
use wfchat.Cafe.Activity.{CafeActivity, for_round, cafe_rush}
use wfchat.Cafe.Room.{
  CafeRoom, CafePlayer, broadcast_room_snapshot, push_left_event, room_capacity, next_saturating,
}
use wfchat.Cafe.Presence.{join_room, leave_room, leave_found, settle, vacate}
use wfchat.Cafe.Delivery.{is_intermission, is_id}
use wfchat.Cafe.Rounds.{start_next_round_room, expire_cafe_rush_room}
use wfchat.Cafe.Claims.Dealt.{for_round-IsUnclaimed}
use wfchat.Cafe.Claims.Invariant.{Agree, Agree-leave, Agree-join, Agree-dealt, Agree-over}

module _ {f : F32} where
  abbrev pub is_playing : CafeRoom f → Bool
  is_playing room = not (is_intermission room.activity.phase)

  abbrev pub RoomAgrees : CafeRoom f → Type 0
  RoomAgrees room = Agree (is_playing room) room.players room.activity.table_orders

  pub join-RoomAgrees :
      (event_id now : ℕ) (player : CafePlayer f) (room : CafeRoom f)
      → player.carried_order_id ≡ none
      → RoomAgrees room
      → RoomAgrees (join_room event_id now player room).0
  unfolding join_room
  join-RoomAgrees event_id now player room free v =
      elim (Bool-cases
        (not (contains_key player.id room.players) && leb room_capacity (length room.players))) [
          | inl full ↦ rw full v
          | inr fits ↦ rw fits (elim (Bool-cases (contains_key player.id room.players)) [
            | inl present ↦
                rw present (
                  Agree-join (is_playing room) room.players room.activity.table_orders v player
                    free)
            | inr absent ↦
                rw absent (
                  Agree-join (is_playing room) room.players room.activity.table_orders v player
                    free)
          ])
        ]

  vacate-RoomAgrees :
      (player_id : ℕ) (player : CafePlayer f) (room : CafeRoom f)
      → lookup player_id room.players ≡ some player
      → RoomAgrees room
      → RoomAgrees (vacate player_id player room)
  vacate-RoomAgrees player_id player room here v =
      rw here at (Agree-leave (is_playing room) room.players room.activity.table_orders v player_id)

  settle-RoomAgrees :
      (event_id now instant player_id : ℕ) (name : Text) (room : CafeRoom f)
      → RoomAgrees room
      → RoomAgrees (settle event_id now instant player_id name room)
  unfolding push_left_event broadcast_room_snapshot
  settle-RoomAgrees event_id now instant player_id name room v =
      elim (Bool-cases (is_empty room.players)) [ inl e ↦ rw e v | inr e ↦ rw e v ]

  pub leave-RoomAgrees :
      (event_id now instant player_id connection_id : ℕ) (room : CafeRoom f)
      → RoomAgrees room
      → RoomAgrees (leave_room event_id now instant player_id connection_id room)
  unfolding leave_room
  leave-RoomAgrees event_id now instant player_id connection_id room v =
      elim (Option-cases (lookup player_id room.players)) [
        | inl gone ↦ rw (gone, leave_found) v
        | inr (player, here) ↦
            rw (here, leave_found)
              (elim (Bool-cases (nat_beq player.connection_id connection_id)) [
                | inl own ↦ rw own (
                    settle-RoomAgrees event_id now instant player_id player.name
                      (vacate player_id player room)
                      (vacate-RoomAgrees player_id player room here v))
                | inr other ↦ rw other v
              ])
      ]

  abbrev dealt_activity : ℕ → ℕ → CafeRoom f → CafeActivity f
  dealt_activity now completed_round room =
      for_round f now (next_saturating u32_max completed_round) (length room.players)

  pub start-RoomAgrees :
      (now completed_round : ℕ) (room : CafeRoom f)
      → RoomAgrees room
      → RoomAgrees (start_next_round_room now completed_round room).0
  unfolding start_next_round_room
  start-RoomAgrees now completed_round room v =
      elim (Bool-cases (
        not (nat_beq room.activity.round_number completed_round)
        || not (is_intermission room.activity.phase))) [
          | inl stale ↦ rw stale v
          | inr due ↦ rw due (
              Agree-dealt room.players (dealt_activity now completed_round room).table_orders
                (not (is_intermission (dealt_activity now completed_round room).phase))
                (for_round-IsUnclaimed f now (next_saturating u32_max completed_round)
                  (length room.players)))
        ]

  pub expire-RoomAgrees :
      (now round_number : ℕ) (room : CafeRoom f)
      → RoomAgrees room
      → RoomAgrees (expire_cafe_rush_room now round_number room).0
  unfolding expire_cafe_rush_room
  expire-RoomAgrees now round_number room v =
      elim (Bool-cases (
        not (is_id room.activity.id cafe_rush)
        || not (nat_beq room.activity.round_number round_number)
        || is_intermission room.activity.phase
        || room.activity.completed)) [
          | inl stale ↦ rw stale v
          | inr due ↦
              rw due (Agree-over room.players room.activity.table_orders (is_playing room) v)
        ]
