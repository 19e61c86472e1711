-- ===== src/Cafe/Presence.antt =====
-- apps/api/src/cafe.rs: `join` and `leave_for_connection`, on the room that they find.
use wfchat.Base.{
  ℕ, Bool, true, false, not, ◌&&◌, ◌||◌, List, [], ◌∷◌, Option, none, some, Text, lookup, insert,
  remove, length, contains_key, is_empty, update_first, list_beq, nat_beq, nat_eq, option_eq, ◌==◌,
  leb, if◌then◌else◌,
}
use wfchat.Cafe.F32.{F32}
use wfchat.Cafe.Activity.{CafeActivity, CafeTeaLeaf, CafeTableOrder, available}
use wfchat.Cafe.Room.{
  CafeRoom, CafePlayer, CafeChatEvent, joined, room_capacity, push_chat_event, push_left_event,
  broadcast_room_snapshot,
}
use wfchat.Cafe.Layout.{CafeRoomState, room_state}

pub data CafeJoinError : Type 0 where
  room_not_found room_full : CafeJoinError

-- What the socket gets, and whether it has a movement tick to start. The two receivers of the
-- channels are left out: they see what is sent from now on.
pub record CafeJoin (f : F32) : Type 0 where
  pub revision : ℕ
  pub snapshot : CafeRoomState f
  pub chat_history : List CafeChatEvent
  pub starts_movement_tick : Bool

pub data JoinResult (f : F32) : Type 0 where
  ok : CafeJoin f → JoinResult f
  err : CafeJoinError → JoinResult f

module _ {f : F32} where
  -- A player who comes back on a new connection stays where it was, with its work.
  abbrev pub resume : Option (CafePlayer f) → CafePlayer f → CafePlayer f
  resume none player = player
  resume (some existing) player = record player {
    x = existing.x;
    y = existing.y;
    direction = existing.direction;
    moving = false;
    carried_tea = existing.carried_tea;
    carried_rush_ingredient_ids = existing.carried_rush_ingredient_ids;
    carried_order_id = existing.carried_order_id;
  }

  -- The room with the player in it, before anything is sent.
  abbrev pub seat : CafePlayer f → CafeRoom f → CafeRoom f
  seat player room = record room {
    players = insert player.id (resume (lookup player.id room.players) player) room.players;
    ever_joined = true;
    empty_since = none;
  }

  -- `event_id` is the new `Uuid`, `now` the wall clock in milliseconds.
  unfoldable pub join_room : ℕ → ℕ → CafePlayer f → CafeRoom f → CafeRoom f × JoinResult f
  unfolding broadcast_room_snapshot room_state push_chat_event
  join_room event_id now player room =
      let was_present = contains_key player.id room.players in
      if not was_present && leb room_capacity (length room.players)
      then (room, err room_full)
      else (let seated = broadcast_room_snapshot (seat player room) in
          let told =
            if was_present
            then seated
            else push_chat_event
                (record {
                  id = event_id;
                  kind = joined;
                  player_id = player.id;
                  player_name = player.name;
                  text = none;
                  created_at = now;
                })
                seated in
          let starts = is_empty room.players in
          (
            record told { movement_tick_stop = starts || told.movement_tick_stop },
            ok (record {
              revision = seated.revision;
              snapshot = room_state seated;
              chat_history = room.chat_history;
              starts_movement_tick = starts;
            }),
          ))

  -- The ingredients that the player carried lie on the map again.
  unfoldable pub return_ingredients : List Text → List (CafeTeaLeaf f) → List (CafeTeaLeaf f)
  return_ingredients [] leaves = leaves
  return_ingredients (ingredient_id ∷ ids) leaves = return_ingredients ids (
      update_first (λ leaf. list_beq leaf.id ingredient_id)
        (λ leaf. record leaf { available = true }) leaves)

  abbrev pub unclaim : CafeTableOrder f → CafeTableOrder f
  unclaim order = record order { status = available; claimed_by = none }

  -- The order that the player carried can be taken again.
  unfoldable pub return_order : ℕ → Option Text → List (CafeTableOrder f) → List (CafeTableOrder f)
  return_order player_id none orders = orders
  return_order player_id (some order_id) orders =
      update_first (λ order. list_beq order.id order_id && order.claimed_by == some player_id)
        unclaim orders

  abbrev pub return_work : ℕ → CafePlayer f → CafeActivity f → CafeActivity f
  return_work player_id player activity = record activity {
    tea_leaves = return_ingredients player.carried_rush_ingredient_ids activity.tea_leaves;
    table_orders = return_order player_id player.carried_order_id activity.table_orders;
  }

  -- The room without the player, before anything is sent.
  abbrev pub vacate : ℕ → CafePlayer f → CafeRoom f → CafeRoom f
  vacate player_id player room = record room {
    players = remove player_id room.players;
    activity = return_work player_id player room.activity;
  }

  abbrev pub settle : ℕ → ℕ → ℕ → ℕ → Text → CafeRoom f → CafeRoom f
  settle event_id now instant player_id player_name room =
      if is_empty room.players
      then record (push_left_event event_id now player_id player_name room) {
        movement_dirty = false;
        empty_since = some instant;
        movement_tick_stop = false;
      }
      else push_left_event event_id now player_id player_name (broadcast_room_snapshot room)

  -- The connection is the player's current one.
  abbrev pub owns : ℕ → Option (CafePlayer f) → Bool
  owns connection_id none = false
  owns connection_id (some player) = nat_beq player.connection_id connection_id

  abbrev pub leave_found : ℕ → ℕ → ℕ → ℕ → ℕ → Option (CafePlayer f) → CafeRoom f → CafeRoom f
  leave_found event_id now instant player_id connection_id none room = room
  leave_found event_id now instant player_id connection_id (some player) room =
      if nat_beq player.connection_id connection_id
      then settle event_id now instant player_id player.name (vacate player_id player room)
      else room

  -- `instant` is the monotonic clock in nanoseconds.
  unfoldable pub leave_room : ℕ → ℕ → ℕ → ℕ → ℕ → CafeRoom f → CafeRoom f
  unfolding return_ingredients return_order push_left_event broadcast_room_snapshot
  leave_room event_id now instant player_id connection_id room =
      leave_found event_id now instant player_id connection_id (lookup player_id room.players) room
