-- ===== src/Cafe/Capacity.antt =====
-- How many players a room of apps/api/src/cafe.rs holds, through every event.
pub mod Runs
use wfchat.Base.{
  ◌≤◌, ◌+◌, modify, insert, remove, length, lookup, contains_key, leb, not, arith, length-modify,
  length-insert, length-remove-le, Map, [], ◌∷◌, if◌then◌else◌, Bool-cases, is_empty, ℕ, ◌≡◌, refl,
  inl, inr, Bool, true, false, ◌&&◌, ◌||◌, List, Option, none, some, Text, find, codes, list_beq,
  is_some, nat_beq, nat_eq, option_eq, list_eq, if-cases, All, Option-cases,
}
use wfchat.Cafe.F32.{F32}
use wfchat.Cafe.Activity.{
  CafeTeaLeaf, CafeTableOrder, available, waiting_ingredient, cafe_rush, table_service,
  service_counter_target_id,
}
use wfchat.Cafe.Room.{
  CafeRoom, CafePlayer, room_capacity, broadcast_room_snapshot, push_left_event, push_chat_event,
}
use wfchat.Cafe.Presence.{join_room, leave_room, leave_found, settle, seat, resume, vacate}
use wfchat.Cafe.Delivery.{
  CafeInteractionResult, is_intermission, is_id, carried_tea_of, carried_ingredients,
  serve_claimed_order, serve_found, serve_now, is_near, is_near_target, may_serve,
}
use wfchat.Cafe.Interact.{
  interact_room, interact_found, interact_at, interact_leaf, interact_other, interact_host,
  interact_idle, interact_table_service, interact_cafe_rush, collect, bring_tea, pick_up,
  pick_up_found, prepare_order, rush_pick_up, lies_there, carries_order, first_order,
}

module _ {f : F32} where
  abbrev pub RoomFits : CafeRoom f → Type 0
  RoomFits room = length room.players ≤ room_capacity

  pub modify-Fits :
      (id : ℕ) (g : CafePlayer f → CafePlayer f) (players : Map ℕ (CafePlayer f))
      → length players ≤ room_capacity
      → length (modify id g players) ≤ room_capacity
  modify-Fits id g players v = omega (arith, v, length-modify id g players)

  abbrev ResultFits : CafeRoom f × CafeInteractionResult → Type 0
  ResultFits r = RoomFits r.0

  serve-RoomFits :
      (now player_id : ℕ) (x y : f.Carrier) (target_id : Text) (room : CafeRoom f)
      → RoomFits room
      → RoomFits (serve_claimed_order now player_id x y target_id room).0
  unfolding serve_claimed_order serve_now broadcast_room_snapshot
  serve-RoomFits now player_id x y target_id room v =
      elim (Option-cases (find (λ order. list_beq order.id target_id) room.activity.table_orders)) [
        | inl missing ↦ rw (missing, serve_found) v
        | inr (order, there) ↦
            rw (there, serve_found)
              (if-cases ResultFits (may_serve player_id x y room order) _ _
                (λ allowed. modify-Fits _ _ _ v) (λ refused. v))
      ]

  pick_up-RoomFits :
      (player_id : ℕ) (words : Text) (order : CafeTableOrder f) (room : CafeRoom f)
      → RoomFits room
      → ResultFits (pick_up player_id words order room)
  unfolding pick_up broadcast_room_snapshot
  pick_up-RoomFits player_id words order room v = modify-Fits _ _ _ v

  service-RoomFits :
      (now player_id : ℕ) (x y : f.Carrier) (target_id : Text) (room : CafeRoom f)
      → RoomFits room
      → ResultFits (interact_table_service now player_id x y target_id room)
  unfolding interact_table_service
  service-RoomFits now player_id x y target_id room v =
      if-cases ResultFits (list_beq target_id service_counter_target_id) _ _
        (λ counter.
          if-cases ResultFits (not (is_near_target f service_counter_target_id x y)) _ _ (λ away. v)
            (λ near.
              if-cases ResultFits (carries_order player_id room) _ _ (λ busy. v)
                (λ free. elim (Option-cases (first_order available room)) [
                  | inl taken ↦ rw (taken, pick_up_found) v
                  | inr (order, there) ↦
                      rw (there, pick_up_found) (pick_up-RoomFits player_id _ order room v)
                ])))
        (λ table. serve-RoomFits now player_id x y target_id room v)

  prepare-RoomFits :
      (player_id : ℕ) (room : CafeRoom f)
      → RoomFits room
      → ResultFits (prepare_order player_id room)
  unfolding prepare_order broadcast_room_snapshot
  prepare-RoomFits player_id room v = modify-Fits _ _ _ v

  rush-RoomFits :
      (now player_id : ℕ) (x y : f.Carrier) (target_id : Text) (room : CafeRoom f)
      → RoomFits room
      → ResultFits (interact_cafe_rush now player_id x y target_id room)
  unfolding interact_cafe_rush
  rush-RoomFits now player_id x y target_id room v =
      if-cases ResultFits (not (list_beq target_id service_counter_target_id)) _ _
        (λ table. serve-RoomFits now player_id x y target_id room v)
        (λ counter.
          if-cases ResultFits (not (is_near_target f service_counter_target_id x y)) _ _ (λ away. v)
            (λ near.
              if-cases ResultFits (carries_order player_id room) _ _ (λ busy. v)
                (λ free.
                  if-cases ResultFits
                    (not (is_empty (carried_ingredients (lookup player_id room.players)))
                      && is_some (first_order waiting_ingredient room))
                    _ _ (λ prepares. prepare-RoomFits player_id room v)
                    (λ else'. elim (Option-cases (first_order available room)) [
                      | inl taken ↦ rw (taken, rush_pick_up) v
                      | inr (order, there) ↦
                          rw (there, rush_pick_up) (pick_up-RoomFits player_id _ order room v)
                    ]))))

  collect-RoomFits :
      (player_id : ℕ) (x y : f.Carrier) (target_id : Text) (leaf : CafeTeaLeaf f)
      (room : CafeRoom f)
      → RoomFits room
      → ResultFits (collect player_id x y target_id leaf room)
  unfolding collect broadcast_room_snapshot
  collect-RoomFits player_id x y target_id leaf room v =
      if-cases ResultFits (is_near f x y leaf.x leaf.y _) _ _ (λ near. modify-Fits _ _ _ v)
        (λ away. v)

  host-RoomFits :
      (now player_id : ℕ) (x y : f.Carrier) (target_id : Text) (room : CafeRoom f)
      → RoomFits room
      → ResultFits (interact_host now player_id x y target_id room)
  unfolding interact_host bring_tea broadcast_room_snapshot
  host-RoomFits now player_id x y target_id room v =
      if-cases ResultFits
        (not (list_beq target_id (codes "aiko")) || not (is_near_target f (codes "aiko") x y)) _ _
        (λ away. v)
        (λ near.
          if-cases ResultFits (nat_beq (carried_tea_of (lookup player_id room.players)) 0) _ _
            (λ nothing. v) (λ tea. modify-Fits _ _ _ v))

  other-RoomFits :
      (now player_id : ℕ) (x y : f.Carrier) (target_id : Text) (room : CafeRoom f)
      → RoomFits room
      → ResultFits (interact_other now player_id x y target_id room)
  unfolding interact_other
  other-RoomFits now player_id x y target_id room v =
      if-cases ResultFits (is_id room.activity.id cafe_rush) _ _
        (λ rush. rush-RoomFits now player_id x y target_id room v)
        (λ tea. host-RoomFits now player_id x y target_id room v)

  at-RoomFits :
      (now player_id : ℕ) (x y : f.Carrier) (target_id : Text) (room : CafeRoom f)
      → RoomFits room
      → ResultFits (interact_at now player_id x y target_id room)
  unfolding interact_at interact_idle
  at-RoomFits now player_id x y target_id room v =
      if-cases ResultFits (is_intermission room.activity.phase) _ _
        (λ over.
          if-cases ResultFits
            (list_beq target_id (codes "aiko") && is_near_target f (codes "aiko") x y) _ _
            (λ host. v) (λ away. v))
        (λ playing.
          if-cases ResultFits (is_id room.activity.id table_service) _ _
            (λ service. service-RoomFits now player_id x y target_id room v)
            (λ leaves. elim (Option-cases (find (lies_there target_id) room.activity.tea_leaves)) [
              | inl none_there ↦
                  rw (none_there, interact_leaf) (other-RoomFits now player_id x y target_id room v)
              | inr (leaf, there) ↦
                  rw (there, interact_leaf) (collect-RoomFits player_id x y target_id leaf room v)
            ]))

  pub interact-RoomFits :
      (now player_id connection_id : ℕ) (target_id : Text) (room : CafeRoom f)
      → RoomFits room
      → ResultFits (interact_room now player_id connection_id target_id room)
  unfolding interact_room
  interact-RoomFits now player_id connection_id target_id room v =
      elim (Option-cases (lookup player_id room.players)) [
        | inl gone ↦ rw (gone, interact_found) v
        | inr (player, here) ↦
            rw (here, interact_found)
              (if-cases ResultFits (nat_beq player.connection_id connection_id) _ _
                (λ own. at-RoomFits now player_id player.x player.y target_id room v) (λ other. v))
      ]

  pub join-RoomFits :
      (event_id now : ℕ) (player : CafePlayer f) (room : CafeRoom f)
      → RoomFits room
      → RoomFits (join_room event_id now player room).0
  unfolding join_room broadcast_room_snapshot push_chat_event
  join-RoomFits event_id now player room v =
      elim (Bool-cases
        (not (contains_key player.id room.players) && leb room_capacity (length room.players))) [
          | inl full ↦ rw full v
          | inr fits ↦ rw fits (elim (Bool-cases (contains_key player.id room.players)) [
            | inl present ↦ rw present (seated fits)
            | inr absent ↦ rw absent (seated fits)
          ])
        ]
    where
      seated :
          (not (contains_key player.id room.players) && leb room_capacity (length room.players))
            ≡ false
          → length (seat player room).players ≤ room_capacity
      seated fits = ground (
        arith,
        length-insert player.id (resume (lookup player.id room.players) player) room.players,
      )

  settle-RoomFits :
      (event_id now instant player_id : ℕ) (name : Text) (room : CafeRoom f)
      → RoomFits room
      → RoomFits (settle event_id now instant player_id name room)
  unfolding push_left_event broadcast_room_snapshot
  settle-RoomFits event_id now instant player_id name room v =
      elim (Bool-cases (is_empty room.players)) [ inl e ↦ rw e v | inr e ↦ rw e v ]

  pub leave-RoomFits :
      (event_id now instant player_id connection_id : ℕ) (room : CafeRoom f)
      → RoomFits room
      → RoomFits (leave_room event_id now instant player_id connection_id room)
  unfolding leave_room
  leave-RoomFits event_id now instant player_id connection_id room v =
      elim (Option-cases (lookup player_id room.players)) [
        | inl gone ↦ rw (gone, leave_found) v
        | inr (player, here) ↦
            rw (here, leave_found)
              (elim (Bool-cases (nat_beq player.connection_id connection_id)) [
                | inl own ↦ rw own (
                    settle-RoomFits event_id now instant player_id player.name
                      (vacate player_id player room)
                      (omega (arith, v, length-remove-le player_id room.players)))
                | inr other ↦ rw other v
              ])
      ]
