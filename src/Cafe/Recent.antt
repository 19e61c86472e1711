-- ===== src/Cafe/Recent.antt =====
-- The chat history of apps/api/src/cafe.rs, through every event of a room.
pub mod Runs
use wfchat.Base.{
  ℕ, ◌≡◌, refl, inl, inr, Bool, true, false, not, ◌&&◌, ◌||◌, List, [], ◌∷◌, Option, none, some,
  Text, Map, lookup, contains_key, length, leb, find, codes, list_beq, is_some, is_empty, nat_beq,
  nat_eq, option_eq, list_eq, if-cases, All, Option-cases, Bool-cases, if◌then◌else◌,
}
use wfchat.Cafe.F32.{F32}
use wfchat.Cafe.Activity.{
  CafeTeaLeaf, CafeTableOrder, available, waiting_ingredient, cafe_rush, table_service,
  service_counter_target_id,
}
use wfchat.Cafe.Room.{
  CafeRoom, CafePlayer, CafeServerMessage, OwnerScope, send, reward, broadcast_room_snapshot,
  push_chat_event, push_left_event, room_capacity,
}
use wfchat.Cafe.Room.History.{IsRecent, push_chat_event-IsRecent, send-IsRecent}
use wfchat.Cafe.Presence.{join_room, leave_room, leave_found, settle, seat}
use wfchat.Cafe.Delivery.{
  CafeInteractionResult, is_intermission, is_id, carried_tea_of, carried_ingredients,
  serve_claimed_order, serve_found, serve_now, is_near, is_near_target, may_serve,
}
use wfchat.Cafe.Interact.{
  interact_room, interact_found, interact_at, interact_leaf, interact_other, interact_host,
  interact_idle, interact_table_service, interact_cafe_rush, collect, bring_tea, pick_up,
  pick_up_found, prepare_order, rush_pick_up, lies_there, carries_order, first_order,
}

module _ {f : F32} where
  abbrev pub RoomRecent : CafeRoom f → Type 0
  RoomRecent room = IsRecent room.chat_history room.sender

  abbrev ResultRecent : CafeRoom f × CafeInteractionResult → Type 0
  ResultRecent r = RoomRecent r.0

  serve-RoomRecent :
      (now player_id : ℕ) (x y : f.Carrier) (target_id : Text) (room : CafeRoom f)
      → RoomRecent room
      → RoomRecent (serve_claimed_order now player_id x y target_id room).0
  unfolding serve_claimed_order serve_now broadcast_room_snapshot
  serve-RoomRecent now player_id x y target_id room v =
      elim (Option-cases (find (λ order. list_beq order.id target_id) room.activity.table_orders)) [
        | inl missing ↦ rw (missing, serve_found) v
        | inr (order, there) ↦
            rw (there, serve_found)
              (if-cases ResultRecent (may_serve player_id x y room order) _ _
                (λ allowed. send-IsRecent _ _ _ refl (send-IsRecent _ _ _ refl v)) (λ refused. v))
      ]

  pick_up-RoomRecent :
      (player_id : ℕ) (words : Text) (order : CafeTableOrder f) (room : CafeRoom f)
      → RoomRecent room
      → ResultRecent (pick_up player_id words order room)
  unfolding pick_up broadcast_room_snapshot
  pick_up-RoomRecent player_id words order room v =
      send-IsRecent _ _ _ refl (send-IsRecent _ _ _ refl v)

  service-RoomRecent :
      (now player_id : ℕ) (x y : f.Carrier) (target_id : Text) (room : CafeRoom f)
      → RoomRecent room
      → ResultRecent (interact_table_service now player_id x y target_id room)
  unfolding interact_table_service
  service-RoomRecent now player_id x y target_id room v =
      if-cases ResultRecent (list_beq target_id service_counter_target_id) _ _
        (λ counter.
          if-cases ResultRecent (not (is_near_target f service_counter_target_id x y)) _ _
            (λ away. v)
            (λ near.
              if-cases ResultRecent (carries_order player_id room) _ _
                (λ busy. send-IsRecent _ _ _ refl v)
                (λ free. elim (Option-cases (first_order available room)) [
                  | inl taken ↦ rw (taken, pick_up_found) (send-IsRecent _ _ _ refl v)
                  | inr (order, there) ↦
                      rw (there, pick_up_found) (pick_up-RoomRecent player_id _ order room v)
                ])))
        (λ table. serve-RoomRecent now player_id x y target_id room v)

  prepare-RoomRecent :
      (player_id : ℕ) (room : CafeRoom f)
      → RoomRecent room
      → ResultRecent (prepare_order player_id room)
  unfolding prepare_order broadcast_room_snapshot
  prepare-RoomRecent player_id room v = send-IsRecent _ _ _ refl (send-IsRecent _ _ _ refl v)

  rush-RoomRecent :
      (now player_id : ℕ) (x y : f.Carrier) (target_id : Text) (room : CafeRoom f)
      → RoomRecent room
      → ResultRecent (interact_cafe_rush now player_id x y target_id room)
  unfolding interact_cafe_rush
  rush-RoomRecent now player_id x y target_id room v =
      if-cases ResultRecent (not (list_beq target_id service_counter_target_id)) _ _
        (λ table. serve-RoomRecent now player_id x y target_id room v)
        (λ counter.
          if-cases ResultRecent (not (is_near_target f service_counter_target_id x y)) _ _
            (λ away. v)
            (λ near.
              if-cases ResultRecent (carries_order player_id room) _ _
                (λ busy. send-IsRecent _ _ _ refl v)
                (λ free.
                  if-cases ResultRecent
                    (not (is_empty (carried_ingredients (lookup player_id room.players)))
                      && is_some (first_order waiting_ingredient room))
                    _ _ (λ prepares. prepare-RoomRecent player_id room v)
                    (λ else'. elim (Option-cases (first_order available room)) [
                      | inl taken ↦ rw (taken, rush_pick_up) (send-IsRecent _ _ _ refl v)
                      | inr (order, there) ↦
                          rw (there, rush_pick_up) (pick_up-RoomRecent player_id _ order room v)
                    ]))))

  collect-RoomRecent :
      (player_id : ℕ) (x y : f.Carrier) (target_id : Text) (leaf : CafeTeaLeaf f)
      (room : CafeRoom f)
      → RoomRecent room
      → ResultRecent (collect player_id x y target_id leaf room)
  unfolding collect broadcast_room_snapshot
  collect-RoomRecent player_id x y target_id leaf room v =
      if-cases ResultRecent (is_near f x y leaf.x leaf.y _) _ _
        (λ near. send-IsRecent _ _ _ refl (send-IsRecent _ _ _ refl v)) (λ away. v)

  host-RoomRecent :
      (now player_id : ℕ) (x y : f.Carrier) (target_id : Text) (room : CafeRoom f)
      → RoomRecent room
      → ResultRecent (interact_host now player_id x y target_id room)
  unfolding interact_host bring_tea broadcast_room_snapshot
  host-RoomRecent now player_id x y target_id room v =
      if-cases ResultRecent
        (not (list_beq target_id (codes "aiko")) || not (is_near_target f (codes "aiko") x y)) _ _
        (λ away. v)
        (λ near.
          if-cases ResultRecent (nat_beq (carried_tea_of (lookup player_id room.players)) 0) _ _
            (λ nothing. send-IsRecent _ _ _ refl v)
            (λ tea. send-IsRecent _ _ _ refl (send-IsRecent _ _ _ refl v)))

  other-RoomRecent :
      (now player_id : ℕ) (x y : f.Carrier) (target_id : Text) (room : CafeRoom f)
      → RoomRecent room
      → ResultRecent (interact_other now player_id x y target_id room)
  unfolding interact_other
  other-RoomRecent now player_id x y target_id room v =
      if-cases ResultRecent (is_id room.activity.id cafe_rush) _ _
        (λ rush. rush-RoomRecent now player_id x y target_id room v)
        (λ tea. host-RoomRecent now player_id x y target_id room v)

  at-RoomRecent :
      (now player_id : ℕ) (x y : f.Carrier) (target_id : Text) (room : CafeRoom f)
      → RoomRecent room
      → ResultRecent (interact_at now player_id x y target_id room)
  unfolding interact_at interact_idle
  at-RoomRecent now player_id x y target_id room v =
      if-cases ResultRecent (is_intermission room.activity.phase) _ _
        (λ over.
          if-cases ResultRecent
            (list_beq target_id (codes "aiko") && is_near_target f (codes "aiko") x y) _ _
            (λ host. send-IsRecent _ _ _ refl v) (λ away. v))
        (λ playing.
          if-cases ResultRecent (is_id room.activity.id table_service) _ _
            (λ service. service-RoomRecent now player_id x y target_id room v)
            (λ leaves. elim (Option-cases (find (lies_there target_id) room.activity.tea_leaves)) [
              | inl none_there ↦
                  rw (none_there, interact_leaf)
                    (other-RoomRecent now player_id x y target_id room v)
              | inr (leaf, there) ↦
                  rw (there, interact_leaf) (collect-RoomRecent player_id x y target_id leaf room v)
            ]))

  pub interact-RoomRecent :
      (now player_id connection_id : ℕ) (target_id : Text) (room : CafeRoom f)
      → RoomRecent room
      → ResultRecent (interact_room now player_id connection_id target_id room)
  unfolding interact_room
  interact-RoomRecent now player_id connection_id target_id room v =
      elim (Option-cases (lookup player_id room.players)) [
        | inl gone ↦ rw (gone, interact_found) v
        | inr (player, here) ↦
            rw (here, interact_found)
              (if-cases ResultRecent (nat_beq player.connection_id connection_id) _ _
                (λ own. at-RoomRecent now player_id player.x player.y target_id room v)
                (λ other. v))
      ]

  pub join-RoomRecent :
      (event_id now : ℕ) (player : CafePlayer f) (room : CafeRoom f)
      → RoomRecent room
      → RoomRecent (join_room event_id now player room).0
  unfolding join_room broadcast_room_snapshot
  join-RoomRecent event_id now player room v =
      elim (Bool-cases
        (not (contains_key player.id room.players) && leb room_capacity (length room.players))) [
          | inl full ↦ rw full v
          | inr fits ↦ rw fits (elim (Bool-cases (contains_key player.id room.players)) [
            | inl present ↦ rw present (send-IsRecent _ _ _ refl v)
            | inr absent ↦ rw absent (
                push_chat_event-IsRecent _ (broadcast_room_snapshot (seat player room))
                  (send-IsRecent _ _ _ refl v))
          ])
        ]

  settle-RoomRecent :
      (event_id now instant player_id : ℕ) (name : Text) (room : CafeRoom f)
      → RoomRecent room
      → RoomRecent (settle event_id now instant player_id name room)
  unfolding push_left_event broadcast_room_snapshot
  settle-RoomRecent event_id now instant player_id name room v =
      elim (Bool-cases (is_empty room.players)) [
        | inl e ↦ rw e (push_chat_event-IsRecent _ room v)
        | inr e ↦
            rw e (
              push_chat_event-IsRecent _ (broadcast_room_snapshot room)
                (send-IsRecent _ _ _ refl v))
      ]

  pub leave-RoomRecent :
      (event_id now instant player_id connection_id : ℕ) (room : CafeRoom f)
      → RoomRecent room
      → RoomRecent (leave_room event_id now instant player_id connection_id room)
  unfolding leave_room
  leave-RoomRecent event_id now instant player_id connection_id room v =
      elim (Option-cases (lookup player_id room.players)) [
        | inl gone ↦ rw (gone, leave_found) v
        | inr (player, here) ↦
            rw (here, leave_found)
              (elim (Bool-cases (nat_beq player.connection_id connection_id)) [
                | inl own ↦
                    rw own (settle-RoomRecent event_id now instant player_id player.name _ v)
                | inr other ↦ rw other v
              ])
      ]
