-- ===== src/Cafe/Claims/Interactions.antt =====
-- What players do with leaves, orders and the host keeps orders and players in agreement.
use wfchat.Base.{
  ℕ, ◌≡◌, ◌≢◌, refl, inl, inr, false, not, ◌&&◌, ◌||◌, Option, none, some, Text, Map, lookup,
  modify, lookup-modify, find, is_some, is_empty, update_first, list_beq, nat_beq, nat_eq,
  option_eq, list_eq, if-cases, option_beq_iff, arith, Bool-cases, Option-cases, codes,
}
use wfchat.Cafe.F32.{F32}
use wfchat.Cafe.Activity.{
  CafeActivity, CafeTableOrder, CafeTeaLeaf, available, waiting_ingredient,
  service_counter_target_id, table_service, cafe_rush,
}
use wfchat.Cafe.Room.{CafeRoom, CafePlayer, broadcast_room_snapshot}
use wfchat.Cafe.Layout.{cafe_map_layout}
use wfchat.Cafe.Delivery.{
  CafeInteractionResult, carried_tea_of, carried_ingredients, is_intermission, may_serve,
  serve_claimed_order, serve_found, serve_now, count_combo, finish_service, finish_tea, completes,
  deliver, is_id, clear_order, serve, is_near, is_near_target,
}
use wfchat.Cafe.Interact.{
  interact_room, interact_found, interact_at, interact_idle, interact_leaf, interact_other,
  interact_table_service, interact_cafe_rush, interact_host, collect, bring_tea, pick_up,
  pick_up_found, prepare_order, rush_pick_up, take_leaf, drop_tea, lies_there, first_order,
  carries_order,
}
use wfchat.Cafe.Claims.Orders.{claimant-find}
use wfchat.Cafe.Claims.Invariant.{
  carried_by, Agree, Agree-players, Agree-claim, Agree-serve, Agree-prepare,
}
use wfchat.Cafe.Claims.Rooms.{is_playing, RoomAgrees}

module _ {f : F32} where
  abbrev Agrees : Map ℕ (CafePlayer f) → CafeActivity f → Type 0
  Agrees players activity =
      Agree (not (is_intermission activity.phase)) players activity.table_orders

  count-Agrees :
      (now : ℕ) (players : Map ℕ (CafePlayer f)) (activity : CafeActivity f)
      → Agrees players activity
      → Agrees players (count_combo now activity)
  unfolding count_combo
  count-Agrees now players activity v =
      if-cases (Agrees players) (is_id activity.id cafe_rush) _ _ (λ e. v) (λ e. v)

  -- The end of a round is the end of the agreement's second half.
  finish-Agrees :
      (now : ℕ) (players : Map ℕ (CafePlayer f)) (activity : CafeActivity f)
      → Agrees players activity
      → Agrees players (finish_service now activity)
  unfolding finish_service
  finish-Agrees now players activity v =
      if-cases (Agrees players) (completes activity) _ _
        (λ e.
          Agree-players (not (is_intermission activity.phase)) players activity.table_orders v false
            players (λ h. cc) (λ p. refl))
        (λ e. v)

  finish_tea-Agrees :
      (now : ℕ) (players : Map ℕ (CafePlayer f)) (activity : CafeActivity f)
      → Agrees players activity
      → Agrees players (finish_tea now activity)
  unfolding finish_tea
  finish_tea-Agrees now players activity v =
      if-cases (Agrees players) (completes activity) _ _
        (λ e.
          Agree-players (not (is_intermission activity.phase)) players activity.table_orders v false
            players (λ h. cc) (λ p. refl))
        (λ e. v)

  serve_now-RoomAgrees :
      (now player_id : ℕ) (target_id : Text) (room : CafeRoom f)
      → carried_by player_id room.players ≡ some target_id
      → RoomAgrees room
      → RoomAgrees (serve_now now player_id target_id room).0
  unfolding serve_now broadcast_room_snapshot
  serve_now-RoomAgrees now player_id target_id room mine v =
      finish-Agrees now (modify player_id clear_order room.players)
        (count_combo now served_activity)
        (count-Agrees now (modify player_id clear_order room.players) served_activity (
          Agree-serve (is_playing room) room.players room.activity.table_orders v player_id
            target_id mine))
    where
      served_activity : CafeActivity f
      served_activity = deliver 1 (record (room.activity) {
        table_orders =
            update_first (λ order. list_beq order.id target_id) serve room.activity.table_orders;
      })

  serve-RoomAgrees :
      (now player_id : ℕ) (x y : f.Carrier) (target_id : Text) (room : CafeRoom f)
      → RoomAgrees room
      → RoomAgrees (serve_claimed_order now player_id x y target_id room).0
  unfolding serve_claimed_order
  serve-RoomAgrees now player_id x y target_id room v =
      elim (Option-cases (find (λ order. list_beq order.id target_id) room.activity.table_orders)) [
        | inl missing ↦ rw (missing, serve_found) v
        | inr (order, there) ↦
            rw (there, serve_found)
              (elim (Bool-cases (may_serve player_id x y room order)) [
                | inr refused ↦ rw refused v
                | inl allowed ↦ rw allowed (
                    serve_now-RoomAgrees now player_id target_id room
                      (ground (
                        arith,
                        claimant-find target_id room.activity.table_orders order there,
                        option_beq_iff (carried_by player_id room.players) (some order.id),
                      ))
                      v)
              ])
      ]

  pick_up-RoomAgrees :
      (player_id : ℕ) (words : Text) (order : CafeTableOrder f) (room : CafeRoom f)
      → carries_order player_id room ≡ false
      → lookup player_id room.players ≢ none
      → first_order available room ≡ some order
      → RoomAgrees room
      → RoomAgrees (pick_up player_id words order room).0
  unfolding pick_up broadcast_room_snapshot
  pick_up-RoomAgrees player_id words order room free here first v =
      Agree-claim (is_playing room) room.players room.activity.table_orders v player_id order
        (ground arith) here first

  prepare-RoomAgrees :
      (player_id : ℕ) (room : CafeRoom f)
      → RoomAgrees room
      → RoomAgrees (prepare_order player_id room).0
  unfolding prepare_order broadcast_room_snapshot
  prepare-RoomAgrees player_id room v =
      Agree-prepare (is_playing room) room.players room.activity.table_orders v player_id

  pick_up_found-RoomAgrees :
      (player_id : ℕ) (o : Option (CafeTableOrder f)) (room : CafeRoom f)
      → carries_order player_id room ≡ false
      → lookup player_id room.players ≢ none
      → first_order available room ≡ o
      → RoomAgrees room
      → RoomAgrees (pick_up_found player_id o room).0
  pick_up_found-RoomAgrees player_id none room free here first v = v
  pick_up_found-RoomAgrees player_id (some order) room free here first v =
      pick_up-RoomAgrees player_id _ order room free here first v

  rush_pick_up-RoomAgrees :
      (player_id : ℕ) (o : Option (CafeTableOrder f)) (room : CafeRoom f)
      → carries_order player_id room ≡ false
      → lookup player_id room.players ≢ none
      → first_order available room ≡ o
      → RoomAgrees room
      → RoomAgrees (rush_pick_up player_id o room).0
  rush_pick_up-RoomAgrees player_id none room free here first v = v
  rush_pick_up-RoomAgrees player_id (some order) room free here first v =
      pick_up-RoomAgrees player_id _ order room free here first v

  service-RoomAgrees :
      (now player_id : ℕ) (x y : f.Carrier) (target_id : Text) (room : CafeRoom f)
      → lookup player_id room.players ≢ none
      → RoomAgrees room
      → RoomAgrees (interact_table_service now player_id x y target_id room).0
  unfolding interact_table_service
  service-RoomAgrees now player_id x y target_id room here v =
      if-cases P (list_beq target_id service_counter_target_id) _ _
        (λ counter.
          if-cases P (not (is_near_target f service_counter_target_id x y)) _ _ (λ far. v)
            (λ near.
              if-cases P (carries_order player_id room) _ _ (λ busy. v)
                (λ free.
                  pick_up_found-RoomAgrees player_id (first_order available room) room free here
                    refl v)))
        (λ other. serve-RoomAgrees now player_id x y target_id room v)
    where
      P : CafeRoom f × CafeInteractionResult → Type 0
      P r = RoomAgrees r.0

  rush-RoomAgrees :
      (now player_id : ℕ) (x y : f.Carrier) (target_id : Text) (room : CafeRoom f)
      → lookup player_id room.players ≢ none
      → RoomAgrees room
      → RoomAgrees (interact_cafe_rush now player_id x y target_id room).0
  unfolding interact_cafe_rush
  rush-RoomAgrees now player_id x y target_id room here v =
      if-cases P (not (list_beq target_id service_counter_target_id)) _ _
        (λ other. serve-RoomAgrees now player_id x y target_id room v)
        (λ counter.
          if-cases P (not (is_near_target f service_counter_target_id x y)) _ _ (λ far. v)
            (λ near.
              if-cases P (carries_order player_id room) _ _ (λ busy. v)
                (λ free.
                  if-cases P
                    (not (is_empty (carried_ingredients (lookup player_id room.players)))
                      && is_some (first_order waiting_ingredient room))
                    _ _ (λ cook. prepare-RoomAgrees player_id room v)
                    (λ none_waits.
                      rush_pick_up-RoomAgrees player_id (first_order available room) room free here
                        refl v))))
    where
      P : CafeRoom f × CafeInteractionResult → Type 0
      P r = RoomAgrees r.0

  pub carries-modify :
      (p : ℕ) (g : CafePlayer f → CafePlayer f) (players : Map ℕ (CafePlayer f))
      → ((player : CafePlayer f) → (g player).carried_order_id ≡ player.carried_order_id)
      → (q : ℕ) → carried_by q (modify p g players) ≡ carried_by q players
  carries-modify p g players same q = elim (Option-cases (lookup q players)) [
    | inl e ↦ ground (arith, lookup-modify p q g players)
    | inr (player, e) ↦ ground (arith, lookup-modify p q g players, same player)
  ]

  collect-RoomAgrees :
      (player_id : ℕ) (x y : f.Carrier) (target_id : Text) (leaf : CafeTeaLeaf f)
      (room : CafeRoom f)
      → RoomAgrees room
      → RoomAgrees (collect player_id x y target_id leaf room).0
  unfolding collect broadcast_room_snapshot
  collect-RoomAgrees player_id x y target_id leaf room v =
      if-cases (λ (r : CafeRoom f × CafeInteractionResult). RoomAgrees r.0)
        (is_near f x y leaf.x leaf.y cafe_map_layout.interaction_radius) _ _
        (λ near.
          Agree-players (is_playing room) room.players room.activity.table_orders v
            (is_playing room) _ (λ e. e)
            (carries-modify player_id (take_leaf (is_id room.activity.id cafe_rush) leaf)
              room.players (λ p. refl)))
        (λ far. v)

  bring_tea-RoomAgrees :
      (now player_id carried : ℕ) (room : CafeRoom f)
      → RoomAgrees room
      → RoomAgrees (bring_tea now player_id carried room).0
  unfolding bring_tea broadcast_room_snapshot
  bring_tea-RoomAgrees now player_id carried room v =
      finish_tea-Agrees now (modify player_id drop_tea room.players) (deliver carried room.activity)
        (Agree-players (is_playing room) room.players room.activity.table_orders v (is_playing room)
          _ (λ e. e) (carries-modify player_id drop_tea room.players (λ p. refl)))

  host-RoomAgrees :
      (now player_id : ℕ) (x y : f.Carrier) (target_id : Text) (room : CafeRoom f)
      → RoomAgrees room
      → RoomAgrees (interact_host now player_id x y target_id room).0
  unfolding interact_host
  host-RoomAgrees now player_id x y target_id room v =
      if-cases P
        (not (list_beq target_id (codes "aiko")) || not (is_near_target f (codes "aiko") x y)) _ _
        (λ away. v)
        (λ there.
          if-cases P (nat_beq (carried_tea_of (lookup player_id room.players)) 0) _ _ (λ nothing. v)
            (λ some_tea.
              bring_tea-RoomAgrees now player_id (carried_tea_of (lookup player_id room.players))
                room v))
    where
      P : CafeRoom f × CafeInteractionResult → Type 0
      P r = RoomAgrees r.0

  leaf-RoomAgrees :
      (now player_id : ℕ) (x y : f.Carrier) (target_id : Text) (o : Option (CafeTeaLeaf f))
      (room : CafeRoom f)
      → lookup player_id room.players ≢ none
      → RoomAgrees room
      → RoomAgrees (interact_leaf now player_id x y target_id o room).0
  unfolding interact_other
  leaf-RoomAgrees now player_id x y target_id (some leaf) room here v =
      collect-RoomAgrees player_id x y target_id leaf room v
  leaf-RoomAgrees now player_id x y target_id none room here v =
      if-cases (λ (r : CafeRoom f × CafeInteractionResult). RoomAgrees r.0)
        (is_id room.activity.id cafe_rush) _ _
        (λ rush. rush-RoomAgrees now player_id x y target_id room here v)
        (λ tea. host-RoomAgrees now player_id x y target_id room v)

  interact_at-RoomAgrees :
      (now player_id : ℕ) (x y : f.Carrier) (target_id : Text) (room : CafeRoom f)
      → lookup player_id room.players ≢ none
      → RoomAgrees room
      → RoomAgrees (interact_at now player_id x y target_id room).0
  unfolding interact_at interact_idle
  interact_at-RoomAgrees now player_id x y target_id room here v =
      if-cases P (is_intermission room.activity.phase) _ _
        (λ idle.
          if-cases P (list_beq target_id (codes "aiko") && is_near_target f (codes "aiko") x y) _ _
            (λ e. v) (λ e. v))
        (λ playing.
          if-cases P (is_id room.activity.id table_service) _ _
            (λ service. service-RoomAgrees now player_id x y target_id room here v)
            (λ other.
              leaf-RoomAgrees now player_id x y target_id
                (find (lies_there target_id) room.activity.tea_leaves) room here v))
    where
      P : CafeRoom f × CafeInteractionResult → Type 0
      P r = RoomAgrees r.0

  pub interact-RoomAgrees :
      (now player_id connection_id : ℕ) (target_id : Text) (room : CafeRoom f)
      → RoomAgrees room
      → RoomAgrees (interact_room now player_id connection_id target_id room).0
  unfolding interact_room
  interact-RoomAgrees now player_id connection_id target_id room v =
      elim (Option-cases (lookup player_id room.players)) [
        | inl gone ↦ rw (gone, interact_found) v
        | inr (player, here) ↦
            rw (here, interact_found)
              (if-cases (λ (r : CafeRoom f × CafeInteractionResult). RoomAgrees r.0)
                (nat_beq player.connection_id connection_id) _ _
                (λ own.
                  interact_at-RoomAgrees now player_id player.x player.y target_id room
                    (λ e. ground arith) v)
                (λ other. v))
      ]
