-- ===== src/Cafe/Stalled/Interactions.antt =====
-- What players do with leaves and the host keeps a tea round stalled.
use wfchat.Base.{
  ℕ, ◌≡◌, refl, false, not, ◌||◌, some, Text, lookup, nat_beq, nat_eq, list_eq, option_eq, arith,
  find, list_beq, codes, if-cases, Option-cases, inl, inr,
}
use wfchat.Cafe.F32.{F32}
use wfchat.Cafe.Activity.{CafeTeaLeaf, table_service, cafe_rush}
use wfchat.Cafe.Room.{CafeRoom, CafePlayer, broadcast_room_snapshot}
use wfchat.Cafe.Layout.{cafe_map_layout}
use wfchat.Cafe.Delivery.{
  CafeInteractionResult, is_id, deliver, finish_tea, completes, is_near, is_near_target,
}
use wfchat.Cafe.Interact.{
  interact_room, interact_found, interact_at, interact_leaf, interact_other, interact_host, collect,
  bring_tea, take_leaf, drop_tea, lies_there,
}
use wfchat.Cafe.Stalled.{RoomStalled, tea_held-modify, modify-HasNoIngredients, leaves_left-pluck}

module _ {f : F32} where
  collect-RoomStalled :
      (player_id : ℕ) (x y : f.Carrier) (target_id : Text) (leaf : CafeTeaLeaf f)
      (room : CafeRoom f) (player : CafePlayer f)
      → lookup player_id room.players ≡ some player
      → find (lies_there target_id) room.activity.tea_leaves ≡ some leaf
      → RoomStalled room
      → RoomStalled (collect player_id x y target_id leaf room).0
  unfolding collect broadcast_room_snapshot
  collect-RoomStalled player_id x y target_id leaf room player here there v =
      if-cases (λ (r : CafeRoom f × CafeInteractionResult). RoomStalled r.0)
        (is_near f x y leaf.x leaf.y cafe_map_layout.interaction_radius) _ _
        (λ e. record {
          tea = v.tea;
          playing = v.playing;
          incomplete = v.incomplete;
          short = omega (
            arith,
            v.short,
            leaves_left-pluck target_id room.activity.tea_leaves leaf there,
            tea_held-modify player_id (take_leaf (is_id room.activity.id cafe_rush) leaf)
                room.players player here,
          );
          no_ingredients =
              modify-HasNoIngredients player_id (take_leaf (is_id room.activity.id cafe_rush) leaf)
                room.players (λ p. rw v.tea refl) v.no_ingredients;
        })
        (λ e. v)

  deliver-completes :
      (player_id : ℕ) (room : CafeRoom f) (player : CafePlayer f)
      → lookup player_id room.players ≡ some player
      → RoomStalled room
      → completes (deliver player.carried_tea room.activity) ≡ false
  deliver-completes player_id room player here v =
      ground (arith, v.short, tea_held-modify player_id drop_tea room.players player here)

  bring_tea-RoomStalled :
      (now player_id : ℕ) (room : CafeRoom f) (player : CafePlayer f)
      → lookup player_id room.players ≡ some player
      → RoomStalled room
      → RoomStalled (bring_tea now player_id player.carried_tea room).0
  unfolding bring_tea broadcast_room_snapshot finish_tea
  bring_tea-RoomStalled now player_id room player here v =
      rw (deliver-completes player_id room player here v) (record {
        tea = v.tea;
        playing = v.playing;
        incomplete = v.incomplete;
        short = omega (arith, v.short, tea_held-modify player_id drop_tea room.players player here);
        no_ingredients =
            modify-HasNoIngredients player_id drop_tea room.players (λ p. refl) v.no_ingredients;
      })

  interact_host-RoomStalled :
      (now player_id : ℕ) (x y : f.Carrier) (target_id : Text) (room : CafeRoom f)
      (player : CafePlayer f)
      → lookup player_id room.players ≡ some player
      → RoomStalled room
      → RoomStalled (interact_host now player_id x y target_id room).0
  unfolding interact_host
  interact_host-RoomStalled now player_id x y target_id room player here v =
      if-cases (λ (r : CafeRoom f × CafeInteractionResult). RoomStalled r.0)
        (not (list_beq target_id (codes "aiko")) || not (is_near_target f (codes "aiko") x y)) _ _
        (λ away. v)
        (λ near. rw here (
          if-cases (λ (r : CafeRoom f × CafeInteractionResult). RoomStalled r.0)
            (nat_beq player.carried_tea 0) _ _ (λ nothing. v)
            (λ some_tea. bring_tea-RoomStalled now player_id room player here v)))

  interact_at-RoomStalled :
      (now player_id : ℕ) (x y : f.Carrier) (target_id : Text) (room : CafeRoom f)
      (player : CafePlayer f)
      → lookup player_id room.players ≡ some player
      → RoomStalled room
      → RoomStalled (interact_at now player_id x y target_id room).0
  unfolding interact_at interact_other
  interact_at-RoomStalled now player_id x y target_id room player here v =
      let not_service : is_id room.activity.id table_service ≡ false = rw v.tea refl in
      let not_rush : is_id room.activity.id cafe_rush ≡ false = rw v.tea refl in
      rw (v.playing, not_service)
        (elim (Option-cases (find (lies_there target_id) room.activity.tea_leaves)) [
          | inl no_leaf ↦
              rw (no_leaf, interact_leaf, not_rush)
                (interact_host-RoomStalled now player_id x y target_id room player here v)
          | inr (leaf, there) ↦
              rw (there, interact_leaf)
                (collect-RoomStalled player_id x y target_id leaf room player here there v)
        ])

  pub interact-RoomStalled :
      (now player_id connection_id : ℕ) (target_id : Text) (room : CafeRoom f)
      → RoomStalled room
      → RoomStalled (interact_room now player_id connection_id target_id room).0
  unfolding interact_room
  interact-RoomStalled now player_id connection_id target_id room v =
      elim (Option-cases (lookup player_id room.players)) [
        | inl gone ↦ rw (gone, interact_found) v
        | inr (player, here) ↦
            rw (here, interact_found)
              (if-cases (λ (r : CafeRoom f × CafeInteractionResult). RoomStalled r.0)
                (nat_beq player.connection_id connection_id) _ _
                (λ own.
                  interact_at-RoomStalled now player_id player.x player.y target_id room player here
                    v)
                (λ other. v))
      ]
