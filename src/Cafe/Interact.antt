-- ===== src/Cafe/Interact.antt =====
-- apps/api/src/cafe.rs: `interact_for_connection` and the counter's helpers, on the room found.
use wfchat.Base.{
  ℕ, ◌-◌, Bool, true, false, not, ◌&&◌, ◌||◌, [], ◌∷◌, ◌++◌, Option, none, some, Text, codes,
  lookup, modify, is_some, is_empty, find, any, update_first, list_beq, nat_beq, nat_eq,
  if◌then◌else◌,
}
use wfchat.Cafe.F32.{F32}
use wfchat.Cafe.Activity.{
  CafeTeaLeaf, CafeTableOrder, CafeTableOrderStatus, table_service, cafe_rush, waiting_ingredient,
  available, service_counter_target_id,
}
use wfchat.Cafe.Room.{
  CafeRoom, CafePlayer, dialogue, send, broadcast_room_snapshot, next_saturating,
}
use wfchat.Cafe.Layout.{cafe_map_layout}
use wfchat.Cafe.Delivery.{
  CafeInteractionResult, no_result, u8_max, is_id, is_intermission, happy, neutral, carried_order,
  carried_ingredients, carried_tea_of, pop_last, claim, prepare, has_status, is_near,
  is_near_target, completes, deliver, finish_tea, delivery_result, serve_claimed_order,
}

abbrev rush_words : Bool → Text
rush_words true = codes "cafe.dialogue.rushFindIngredient"
rush_words false = codes "cafe.dialogue.serviceOrdersClaimed"

abbrev collect_words : Bool → Text
collect_words true = codes "cafe.dialogue.rushIngredientCollected"
collect_words false = codes "cafe.dialogue.teaCollected"

abbrev tea_words : Bool → Text
tea_words true = codes "cafe.dialogue.roundComplete"
tea_words false = codes "cafe.dialogue.teaProgress"

module _ {f : F32} where
  abbrev pub says : Text → Text → CafeRoom f → CafeRoom f × CafeInteractionResult
  says message_key expression room = (send (dialogue message_key expression) room, no_result)

  -- A message to the room, and then its new state.
  abbrev pub announces : Text → CafeRoom f → CafeRoom f × CafeInteractionResult
  announces message_key room =
      (broadcast_room_snapshot (send (dialogue message_key happy) room), no_result)

  abbrev pub hold_order : Text → CafePlayer f → CafePlayer f
  hold_order order_id player = record player { carried_order_id = some order_id }

  -- The player takes the first order that is ready.
  unfoldable pub pick_up :
      ℕ → Text → CafeTableOrder f → CafeRoom f → CafeRoom f × CafeInteractionResult
  pick_up player_id message_key order room = announces message_key (record room {
    players = modify player_id (hold_order order.id) room.players;
    activity = record (room.activity) {
      table_orders =
          update_first (has_status available) (claim player_id) room.activity.table_orders;
    };
  })

  abbrev pub first_order : CafeTableOrderStatus → CafeRoom f → Option (CafeTableOrder f)
  first_order status room = find (has_status status) room.activity.table_orders

  abbrev pub pick_up_found :
      ℕ → Option (CafeTableOrder f) → CafeRoom f → CafeRoom f × CafeInteractionResult
  pick_up_found player_id none room = says (codes "cafe.dialogue.serviceOrdersClaimed") neutral room
  pick_up_found player_id (some order) room =
      pick_up player_id (codes "cafe.dialogue.servicePickedUp") order room

  abbrev pub carries_order : ℕ → CafeRoom f → Bool
  carries_order player_id room = is_some (carried_order (lookup player_id room.players))

  unfoldable pub interact_table_service :
      ℕ → ℕ → f.Carrier → f.Carrier → Text → CafeRoom f → CafeRoom f × CafeInteractionResult
  interact_table_service now player_id x y target_id room =
      if list_beq target_id service_counter_target_id
      then (if not (is_near_target f service_counter_target_id x y)
          then (room, no_result)
          else if carries_order player_id room
          then says (codes "cafe.dialogue.serviceAlreadyCarrying") neutral room
          else pick_up_found player_id (first_order available room) room)
      else serve_claimed_order now player_id x y target_id room

  abbrev pub spend_ingredient : CafePlayer f → CafePlayer f
  spend_ingredient player = record player {
    carried_tea = player.carried_tea - 1;
    carried_rush_ingredient_ids = pop_last player.carried_rush_ingredient_ids;
  }

  unfoldable pub prepare_order : ℕ → CafeRoom f → CafeRoom f × CafeInteractionResult
  prepare_order player_id room = announces (codes "cafe.dialogue.rushOrderPrepared") (record room {
    players = modify player_id spend_ingredient room.players;
    activity = record (room.activity) {
      table_orders =
          update_first (has_status waiting_ingredient) prepare room.activity.table_orders;
    };
  })

  abbrev pub rush_pick_up :
      ℕ → Option (CafeTableOrder f) → CafeRoom f → CafeRoom f × CafeInteractionResult
  rush_pick_up player_id none room =
      says (rush_words (any (has_status waiting_ingredient) room.activity.table_orders)) neutral
        room
  rush_pick_up player_id (some order) room =
      pick_up player_id (codes "cafe.dialogue.rushOrderPickedUp") order room

  unfoldable pub interact_cafe_rush :
      ℕ → ℕ → f.Carrier → f.Carrier → Text → CafeRoom f → CafeRoom f × CafeInteractionResult
  interact_cafe_rush now player_id x y target_id room =
      if not (list_beq target_id service_counter_target_id)
      then serve_claimed_order now player_id x y target_id room
      else if not (is_near_target f service_counter_target_id x y)
      then (room, no_result)
      else if carries_order player_id room
      then says (codes "cafe.dialogue.serviceAlreadyCarrying") neutral room
      else if not (is_empty (carried_ingredients (lookup player_id room.players)))
          && is_some (first_order waiting_ingredient room)
      then prepare_order player_id room
      else rush_pick_up player_id (first_order available room) room

  abbrev pub take_leaf : Bool → CafeTeaLeaf f → CafePlayer f → CafePlayer f
  take_leaf is_rush leaf player = record player {
    carried_tea = next_saturating u8_max player.carried_tea;
    carried_rush_ingredient_ids =
        if is_rush
        then player.carried_rush_ingredient_ids ++ leaf.id ∷ []
        else player.carried_rush_ingredient_ids;
  }

  abbrev pub lies_there : Text → CafeTeaLeaf f → Bool
  lies_there target_id leaf = list_beq leaf.id target_id && leaf.available

  abbrev pub pluck : CafeTeaLeaf f → CafeTeaLeaf f
  pluck leaf = record leaf { available = false }

  unfoldable pub collect :
      ℕ
      → f.Carrier
      → f.Carrier
      → Text
      → CafeTeaLeaf f
      → CafeRoom f
      → CafeRoom f × CafeInteractionResult
  collect player_id x y target_id leaf room =
      if is_near f x y leaf.x leaf.y cafe_map_layout.interaction_radius
      then announces (collect_words (is_id room.activity.id cafe_rush)) (record room {
        players = modify player_id (take_leaf (is_id room.activity.id cafe_rush) leaf) room.players;
        activity = record (room.activity) {
          tea_leaves = update_first (lies_there target_id) pluck room.activity.tea_leaves;
        };
      })
      else (room, no_result)

  abbrev pub drop_tea : CafePlayer f → CafePlayer f
  drop_tea player = record player { carried_tea = 0 }

  -- The host takes what the player carries.
  unfoldable pub bring_tea : ℕ → ℕ → ℕ → CafeRoom f → CafeRoom f × CafeInteractionResult
  unfolding finish_tea
  bring_tea now player_id carried room =
      let delivered = deliver carried room.activity in
      let room' = record room {
        players = modify player_id drop_tea room.players;
        activity = finish_tea now delivered;
      } in
      (
        broadcast_room_snapshot (send (dialogue (tea_words (completes delivered)) happy) room'),
        delivery_result room' delivered,
      )

  unfoldable pub interact_host :
      ℕ → ℕ → f.Carrier → f.Carrier → Text → CafeRoom f → CafeRoom f × CafeInteractionResult
  interact_host now player_id x y target_id room =
      if not (list_beq target_id (codes "aiko")) || not (is_near_target f (codes "aiko") x y)
      then (room, no_result)
      else if nat_beq (carried_tea_of (lookup player_id room.players)) 0
      then says (codes "cafe.dialogue.teaSearch") neutral room
      else bring_tea now player_id (carried_tea_of (lookup player_id room.players)) room

  unfoldable pub interact_idle :
      f.Carrier → f.Carrier → Text → CafeRoom f → CafeRoom f × CafeInteractionResult
  interact_idle x y target_id room =
      if list_beq target_id (codes "aiko") && is_near_target f (codes "aiko") x y
      then says (codes "cafe.dialogue.intermission") happy room
      else (room, no_result)

  -- Where the target is no leaf that lies there.
  unfoldable pub interact_other :
      ℕ → ℕ → f.Carrier → f.Carrier → Text → CafeRoom f → CafeRoom f × CafeInteractionResult
  interact_other now player_id x y target_id room =
      if is_id room.activity.id cafe_rush
      then interact_cafe_rush now player_id x y target_id room
      else interact_host now player_id x y target_id room

  abbrev pub interact_leaf :
      ℕ
      → ℕ
      → f.Carrier
      → f.Carrier
      → Text
      → Option (CafeTeaLeaf f)
      → CafeRoom f
      → CafeRoom f × CafeInteractionResult
  interact_leaf now player_id x y target_id none room =
      interact_other now player_id x y target_id room
  interact_leaf now player_id x y target_id (some leaf) room =
      collect player_id x y target_id leaf room

  -- The player stands at `(x, y)`.
  unfoldable pub interact_at :
      ℕ → ℕ → f.Carrier → f.Carrier → Text → CafeRoom f → CafeRoom f × CafeInteractionResult
  interact_at now player_id x y target_id room =
      if is_intermission room.activity.phase
      then interact_idle x y target_id room
      else if is_id room.activity.id table_service
      then interact_table_service now player_id x y target_id room
      else interact_leaf now player_id x y target_id
          (find (lies_there target_id) room.activity.tea_leaves) room

  abbrev pub interact_found :
      ℕ → ℕ → ℕ → Text → Option (CafePlayer f) → CafeRoom f → CafeRoom f × CafeInteractionResult
  interact_found now player_id connection_id target_id none room = (room, no_result)
  interact_found now player_id connection_id target_id (some player) room =
      if nat_beq player.connection_id connection_id
      then interact_at now player_id player.x player.y target_id room
      else (room, no_result)

  unfoldable pub interact_room : ℕ → ℕ → ℕ → Text → CafeRoom f → CafeRoom f × CafeInteractionResult
  interact_room now player_id connection_id target_id room =
      interact_found now player_id connection_id target_id (lookup player_id room.players) room
