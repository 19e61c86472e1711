-- ===== src/Cafe/Delivery.antt =====
-- apps/api/src/cafe.rs: `serve_claimed_order`, and what a delivery does to the round.
-- `now` is the wall clock in milliseconds.
use wfchat.Base.{
  ℕ, ◌+◌, Bool, true, false, not, ◌&&◌, List, [], ◌∷◌, Option, none, some, Text, codes, lookup,
  modify, values, map, find, update_first, list_beq, nat_eq, list_eq, option_eq, ◌==◌, leb,
  if◌then◌else◌, min, max,
}
use wfchat.Cafe.F32.{F32, whole}
use wfchat.Cafe.Activity.{
  CafeActivity, CafeActivityId, CafeTableOrder, CafeTableOrderStatus, CafeActivityPhase,
  tea_delivery, table_service, cafe_rush, waiting_ingredient, available, claimed, served, active,
  intermission, cafe_map_interaction_target,
}
use wfchat.Cafe.Room.{
  CafeRoom, CafePlayer, OwnerScope, dialogue, send, broadcast_room_snapshot, next_saturating,
}
use wfchat.Cafe.Layout.{distance_between, cafe_map_layout}

pub record CafeInteractionResult : Type 0 where
  pub awarded_owners : List OwnerScope
  pub completed_round : Option ℕ

unfoldable pub no_result : CafeInteractionResult
no_result = record { awarded_owners = []; completed_round = none }

abbrev pub round_intermission_millis : ℕ
round_intermission_millis = 8_000

abbrev pub cafe_rush_combo_window_millis : ℕ
cafe_rush_combo_window_millis = 15_000

abbrev pub u8_max : ℕ
u8_max = 255

abbrev pub is_id : CafeActivityId → CafeActivityId → Bool
is_id tea_delivery tea_delivery = true
is_id table_service table_service = true
is_id cafe_rush cafe_rush = true
is_id _ _ = false

abbrev pub is_status : CafeTableOrderStatus → CafeTableOrderStatus → Bool
is_status waiting_ingredient waiting_ingredient = true
is_status available available = true
is_status claimed claimed = true
is_status served served = true
is_status _ _ = false

abbrev pub is_intermission : CafeActivityPhase → Bool
is_intermission intermission = true
is_intermission active = false

abbrev pub happy : Text
happy = codes "happy"

abbrev pub neutral : Text
neutral = codes "neutral"

-- `Vec::pop`, which takes the last element.
abbrev pub pop_last : List Text → List Text
pop_last [] = []
pop_last (x ∷ []) = []
pop_last (x ∷ y ∷ ys) = x ∷ pop_last (y ∷ ys)

-- The combo of a delivery in the rush: it grows within its window and else starts at 1.
abbrev pub in_combo : Option ℕ → ℕ → Bool
in_combo none now = false
in_combo (some expires_at) now = leb now expires_at

abbrev service_words : Bool → CafeActivityId → Text
service_words true id = codes "cafe.dialogue.roundComplete"
service_words false cafe_rush = codes "cafe.dialogue.rushOrderDelivered"
service_words false _ = codes "cafe.dialogue.serviceDelivered"

module _ (f : F32) where
  -- `(x, y)` is within `radius` of the place.
  abbrev pub is_near : f.Carrier → f.Carrier → f.Carrier → f.Carrier → ℕ → Bool
  is_near x y place_x place_y radius =
      f.le (distance_between f x y place_x place_y) (whole f radius)

  -- The player is near the host or the counter, which stand in one place.
  abbrev pub is_near_target : Text → f.Carrier → f.Carrier → Bool
  is_near_target target_id x y =
      let target = cafe_map_interaction_target target_id in
      is_near x y (whole f target.place_x) (whole f target.place_y)
        cafe_map_layout.host_interaction_radius

module _ {f : F32} where
  abbrev pub carried_order : Option (CafePlayer f) → Option Text
  carried_order none = none
  carried_order (some player) = player.carried_order_id

  abbrev pub carried_ingredients : Option (CafePlayer f) → List Text
  carried_ingredients none = []
  carried_ingredients (some player) = player.carried_rush_ingredient_ids

  abbrev pub carried_tea_of : Option (CafePlayer f) → ℕ
  carried_tea_of none = 0
  carried_tea_of (some player) = player.carried_tea

  abbrev pub owners : CafeRoom f → List OwnerScope
  owners room = map (λ player. player.owner) (values room.players)

  abbrev pub claim : ℕ → CafeTableOrder f → CafeTableOrder f
  claim player_id order = record order { status = claimed; claimed_by = some player_id }

  abbrev pub serve : CafeTableOrder f → CafeTableOrder f
  serve order = record order { status = served; claimed_by = none }

  abbrev pub prepare : CafeTableOrder f → CafeTableOrder f
  prepare order = record order { status = available }

  abbrev pub has_status : CafeTableOrderStatus → CafeTableOrder f → Bool
  has_status status order = is_status order.status status

  abbrev pub next_combo : ℕ → CafeActivity f → ℕ
  next_combo now activity =
      if in_combo activity.combo_expires_at now then next_saturating u8_max activity.combo else 1

  unfoldable pub count_combo : ℕ → CafeActivity f → CafeActivity f
  count_combo now activity =
      if is_id activity.id cafe_rush
      then record activity {
        combo = next_combo now activity;
        best_combo = max activity.best_combo (next_combo now activity);
        combo_expires_at = some (now + cafe_rush_combo_window_millis);
      }
      else activity

  abbrev pub completes : CafeActivity f → Bool
  completes activity = not activity.completed && leb activity.target activity.delivered

  abbrev pub deliver : ℕ → CafeActivity f → CafeActivity f
  deliver n activity = record activity {
    delivered = min (min (activity.delivered + n) u8_max) activity.target;
  }

  -- The result of a delivery, and what the room sends of it.
  abbrev pub delivery_result : CafeRoom f → CafeActivity f → CafeInteractionResult
  delivery_result room activity =
      if completes activity
      then record { awarded_owners = owners room; completed_round = some activity.round_number }
      else no_result

  -- The end of a delivery in the rounds with orders.
  unfoldable pub finish_service : ℕ → CafeActivity f → CafeActivity f
  finish_service now activity =
      if completes activity
      then record activity {
        completed = true;
        phase = intermission;
        ends_at = none;
        combo_expires_at = none;
        next_round_at = some (now + round_intermission_millis);
      }
      else activity

  -- The same for a tea round, which leaves `ends_at` and the combo alone.
  unfoldable pub finish_tea : ℕ → CafeActivity f → CafeActivity f
  finish_tea now activity =
      if completes activity
      then record activity {
        completed = true;
        phase = intermission;
        next_round_at = some (now + round_intermission_millis);
      }
      else activity

  abbrev pub clear_order : CafePlayer f → CafePlayer f
  clear_order player = record player { carried_order_id = none }

  -- The order is the player's, the player carries it and stands near it.
  abbrev pub may_serve : ℕ → f.Carrier → f.Carrier → CafeRoom f → CafeTableOrder f → Bool
  may_serve player_id x y room order =
      is_status order.status claimed
      && order.claimed_by == some player_id
      && is_near f x y order.x order.y cafe_map_layout.interaction_radius
      && carried_order (lookup player_id room.players) == some order.id

  unfoldable pub serve_now : ℕ → ℕ → Text → CafeRoom f → CafeRoom f × CafeInteractionResult
  unfolding count_combo finish_service no_result
  serve_now now player_id target_id room =
      let delivered = count_combo now (
        deliver 1 (record (room.activity) {
          table_orders =
              update_first (λ order. list_beq order.id target_id) serve room.activity.table_orders;
        })) in
      let room' = record room {
        players = modify player_id clear_order room.players;
        activity = finish_service now delivered;
      } in
      (
        broadcast_room_snapshot
            (send (dialogue (service_words (completes delivered) delivered.id) happy) room'),
        delivery_result room' delivered,
      )

  abbrev pub serve_found :
      ℕ
      → ℕ
      → f.Carrier
      → f.Carrier
      → Text
      → Option (CafeTableOrder f)
      → CafeRoom f
      → CafeRoom f × CafeInteractionResult
  serve_found now player_id x y target_id none room = (room, no_result)
  serve_found now player_id x y target_id (some order) room =
      if may_serve player_id x y room order
      then serve_now now player_id target_id room
      else (room, no_result)

  unfoldable pub serve_claimed_order :
      ℕ → ℕ → f.Carrier → f.Carrier → Text → CafeRoom f → CafeRoom f × CafeInteractionResult
  serve_claimed_order now player_id x y target_id room =
      serve_found now player_id x y target_id
        (find (λ order. list_beq order.id target_id) room.activity.table_orders) room
