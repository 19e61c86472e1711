-- ===== src/Cafe/Activity.antt =====
-- apps/api/src/cafe.rs: the map, and `CafeActivity` with the rounds that `for_round` deals.
use wfchat.Base.{
  ℕ, zero, suc, ◌+◌, ◌-◌, ◌%◌, Bool, true, false, List, [], ◌∷◌, ◌++◌, Option, none, some, Text,
  codes, length, take, find, nat_beq, list_beq, nat_eq, if◌then◌else◌, min, max, show,
}
use wfchat.Cafe.F32.{F32, whole}

pub data CafeActivityId : Type 0 where
  tea_delivery table_service cafe_rush : CafeActivityId

pub data CafeTableOrderStatus : Type 0 where
  waiting_ingredient available claimed served : CafeTableOrderStatus

pub data CafeActivityPhase : Type 0 where
  active intermission : CafeActivityPhase

pub record CafeTeaLeaf (f : F32) : Type 0 where
  pub id : Text
  pub x : f.Carrier
  pub y : f.Carrier
  pub available : Bool

pub record CafeTableOrder (f : F32) : Type 0 where
  pub id : Text
  pub table_id : Text
  pub drink : Text
  pub x : f.Carrier
  pub y : f.Carrier
  pub status : CafeTableOrderStatus
  pub claimed_by : Option ℕ

-- Times are in milliseconds since 1970.
pub record CafeActivity (f : F32) : Type 0 where
  pub id : CafeActivityId
  pub round_number : ℕ  -- u32
  pub phase : CafeActivityPhase
  pub next_round_at : Option ℕ
  pub ends_at : Option ℕ
  pub delivered : ℕ  -- u8
  pub target : ℕ  -- u8
  pub combo : ℕ  -- u8
  pub best_combo : ℕ  -- u8
  pub combo_expires_at : Option ℕ
  pub completed : Bool
  pub tea_leaves : List (CafeTeaLeaf f)
  pub table_orders : List (CafeTableOrder f)

-- A place on the map by its coordinates, whole numbers in the source.
pub record Place : Type 0 where
  pub place_x : ℕ
  pub place_y : ℕ

abbrev place : ℕ → ℕ → Place
place x y = record { place_x = x; place_y = y }

abbrev pub tea_layouts : List (List Place)
tea_layouts =
    (place 142 224 ∷ place 1138 248 ∷ place 1064 682 ∷ [])
    ∷ (place 186 666 ∷ place 1094 570 ∷ place 832 300 ∷ [])
    ∷ (place 322 278 ∷ place 950 248 ∷ place 912 688 ∷ [])
    ∷ []

-- A table, a drink and the interaction target.
pub record OrderPlan : Type 0 where
  pub plan_table : Text
  pub plan_drink : Text
  pub plan_target : Text

abbrev plan : Text → Text → Text → OrderPlan
plan t d i = record { plan_table = t; plan_drink = d; plan_target = i }

abbrev pub table_service_orders : List OrderPlan
table_service_orders =
    plan (codes "window") (codes "sakura") (codes "table-window")
    ∷ plan (codes "garden") (codes "mint") (codes "table-garden")
    ∷ plan (codes "long") (codes "classic") (codes "table-long")
    ∷ []

abbrev pub cafe_rush_orders : List OrderPlan
cafe_rush_orders =
    plan (codes "window") (codes "sakura") (codes "table-window")
    ∷ plan (codes "garden") (codes "mint") (codes "table-garden")
    ∷ plan (codes "long") (codes "classic") (codes "table-long")
    ∷ plan (codes "garden") (codes "sakura") (codes "table-garden")
    ∷ plan (codes "window") (codes "classic") (codes "table-window")
    ∷ plan (codes "long") (codes "mint") (codes "table-long")
    ∷ []

abbrev pub cafe_rush_ingredients : List Place
cafe_rush_ingredients =
    place 142 224
    ∷ place 1138 248
    ∷ place 1064 682
    ∷ place 186 666
    ∷ place 1094 570
    ∷ place 832 300
    ∷ []

pub record CafeMapInteractionTarget : Type 0 where
  pub id : Text
  pub target_place : Place

abbrev target_at : Text → ℕ → ℕ → CafeMapInteractionTarget
target_at id x y = record { id = id; target_place = place x y }

abbrev pub service_counter_target_id : Text
service_counter_target_id = codes "service-counter"

abbrev pub cafe_map_interaction_targets : List CafeMapInteractionTarget
cafe_map_interaction_targets =
    target_at (codes "aiko") 640 272
    ∷ target_at service_counter_target_id 640 272
    ∷ target_at (codes "table-window") 250 383
    ∷ target_at (codes "table-garden") 1047 391
    ∷ target_at (codes "table-long") 636 573
    ∷ []

abbrev or_origin : Option CafeMapInteractionTarget → Place
or_origin none = place 0 0
or_origin (some target) = target.target_place

-- The source panics at an id that is not in the table; every call names one that is.
unfoldable pub cafe_map_interaction_target : Text → Place
cafe_map_interaction_target id =
    or_origin (find (λ target. list_beq target.id id) cafe_map_interaction_targets)

abbrev pub cafe_rush_duration_millis : ℕ
cafe_rush_duration_millis = 90_000

-- `format!("{prefix}-{round_number}-{}", index + 1)`.
abbrev pub item_id : Text → ℕ → ℕ → Text
item_id prefix round_number index = prefix ++ (show round_number ++ b'-' ∷ show (index + 1))

unfoldable pub cafe_rush_target : ℕ → ℕ
cafe_rush_target player_count = min (max (player_count + 2) 3) (length cafe_rush_orders)

abbrev pub layout_at : ℕ → List (List Place) → List Place
layout_at i [] = []
layout_at zero (layout ∷ layouts) = layout
layout_at (suc i) (layout ∷ layouts) = layout_at i layouts

module _ (f : F32) where
  -- `enumerate().map(...)` from an index on.
  unfoldable pub tea_leaves_from : ℕ → ℕ → List Place → List (CafeTeaLeaf f)
  tea_leaves_from round_number index [] = []
  tea_leaves_from round_number index (p ∷ ps) =
      record {
        id = item_id (codes "tea-") round_number index;
        x = whole f p.place_x;
        y = whole f p.place_y;
        available = true;
      }
      ∷ tea_leaves_from round_number (suc index) ps

  unfoldable pub table_orders_from :
      ℕ → CafeTableOrderStatus → ℕ → List OrderPlan → List (CafeTableOrder f)
  table_orders_from round_number status index [] = []
  table_orders_from round_number status index (p ∷ ps) =
      let target = cafe_map_interaction_target p.plan_target in
      record {
        id = item_id (codes "order-") round_number index;
        table_id = p.plan_table;
        drink = p.plan_drink;
        x = whole f target.place_x;
        y = whole f target.place_y;
        status = status;
        claimed_by = none;
      }
      ∷ table_orders_from round_number status (suc index) ps

  unfoldable pub tea_delivery_round : ℕ → CafeActivity f
  unfolding tea_leaves_from
  tea_delivery_round round_number = record {
    id = tea_delivery;
    round_number = round_number;
    phase = active;
    next_round_at = none;
    ends_at = none;
    delivered = 0;
    target = 3;
    combo = 0;
    best_combo = 0;
    combo_expires_at = none;
    completed = false;
    tea_leaves = tea_leaves_from round_number 0 (layout_at ((round_number - 1) % 3) tea_layouts);
    table_orders = [];
  }

  unfoldable pub table_service_round : ℕ → CafeActivity f
  unfolding table_orders_from
  table_service_round round_number = record {
    id = table_service;
    round_number = round_number;
    phase = active;
    next_round_at = none;
    ends_at = none;
    delivered = 0;
    target = length table_service_orders;
    combo = 0;
    best_combo = 0;
    combo_expires_at = none;
    completed = false;
    tea_leaves = [];
    table_orders = table_orders_from round_number available 0 table_service_orders;
  }

  -- `now` is the wall clock's, in milliseconds.
  unfoldable pub cafe_rush_round : ℕ → ℕ → ℕ → CafeActivity f
  unfolding tea_leaves_from table_orders_from cafe_rush_target
  cafe_rush_round now round_number player_count =
      let target = cafe_rush_target player_count in
      record {
        id = cafe_rush;
        round_number = round_number;
        phase = active;
        next_round_at = none;
        ends_at = some (now + cafe_rush_duration_millis);
        delivered = 0;
        target = target;
        combo = 0;
        best_combo = 0;
        combo_expires_at = none;
        completed = false;
        tea_leaves = tea_leaves_from round_number 0 (take target cafe_rush_ingredients);
        table_orders =
            table_orders_from round_number waiting_ingredient 0 (take target cafe_rush_orders);
      }

  unfoldable pub for_round : ℕ → ℕ → ℕ → CafeActivity f
  unfolding tea_delivery_round table_service_round cafe_rush_round
  for_round now round_number player_count =
      if nat_beq (round_number % 3) 1
      then tea_delivery_round round_number
      else if nat_beq (round_number % 3) 2
      then table_service_round round_number
      else cafe_rush_round now round_number player_count
