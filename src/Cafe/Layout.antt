-- ===== src/Cafe/Layout.antt =====
-- apps/api/src/cafe.rs: `CAFE_MAP_LAYOUT`, its colliders, and distances on it.
use wfchat.Base.{ℕ, Bool, ◌&&◌, List, [], ◌∷◌, Text, codes, any}
use wfchat.Cafe.F32.{F32, whole}
use wfchat.Cafe.Activity.{CafeMapInteractionTarget, cafe_map_interaction_targets}
use wfchat.Cafe.Room.{CafeRoom, CafeDynamicRoomState, dynamic_room_state}

pub record CafeMapCollider : Type 0 where
  pub id : Text
  pub left : ℕ
  pub top : ℕ
  pub width : ℕ
  pub height : ℕ

abbrev collider : Text → ℕ → ℕ → ℕ → ℕ → CafeMapCollider
collider id x y width height = record { id = id; left = x; top = y; width = width; height = height }

abbrev pub cafe_map_colliders : List CafeMapCollider
cafe_map_colliders =
    collider (codes "service-counter") 366 182 488 120
    ∷ collider (codes "table-window") 190 322 120 122
    ∷ collider (codes "table-window-lower") 188 540 108 100
    ∷ collider (codes "table-garden") 990 338 114 106
    ∷ collider (codes "table-garden-lower") 990 544 112 104
    ∷ collider (codes "table-long") 460 523 352 98
    ∷ []

-- The numbers of the layout are whole.
pub record CafeMapLayout : Type 0 where
  pub version : Text
  pub width : ℕ
  pub height : ℕ
  pub player_collision_radius : ℕ
  pub interaction_radius : ℕ
  pub host_interaction_radius : ℕ
  pub spawn_x : ℕ
  pub spawn_y : ℕ
  pub colliders : List CafeMapCollider
  pub interaction_targets : List CafeMapInteractionTarget

abbrev pub cafe_map_layout : CafeMapLayout
cafe_map_layout = record {
  version = codes "cafe-room-v1";
  width = 1280;
  height = 800;
  player_collision_radius = 10;
  interaction_radius = 92;
  host_interaction_radius = 132;
  spawn_x = 640;
  spawn_y = 704;
  colliders = cafe_map_colliders;
  interaction_targets = cafe_map_interaction_targets;
}

-- The state that a player is welcomed with: the dynamic one, and the map.
pub record CafeRoomState (f : F32) : Type 0 where
  pub dynamic : CafeDynamicRoomState f
  pub map_layout : CafeMapLayout

unfoldable pub room_state : {f : F32} → CafeRoom f → CafeRoomState f
room_state room = record { dynamic = dynamic_room_state room; map_layout = cafe_map_layout }

module _ (f : F32) where
  unfoldable pub contains_player : CafeMapCollider → f.Carrier → f.Carrier → Bool
  contains_player c x y =
      let radius = whole f cafe_map_layout.player_collision_radius in
      f.lt (whole f c.left) (f.add x radius)
      && f.lt (f.sub x radius) (f.add (whole f c.left) (whole f c.width))
      && f.lt (whole f c.top) (f.add y radius)
      && f.lt (f.sub y radius) (f.add (whole f c.top) (whole f c.height))

  unfoldable pub cafe_map_collides : f.Carrier → f.Carrier → Bool
  unfolding contains_player
  cafe_map_collides x y = any (λ c. contains_player c x y) cafe_map_layout.colliders

  unfoldable pub distance_between : f.Carrier → f.Carrier → f.Carrier → f.Carrier → f.Carrier
  distance_between left_x left_y right_x right_y =
      let dx = f.sub left_x right_x in
      let dy = f.sub left_y right_y in f.sqrt (f.add (f.mul dx dx) (f.mul dy dy))
