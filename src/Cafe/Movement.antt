-- ===== src/Cafe/Movement.antt =====
-- apps/api/src/cafe.rs: `update_player_for_connection` and the movement tick, on the room found.
pub mod Bounds
pub mod Steps
use wfchat.Base.{
  ℕ, ◌-◌, Bool, true, not, ◌&&◌, ◌||◌, Option, none, some, lookup, modify, is_empty, leb, nat_beq,
  nat_eq, if◌then◌else◌,
}
use wfchat.Cafe.F32.{F32, whole, clamp}
use wfchat.Cafe.Room.{CafeRoom, CafePlayer, Direction, broadcast_room_movement}
use wfchat.Cafe.Layout.{cafe_map_layout, cafe_map_collides}

pub record PlayerMovement (f : F32) : Type 0 where
  pub x : f.Carrier
  pub y : f.Carrier
  pub direction : Direction
  pub moving : Bool
  pub sequence : ℕ  -- u64

pub data MovementTickOutcome : Type 0 where
  stop clean sent : MovementTickOutcome

abbrev pub in_bounds : (f : F32) → f.Carrier → ℕ → f.Carrier
in_bounds f value extent =
    let radius = whole f cafe_map_layout.player_collision_radius in
    clamp f value radius (f.sub (whole f extent) radius)

module _ {f : F32} where
  -- How far the player may have come since its last move.
  abbrev pub max_delta : ℕ → CafePlayer f → f.Carrier
  max_delta instant player =
      f.add
        (f.mul (whole f 210)
          (clamp f (f.as_secs (instant - player.last_move_at)) (f.literal 16 3) (f.literal 5 1)))
        (whole f 22)

  abbrev pub distance : CafePlayer f → PlayerMovement f → f.Carrier
  distance player movement =
      let dx = f.sub movement.x player.x in
      let dy = f.sub movement.y player.y in f.sqrt (f.add (f.mul dx dx) (f.mul dy dy))

  abbrev pub too_far : ℕ → CafePlayer f → PlayerMovement f → Bool
  too_far instant player movement =
      f.lt (max_delta instant player) (distance player movement)
      && f.lt (whole f 0) (distance player movement)

  -- One coordinate of the step that is allowed towards the target.
  abbrev pub step_towards : ℕ → CafePlayer f → PlayerMovement f → f.Carrier → f.Carrier → f.Carrier
  step_towards instant player movement from to =
      if too_far instant player movement
      then f.add from
          (f.mul (f.div (f.sub to from) (distance player movement)) (max_delta instant player))
      else to

  abbrev pub next_x : ℕ → CafePlayer f → PlayerMovement f → f.Carrier
  next_x instant player movement =
      in_bounds f (step_towards instant player movement player.x movement.x) cafe_map_layout.width

  abbrev pub next_y : ℕ → CafePlayer f → PlayerMovement f → f.Carrier
  next_y instant player movement =
      in_bounds f (step_towards instant player movement player.y movement.y) cafe_map_layout.height

  -- `elapsed` reads the clock and the last line reads it again, at `instant` both.
  unfoldable pub move_player : ℕ → PlayerMovement f → CafePlayer f → CafePlayer f
  move_player instant movement player =
      let x = next_x instant player movement in
      let y = next_y instant player movement in
      let blocked = cafe_map_collides f x y in
      record player {
        x = if blocked then player.x else x;
        y = if blocked then player.y else y;
        direction = movement.direction;
        moving = movement.moving;
        last_sequence = movement.sequence;
        last_move_at = instant;
      }

  abbrev pub is_stale : PlayerMovement f → CafePlayer f → Bool
  is_stale movement player =
      leb movement.sequence player.last_sequence
      || not (f.is_finite movement.x)
      || not (f.is_finite movement.y)

  abbrev pub update_found :
      ℕ → ℕ → ℕ → PlayerMovement f → Option (CafePlayer f) → CafeRoom f → CafeRoom f
  update_found instant player_id connection_id movement none room = room
  update_found instant player_id connection_id movement (some player) room =
      if not (nat_beq player.connection_id connection_id) || is_stale movement player
      then room
      else record room {
        players = modify player_id (move_player instant movement) room.players;
        movement_dirty = true;
      }

  unfoldable pub update_player_room : ℕ → ℕ → ℕ → PlayerMovement f → CafeRoom f → CafeRoom f
  update_player_room instant player_id connection_id movement room =
      update_found instant player_id connection_id movement (lookup player_id room.players) room

  unfoldable pub flush_room : CafeRoom f → CafeRoom f × MovementTickOutcome
  unfolding broadcast_room_movement
  flush_room room =
      if is_empty room.players
      then (room, stop)
      else if not room.movement_dirty
      then (room, clean)
      else (broadcast_room_movement room, sent)
