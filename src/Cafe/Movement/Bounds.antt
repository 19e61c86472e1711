-- ===== src/Cafe/Movement/Bounds.antt =====
-- Where players may stand, in apps/api/src/cafe.rs.
use wfchat.Base.{
  ℕ, ◌-◌, ◌≤◌, ◌<◌, ◌≡◌, true, false, not, ◌||◌, Option, none, some, Map, lookup, modify,
  lookup-modify, map_found, ◌==◌, nat_beq, nat_eq, if-cases, Option-cases, Bool-cases, inl, inr,
  arith,
}
use wfchat.Cafe.F32.{F32, IsExact, IsOrdered, whole}
use wfchat.Cafe.Room.{CafeRoom, CafePlayer}
use wfchat.Cafe.Layout.{cafe_map_layout, cafe_map_collides}
use wfchat.Cafe.Movement.Steps.{IsBetween, clamp-IsBetween, step_towards-finite}
use wfchat.Cafe.Movement.{
  PlayerMovement, move_player, update_player_room, update_found, is_stale, in_bounds, next_x,
  next_y,
}

module _ (f : F32) where
  -- The coordinate is a number, at least the radius of a player away from both ends.
  pub record IsWithinBounds (value : f.Carrier) (extent : ℕ) : Type 0 where
    pub from_start : f.le (whole f cafe_map_layout.player_collision_radius) value ≡ true
    pub from_end : f.le value (whole f (extent - cafe_map_layout.player_collision_radius)) ≡ true

  -- A player at `(x, y)` stands on the map and in none of its colliders.
  pub record IsClear (x y : f.Carrier) : Type 0 where
    pub within_width : IsWithinBounds x cafe_map_layout.width
    pub within_height : IsWithinBounds y cafe_map_layout.height
    pub beside : cafe_map_collides f x y ≡ false

  abbrev pub HasClearPlace : Option (CafePlayer f) → Type 0
  HasClearPlace none = Unit
  HasClearPlace (some player) = IsClear player.x player.y

  abbrev pub AllClear : Map ℕ (CafePlayer f) → Type 0
  AllClear players = (id : ℕ) → HasClearPlace (lookup id players)

  moved-HasClearPlace :
      (g : CafePlayer f → CafePlayer f) (o : Option (CafePlayer f))
      → ((player : CafePlayer f) → IsClear player.x player.y → HasClearPlace (some (g player)))
      → HasClearPlace o
      → HasClearPlace (map_found g o)
  moved-HasClearPlace g none h v = tt
  moved-HasClearPlace g (some player) h v = h player v

  modify-AllClear :
      (id : ℕ) (g : CafePlayer f → CafePlayer f) (players : Map ℕ (CafePlayer f))
      → ((player : CafePlayer f) → IsClear player.x player.y → HasClearPlace (some (g player)))
      → AllClear players
      → AllClear (modify id g players)
  modify-AllClear id g players h v other = rw (lookup-modify id other g players) (
      if-cases HasClearPlace (id == other) _ _
        (λ e. moved-HasClearPlace g (lookup other players) h (v other)) (λ e. v other))

module _ {f : F32} (x : IsExact f) (o : IsOrdered f) where
  in_bounds-IsWithinBounds :
      (value : f.Carrier) (extent : ℕ)
      → f.is_finite value ≡ true
      → 20 ≤ extent
      → extent < 16777216
      → IsWithinBounds f (in_bounds f value extent) extent
  in_bounds-IsWithinBounds value extent finite wide small =
      let end = x.sub_whole extent 10 (omega arith) small in
      let start_le = o.le_whole 10 10 (omega arith) (omega arith) in
      let end_le = o.le_whole (extent - 10) (extent - 10) (omega arith) (omega arith) in
      let apart = o.le_whole 10 (extent - 10) (omega arith) (omega arith) in
      let within =
        clamp-IsBetween o (whole f 10) (whole f (extent - 10)) value (whole f 10)
          (whole f (extent - 10)) (o.finite_le value finite) start_le end_le (start_le, apart)
          (apart, end_le) in
      rw end (record { from_start = within.0; from_end = within.1 })

  -- On the map, a coordinate is between 0 and its greatest one.
  inside :
      (value : f.Carrier) (extent : ℕ)
      → extent ≤ 1280
      → IsWithinBounds f value extent
      → IsBetween o (whole f 0) (whole f 1280) value
  inside value extent le v = (
    o.le_trans (whole f 0) (whole f 10) value (o.le_whole 0 10 (omega arith) (omega arith))
        v.from_start,
    o.le_trans value (whole f (extent - 10)) (whole f 1280) v.from_end
        (o.le_whole (extent - 10) 1280 (omega arith) (omega arith)),
  )

  move_player-IsClear :
      (instant : ℕ) (movement : PlayerMovement f) (player : CafePlayer f)
      → f.is_finite movement.x ≡ true
      → f.is_finite movement.y ≡ true
      → IsClear f player.x player.y
      → HasClearPlace f (some (move_player instant movement player))
  unfolding move_player
  move_player-IsClear instant movement player x_finite y_finite v =
      let step =
        step_towards-finite o instant player movement 1280 (omega arith) x_finite y_finite
          (inside player.x cafe_map_layout.width (omega arith) v.within_width)
          (inside player.y cafe_map_layout.height (omega arith) v.within_height) in
      elim (Bool-cases
        (cafe_map_collides f (next_x instant player movement) (next_y instant player movement))) [
          | inl blocked ↦ rw blocked v
          | inr free ↦ rw free (record {
            within_width =
                in_bounds-IsWithinBounds _ cafe_map_layout.width step.0 (omega arith) (omega arith);
            within_height =
                in_bounds-IsWithinBounds _ cafe_map_layout.height step.1 (omega arith)
                  (omega arith);
            beside = free;
          })
        ]

  -- A movement, whatever it asks for and from whatever connection, leaves every player on the map, at
  -- coordinates that are numbers, and in none of its colliders, if they were before. (The numbers are as
  -- in IEEE 754.)
  pub update_player_room-IsClear :
      (instant player_id connection_id : ℕ) (movement : PlayerMovement f) (room : CafeRoom f)
      → AllClear f room.players
      → AllClear f (update_player_room instant player_id connection_id movement room).players
  unfolding update_player_room
  update_player_room-IsClear instant player_id connection_id movement room v =
      elim (Option-cases (lookup player_id room.players)) [
        | inl gone ↦ rw (gone, update_found) v
        | inr (player, here) ↦
            rw (here, update_found)
              (if-cases (λ (r : CafeRoom f). AllClear f r.players)
                (not (nat_beq player.connection_id connection_id) || is_stale movement player) _ _
                (λ refused. v)
                (λ moved.
                  let x_finite : f.is_finite movement.x ≡ true = ground (arith, moved) in
                  let y_finite : f.is_finite movement.y ≡ true = ground (arith, moved) in
                  modify-AllClear f player_id (move_player instant movement) room.players
                    (λ other. move_player-IsClear instant movement other x_finite y_finite) v))
      ]
