-- ===== src/Cafe/Movement/Steps.antt =====
-- The step that apps/api/src/cafe.rs allows a player, in numbers that are finite.
use wfchat.Base.{ℕ, ◌-◌, ◌^◌, ◌≤◌, ◌<◌, ◌≡◌, true, Bool-cases, inl, inr, arith}
use wfchat.Cafe.F32.{F32, IsOrdered, whole, clamp}
use wfchat.Cafe.Room.{CafePlayer}
use wfchat.Cafe.Movement.{PlayerMovement, max_delta, distance, too_far, step_towards}

module _ {f : F32} (o : IsOrdered f) where
  abbrev pub IsBetween : f.Carrier → f.Carrier → f.Carrier → Type 0
  IsBetween a b x = (f.le a x ≡ true) × (f.le x b ≡ true)

  pub clamp-IsBetween :
      (a b value lo hi : f.Carrier)
      → f.le value value ≡ true
      → f.le lo lo ≡ true
      → f.le hi hi ≡ true
      → IsBetween a b lo
      → IsBetween a b hi
      → IsBetween a b (clamp f value lo hi)
  clamp-IsBetween a b value lo hi number lo_number hi_number at_lo at_hi =
      elim (Bool-cases (f.lt value lo)) [
        | inl below ↦ rw below at_lo
        | inr above ↦ rw above (elim (Bool-cases (f.lt hi value)) [
          | inl beyond ↦ rw beyond at_hi
          | inr inside ↦ rw inside (
            o.le_trans a lo value at_lo.0 (o.le_of_not_lt value lo number lo_number above),
            o.le_trans value hi b (o.le_of_not_lt hi value hi_number number inside) at_hi.1,
          )
        ])
      ]

  small_finite :
      (n m : ℕ) (x : f.Carrier)
      → n ≤ m
      → m < 16777216
      → IsBetween (whole f n) (whole f m) x
      → f.is_finite x ≡ true
  small_finite n m x le small between =
      o.finite_between (whole f n) (whole f m) x (o.whole_finite n (omega arith))
        (o.whole_finite m small) between.0 between.1

  literal_le : (m k : ℕ) → m ≤ 10 ^ k → f.le (f.literal m k) (f.literal m k) ≡ true
  literal_le m k le =
      o.finite_le (f.literal m k)
        (small_finite 0 1 (f.literal m k) (omega arith) (omega arith) (o.le_literal m k le))

  module _ (instant : ℕ) (player : CafePlayer f) (movement : PlayerMovement f) where
    max_delta-IsBetween : IsBetween (whole f 22) (whole f 232) (max_delta instant player)
    max_delta-IsBetween =
        let seconds = f.as_secs (instant - player.last_move_at) in
        let unit =
          clamp-IsBetween (whole f 0) (whole f 1) seconds (f.literal 16 3) (f.literal 5 1)
            (o.as_secs_le (instant - player.last_move_at)) (literal_le 16 3 (omega arith))
            (literal_le 5 1 (omega arith)) (o.le_literal 16 3 (omega arith))
            (o.le_literal 5 1 (omega arith)) in
        let product =
          o.mul_unit 210 (clamp f seconds (f.literal 16 3) (f.literal 5 1)) (omega arith) unit.0
            unit.1 in
        o.add_whole 210 22 (f.mul (whole f 210) (clamp f seconds (f.literal 16 3) (f.literal 5 1)))
          (omega arith) product.0 product.1

    module _ (n : ℕ) (small : n < 16777216) (x_finite : f.is_finite movement.x ≡ true)
        (y_finite : f.is_finite movement.y ≡ true)
        (x_between : IsBetween (whole f 0) (whole f n) player.x)
        (y_between : IsBetween (whole f 0) (whole f n) player.y) where
      -- Both coordinates of the target are finite.
      pub step_towards-finite :
          (f.is_finite (step_towards instant player movement player.x movement.x) ≡ true)
          × (f.is_finite (step_towards instant player movement player.y movement.y) ≡ true)
      step_towards-finite = elim (Bool-cases (too_far instant player movement)) [
        | inr near ↦ rw near (x_finite, y_finite)
        | inl far ↦
            let delta = max_delta instant player in
            let longer : f.lt delta (distance player movement) ≡ true = ground (arith, far) in
            let scaled =
              o.scaled_finite (f.sub movement.x player.x) (f.sub movement.y player.y) delta
                (o.sub_finite n movement.x player.x small x_finite x_between.0 x_between.1)
                (o.sub_finite n movement.y player.y small y_finite y_between.0 y_between.1)
                (small_finite 22 232 delta (omega arith) (omega arith) max_delta-IsBetween)
                (o.le_trans (whole f 0) (whole f 22) delta
                  (o.le_whole 0 22 (omega arith) (omega arith)) max_delta-IsBetween.0)
                longer in
            rw far (
              o.add_finite n _ player.x small scaled.0 x_between.0 x_between.1,
              o.add_finite n _ player.y small scaled.1 y_between.0 y_between.1,
            )
      ]
