-- ===== src/Cafe/F32.antt =====
-- The floating-point numbers of apps/api/src/cafe.rs: an interface, since the language has none.
use wfchat.Base.{ℕ, ◌+◌, ◌-◌, ◌^◌, ◌≤◌, ◌<◌, ◌≡◌, Bool, true, false, ltb, if◌then◌else◌}

-- The type `f32` and what the code uses of it; `literal m k` is the number nearest to m / 10 ^ k.
pub record F32 : Type 1 where
  pub Carrier : Type 0
  pub literal : ℕ → ℕ → Carrier
  pub add : Carrier → Carrier → Carrier
  pub sub : Carrier → Carrier → Carrier
  pub mul : Carrier → Carrier → Carrier
  pub div : Carrier → Carrier → Carrier
  pub sqrt : Carrier → Carrier
  pub lt : Carrier → Carrier → Bool
  pub le : Carrier → Carrier → Bool
  pub is_finite : Carrier → Bool
  -- Whole nanoseconds as seconds.
  pub as_secs : ℕ → Carrier

abbrev pub whole : (f : F32) → ℕ → f.Carrier
whole f n = f.literal n 0

-- `f32::clamp`.
abbrev pub clamp : (f : F32) → f.Carrier → f.Carrier → f.Carrier → f.Carrier
clamp f x lo hi = if f.lt x lo then lo else if f.lt hi x then hi else x

-- IEEE 754: no number is less than itself, and whole numbers below 2 ^ 24 are exact.
pub record IsExact (f : F32) : Type 0 where
  pub lt_irrefl : (x : f.Carrier) → f.lt x x ≡ false
  pub lt_whole : (a b : ℕ) → a < 16777216 → b < 16777216 → f.lt (whole f a) (whole f b) ≡ ltb a b
  pub sub_whole : (a b : ℕ) → b ≤ a → a < 16777216 → f.sub (whole f a) (whole f b) ≡ whole f (a - b)

-- IEEE 754 on the order, of which `le x x` says that x is not the NaN, and on the numbers that are finite.
pub record IsOrdered (f : F32) : Type 0 where
  pub le_of_not_lt :
      (x y : f.Carrier) → f.le x x ≡ true → f.le y y ≡ true → f.lt x y ≡ false → f.le y x ≡ true
  pub le_trans : (x y z : f.Carrier) → f.le x y ≡ true → f.le y z ≡ true → f.le x z ≡ true
  pub finite_le : (x : f.Carrier) → f.is_finite x ≡ true → f.le x x ≡ true
  pub finite_between :
      (a b x : f.Carrier)
      → f.is_finite a ≡ true
      → f.is_finite b ≡ true
      → f.le a x ≡ true
      → f.le x b ≡ true
      → f.is_finite x ≡ true
  pub whole_finite : (n : ℕ) → n < 16777216 → f.is_finite (whole f n) ≡ true
  pub le_whole : (a b : ℕ) → a ≤ b → b < 16777216 → f.le (whole f a) (whole f b) ≡ true
  -- A decimal fraction between 0 and 1 is one after rounding.
  pub le_literal :
      (m k : ℕ)
      → m ≤ 10 ^ k
      → (f.le (whole f 0) (f.literal m k) ≡ true) × (f.le (f.literal m k) (whole f 1) ≡ true)
  pub as_secs_le : (n : ℕ) → f.le (f.as_secs n) (f.as_secs n) ≡ true
  pub mul_unit :
      (n : ℕ) (x : f.Carrier)
      → n < 16777216
      → f.le (whole f 0) x ≡ true
      → f.le x (whole f 1) ≡ true
      → (f.le (whole f 0) (f.mul (whole f n) x) ≡ true)
        × (f.le (f.mul (whole f n) x) (whole f n) ≡ true)
  pub add_whole :
      (n m : ℕ) (x : f.Carrier)
      → n + m < 16777216
      → f.le (whole f 0) x ≡ true
      → f.le x (whole f n) ≡ true
      → (f.le (whole f m) (f.add x (whole f m)) ≡ true)
        × (f.le (f.add x (whole f m)) (whole f (n + m)) ≡ true)
  -- The greatest finite number absorbs a small one.
  pub sub_finite :
      (n : ℕ) (x y : f.Carrier)
      → n < 16777216
      → f.is_finite x ≡ true
      → f.le (whole f 0) y ≡ true
      → f.le y (whole f n) ≡ true
      → f.is_finite (f.sub x y) ≡ true
  pub add_finite :
      (n : ℕ) (x y : f.Carrier)
      → n < 16777216
      → f.is_finite x ≡ true
      → f.le (whole f 0) y ≡ true
      → f.le y (whole f n) ≡ true
      → f.is_finite (f.add y x) ≡ true
  -- A vector that is scaled down to a length has finite coordinates, also where its own length is infinite.
  pub scaled_finite :
      (a b m : f.Carrier)
      → f.is_finite a ≡ true
      → f.is_finite b ≡ true
      → f.is_finite m ≡ true
      → f.le (whole f 0) m ≡ true
      → f.lt m (f.sqrt (f.add (f.mul a a) (f.mul b b))) ≡ true
      → (f.is_finite (f.mul (f.div a (f.sqrt (f.add (f.mul a a) (f.mul b b)))) m) ≡ true)
        × (f.is_finite (f.mul (f.div b (f.sqrt (f.add (f.mul a a) (f.mul b b)))) m) ≡ true)
