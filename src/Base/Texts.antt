-- ===== src/Base/Texts.antt =====
-- `str` operations on texts: `split`, `trim`, `split_whitespace`, and the tests that they use.
use Prim.Native.Nat.{ℕ}
use mathlib.Core.Path.{◌≡◌, refl, ◌∙◌}
use mathlib.Core.Bool.{Bool, true, false, not, ◌&&◌, ◌||◌}
use mathlib.Core.List.{List, [], ◌∷◌, ◌++◌, reverse, reverse-cons, reverse-reverse}
use native.Mathlib.Omega.{arith}
use package.wfchat.Base.Tests.{if◌then◌else◌, nat_beq, leb, nat_eq}
use package.wfchat.Base.Lists.{Text, is_empty, all}

-- `char::is_whitespace`: Unicode's White_Space.
unfoldable pub is_whitespace : ℕ → Bool
is_whitespace c =
    (leb 9 c && leb c 13)
    || nat_beq c 32
    || nat_beq c 0x85
    || nat_beq c 0xA0
    || nat_beq c 0x1680
    || (leb 0x2000 c && leb c 0x200A)
    || nat_beq c 0x2028
    || nat_beq c 0x2029
    || nat_beq c 0x202F
    || nat_beq c 0x205F
    || nat_beq c 0x3000

-- `char::is_control`: Unicode's category Cc.
unfoldable pub is_control : ℕ → Bool
is_control c = leb c 31 || (leb 127 c && leb c 159)

unfoldable pub trim_start : Text → Text
trim_start [] = []
trim_start (c ∷ s) = if is_whitespace c then trim_start s else c ∷ s

unfoldable pub trim : Text → Text
trim s = reverse (trim_start (reverse (trim_start s)))

abbrev pub push_head : ℕ → List Text → List Text
push_head c [] = (c ∷ []) ∷ []
push_head c (s ∷ ss) = (c ∷ s) ∷ ss

-- `split(char)`.
unfoldable pub split : ℕ → Text → List Text
split sep [] = [] ∷ []
split sep (c ∷ s) = let rest = split sep s in if nat_beq c sep then [] ∷ rest else push_head c rest

is_empty-trim_start : (s : Text) → is_empty (trim_start s) ≡ all is_whitespace s
unfolding trim_start
is_empty-trim_start [] = refl
is_empty-trim_start (c ∷ s) = ground (arith, is_empty-trim_start s)

pub all-append {ℓ} :
    {A : Type ℓ} (p : A → Bool) (xs ys : List A) → all p (xs ++ ys) ≡ (all p xs && all p ys)
all-append p [] ys = refl
all-append p (x ∷ xs) ys = ground (arith, all-append p xs ys)

pub all-reverse {ℓ} : {A : Type ℓ} (p : A → Bool) (xs : List A) → all p (reverse xs) ≡ all p xs
all-reverse p [] = refl
all-reverse p (x ∷ xs) =
    rw (reverse-cons x xs) (ground (arith, all-append p (reverse xs) (x ∷ []), all-reverse p xs))

is_empty-snoc {ℓ} : {A : Type ℓ} (x : A) (ys : List A) → is_empty (ys ++ x ∷ []) ≡ false
is_empty-snoc x [] = refl
is_empty-snoc x (y ∷ ys) = refl

is_empty-reverse {ℓ} : {A : Type ℓ} (xs : List A) → is_empty (reverse xs) ≡ is_empty xs
is_empty-reverse [] = refl
is_empty-reverse (x ∷ xs) = rw (reverse-cons x xs) (is_empty-snoc x (reverse xs))

all-trim_start : (s : Text) → all is_whitespace (trim_start s) ≡ all is_whitespace s
unfolding trim_start
all-trim_start [] = refl
all-trim_start (c ∷ s) = ground (arith, all-trim_start s)

-- Only a blank text trims to nothing.
pub is_empty-trim : (s : Text) → is_empty (trim s) ≡ all is_whitespace s
unfolding trim
is_empty-trim s =
    is_empty-reverse (trim_start (reverse (trim_start s)))
    ∙ is_empty-trim_start (reverse (trim_start s))
    ∙ all-reverse is_whitespace (trim_start s)
    ∙ all-trim_start s

is_empty-push_head : (c : ℕ) (ss : List Text) → is_empty (push_head c ss) ≡ false
is_empty-push_head c [] = refl
is_empty-push_head c (s ∷ ss) = refl

is_empty-split : (sep : ℕ) (s : Text) → is_empty (split sep s) ≡ false
unfolding split
is_empty-split sep [] = refl
is_empty-split sep (c ∷ s) = ground (arith, is_empty-push_head c (split sep s))

push_head-append :
    (c : ℕ) (ss ts : List Text)
    → is_empty ss ≡ false
    → push_head c (ss ++ ts) ≡ push_head c ss ++ ts
push_head-append c [] ts h = cc
push_head-append c (s ∷ ss) ts h = refl

-- A separator splits what stands before it from what stands after.
pub split-append : (sep : ℕ) (s t : Text) → split sep (s ++ sep ∷ t) ≡ split sep s ++ split sep t
unfolding split
split-append sep [] t = ground arith
split-append sep (c ∷ s) t = ground (
  arith,
  split-append sep s t,
  push_head-append c (split sep s) (split sep t) (is_empty-split sep s),
)

abbrev pub is_solid : ℕ → Bool
is_solid c = not (is_whitespace c)

trim_start-solid : (s : Text) → all is_solid s ≡ true → trim_start s ≡ s
unfolding trim_start
trim_start-solid [] h = refl
trim_start-solid (c ∷ s) h = ground arith

-- A text with no white space stays as it is.
pub trim-solid : (s : Text) → all is_solid s ≡ true → trim s ≡ s
unfolding trim
trim-solid s h =
    rw (trim_start-solid s h, trim_start-solid (reverse s) (all-reverse is_solid s ∙ h))
      (reverse-reverse s)

-- `c` is no separator.
abbrev pub is_other : ℕ → ℕ → Bool
is_other sep c = not (nat_beq c sep)

pub split-other : (sep : ℕ) (s : Text) → all (is_other sep) s ≡ true → split sep s ≡ s ∷ []
unfolding split
split-other sep [] h = refl
split-other sep (c ∷ s) h = ground (arith, split-other sep s)
