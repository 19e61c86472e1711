-- ===== src/Base/Digits.antt =====
-- A number that is printed in decimals is read back.

use wfchat.Base.Lists.{Text, all, is_empty}
use wfchat.Base.Texts.{is_whitespace, trim, trim_start, all-reverse, all-append}
use wfchat.Base.Numbers.{
  show, show_digits, is_ascii_digit, read_digits, read_unsigned, parse_unsigned,
}
use Prim.Native.Nat.{ℕ, zero, suc, ◌+◌, ◌-◌, ◌*◌, ◌/◌, ◌%◌, ◌≤◌, ◌<◌}
use mathlib.Core.Path.{◌≡◌, refl, ◌∙◌}
use mathlib.Core.Bool.{true, false}
use mathlib.Core.List.{[], ◌∷◌, ◌++◌, reverse, reverse-reverse}
use mathlib.Core.Option.{Option, none, some}
use native.Mathlib.Omega.{arith}

-- One more digit.
abbrev next_digit : ℕ → ℕ → Option ℕ → Option ℕ
next_digit limit c none = none
next_digit limit c (some n) = read_digits limit n (c ∷ [])

read_digits-snoc :
    (limit n c : ℕ) (s : Text)
    → read_digits limit n (s ++ c ∷ []) ≡ next_digit limit c (read_digits limit n s)
unfolding read_digits
read_digits-snoc limit n c [] = refl
read_digits-snoc limit n c (d ∷ s) =
    ground (arith, read_digits-snoc limit (n * 10 + (d - b'0')) c s)

read_digits-show_digits :
    (fuel limit n : ℕ) → n < fuel → n ≤ limit → read_digits limit 0 (show_digits fuel n) ≡ some n
unfolding show_digits read_digits
read_digits-show_digits zero limit n lt le = ground arith
read_digits-show_digits (suc fuel) limit n lt le = ground (
  arith,
  read_digits-snoc limit 0 (b'0' + n % 10) (show_digits fuel (n / 10)),
  read_digits-show_digits fuel limit (n / 10),
)

pub read_digits-show : (limit n : ℕ) → n ≤ limit → read_digits limit 0 (show n) ≡ some n
unfolding show
read_digits-show limit n le = read_digits-show_digits (suc n) limit n (omega arith) le

all-show_digits : (fuel n : ℕ) → all is_ascii_digit (show_digits fuel n) ≡ true
unfolding show_digits
all-show_digits zero n = refl
all-show_digits (suc fuel) n = ground (
  arith,
  all-append is_ascii_digit (show_digits fuel (n / 10)) ((b'0' + n % 10) ∷ []),
  all-show_digits fuel (n / 10),
)

pub all-show : (n : ℕ) → all is_ascii_digit (show n) ≡ true
unfolding show
all-show n = all-show_digits (suc n) n

is_empty-snoc_of : (c : ℕ) (s : Text) → is_empty (s ++ c ∷ []) ≡ false
is_empty-snoc_of c [] = refl
is_empty-snoc_of c (d ∷ s) = refl

pub is_empty-show : (n : ℕ) → is_empty (show n) ≡ false
unfolding show show_digits
is_empty-show n = ground (arith, is_empty-snoc_of (b'0' + n % 10) (show_digits n (n / 10)))

trim_start-digits : (s : Text) → all is_ascii_digit s ≡ true → trim_start s ≡ s
unfolding trim_start is_whitespace
trim_start-digits [] h = refl
trim_start-digits (c ∷ s) h = ground arith

trim-digits : (s : Text) → all is_ascii_digit s ≡ true → trim s ≡ s
unfolding trim
trim-digits s h =
    rw (trim_start-digits s h, trim_start-digits (reverse s) (all-reverse is_ascii_digit s ∙ h))
      (reverse-reverse s)

pub trim-show : (n : ℕ) → trim (show n) ≡ show n
trim-show n = trim-digits (show n) (all-show n)

parse_unsigned-digits :
    (limit : ℕ) (s : Text)
    → all is_ascii_digit s ≡ true
    → is_empty s ≡ false
    → parse_unsigned limit s ≡ read_digits limit 0 s
unfolding parse_unsigned read_unsigned
parse_unsigned-digits limit [] h e = cc
parse_unsigned-digits limit (c ∷ s) h e = ground arith

pub parse_unsigned-show : (limit n : ℕ) → n ≤ limit → parse_unsigned limit (show n) ≡ some n
parse_unsigned-show limit n le =
    parse_unsigned-digits limit (show n) (all-show n) (is_empty-show n)
    ∙ read_digits-show limit n le
