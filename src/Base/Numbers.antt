-- ===== src/Base/Numbers.antt =====
-- Numbers as decimal texts, as `format!` prints and `FromStr` reads them.
use Prim.Native.Nat.{ℕ, zero, suc, ◌+◌, ◌-◌, ◌*◌, ◌/◌, ◌%◌}
use mathlib.Core.Bool.{Bool, true, false, ◌&&◌}
use mathlib.Core.List.{[], ◌∷◌, ◌++◌}
use mathlib.Core.Option.{Option, none, some}
use package.wfchat.Base.Tests.{if◌then◌else◌, ltb, leb, nat_beq}
use package.wfchat.Base.Lists.{Text}

-- The fuel is more than the digits.
unfoldable pub show_digits : ℕ → ℕ → Text
show_digits zero n = []
show_digits (suc fuel) n =
    let rest = show_digits fuel (n / 10) in
    if ltb n 10 then (b'0' + n) ∷ [] else rest ++ (b'0' + n % 10) ∷ []

unfoldable pub show : ℕ → Text
unfolding show_digits
show n = show_digits (suc n) n

abbrev pub is_ascii_digit : ℕ → Bool
is_ascii_digit c = leb b'0' c && leb c b'9'

unfoldable pub read_digits : ℕ → ℕ → Text → Option ℕ
read_digits limit n [] = some n
read_digits limit n (c ∷ s) =
    let value = n * 10 + (c - b'0') in
    let rest = read_digits limit value s in
    if is_ascii_digit c && leb value limit then rest else none

unfoldable pub read_unsigned : ℕ → Text → Option ℕ
unfolding read_digits
read_unsigned limit [] = none
read_unsigned limit (c ∷ s) = read_digits limit 0 (c ∷ s)

-- `parse` at an unsigned type whose greatest number is `limit`: digits after at most one `+`.
unfoldable pub parse_unsigned : ℕ → Text → Option ℕ
unfolding read_unsigned
parse_unsigned limit [] = none
parse_unsigned limit (c ∷ s) =
    if nat_beq c b'+' then read_unsigned limit s else read_unsigned limit (c ∷ s)

abbrev pub u16_max : ℕ
u16_max = 65535

abbrev pub u32_max : ℕ
u32_max = 4294967295

abbrev pub u64_max : ℕ
u64_max = 18446744073709551615

-- The server is built for 64 bits.
abbrev pub usize_max : ℕ
usize_max = u64_max

abbrev pub i64_max : ℕ
i64_max = 9223372036854775807

-- The signed integers: `negsuc n` is -(n + 1).
pub data ℤ : Type 0 where
  pos negsuc : ℕ → ℤ

-- `u64 as i64` and `i64 as u64`, which wrap around.
abbrev pub as_i64 : ℕ → ℤ
as_i64 n = if leb n i64_max then pos n else negsuc (u64_max - n)

abbrev pub as_u64 : ℤ → ℕ
as_u64 (pos n) = n
as_u64 (negsuc n) = u64_max - n

abbrev pub leb_int : ℤ → ℤ → Bool
leb_int (pos m) (pos n) = leb m n
leb_int (pos m) (negsuc n) = false
leb_int (negsuc m) (pos n) = true
leb_int (negsuc m) (negsuc n) = leb n m

abbrev pub max_int : ℤ → ℤ → ℤ
max_int a b = if leb_int a b then b else a

abbrev pub is_negative : ℤ → Bool
is_negative (pos n) = false
is_negative (negsuc n) = true
