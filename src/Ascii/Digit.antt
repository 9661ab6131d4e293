-- ===== src/Ascii/Digit.antt =====
-- Digits of skate/containers/utf.h.
use skate.Prelude.{ℕ, ◌+◌, ◌-◌, ◌%◌, ◌<◌, ◌≡◌, refl, arith, bit_and, bit_or, ltb, leb}
use skate.Prelude.{if◌then◌else◌, ◌&&◌, true, false, lt→ltb, List, [], ◌∷◌, get_or, codes}
use skate.Prelude.Bits.{◌>>◌, u8}
use skate.Prelude.Table.{holds_below, holds_below_sound, eq_below, lt_below}

unfoldable pub nibble_to_hex : ℕ → ℕ
nibble_to_hex nibble = get_or (codes "0123456789ABCDEF") (bit_and nibble 0xf) 0

unfoldable pub nibble_to_hex_lower : ℕ → ℕ
nibble_to_hex_lower nibble = get_or (codes "0123456789abcdef") (bit_and nibble 0xf) 0

unfoldable pub int_to_base36 : ℕ → ℕ
int_to_base36 v = if ltb v 10 then b'0' + v else if ltb v 36 then b'A' + (v - 10) else 0

unfoldable pub int_to_base36_lower : ℕ → ℕ
int_to_base36_lower v = if ltb v 10 then b'0' + v else if ltb v 36 then b'a' + (v - 10) else 0

-- The table of `char_traits::char_digit`, as its rows go: what is no digit is 0xff.
abbrev digit_table : List ℕ
digit_table =
    0xff ∷ 0xff ∷ 0xff ∷ 0xff ∷ 0xff ∷ 0xff ∷ 0xff ∷ 0xff ∷ 0xff ∷ 0xff ∷ 0xff ∷ 0xff ∷ 0xff ∷ 0xff
    ∷ 0xff ∷ 0xff ∷ 0xff ∷ 0xff ∷ 0xff ∷ 0xff ∷ 0xff ∷ 0xff ∷ 0xff ∷ 0xff ∷ 0xff ∷ 0xff ∷ 0xff
    ∷ 0xff ∷ 0xff ∷ 0xff ∷ 0xff ∷ 0xff ∷ 0xff ∷ 0xff ∷ 0xff ∷ 0xff ∷ 0xff ∷ 0xff ∷ 0xff ∷ 0xff
    ∷ 0xff ∷ 0xff ∷ 0xff ∷ 0xff ∷ 0xff ∷ 0xff ∷ 0xff ∷ 0xff ∷ 0x00 ∷ 0x01 ∷ 0x02 ∷ 0x03 ∷ 0x04
    ∷ 0x05 ∷ 0x06 ∷ 0x07 ∷ 0x08 ∷ 0x09 ∷ 0xff ∷ 0xff ∷ 0xff ∷ 0xff ∷ 0xff ∷ 0xff ∷ 0xff ∷ 0x0a
    ∷ 0x0b ∷ 0x0c ∷ 0x0d ∷ 0x0e ∷ 0x0f ∷ 0x10 ∷ 0x11 ∷ 0x12 ∷ 0x13 ∷ 0x14 ∷ 0x15 ∷ 0x16 ∷ 0x17
    ∷ 0x18 ∷ 0x19 ∷ 0x1a ∷ 0x1b ∷ 0x1c ∷ 0x1d ∷ 0x1e ∷ 0x1f ∷ 0x20 ∷ 0x21 ∷ 0x22 ∷ 0x23 ∷ 0xff
    ∷ 0xff ∷ 0xff ∷ 0xff ∷ 0xff ∷ 0xff ∷ 0x0a ∷ 0x0b ∷ 0x0c ∷ 0x0d ∷ 0x0e ∷ 0x0f ∷ 0x10 ∷ 0x11
    ∷ 0x12 ∷ 0x13 ∷ 0x14 ∷ 0x15 ∷ 0x16 ∷ 0x17 ∷ 0x18 ∷ 0x19 ∷ 0x1a ∷ 0x1b ∷ 0x1c ∷ 0x1d ∷ 0x1e
    ∷ 0x1f ∷ 0x20 ∷ 0x21 ∷ 0x22 ∷ 0x23 ∷ 0xff ∷ 0xff ∷ 0xff ∷ 0xff ∷ 0xff ∷ []

-- The source indexes its 128 entries by the lowest byte of any character. What lies behind the
-- table is no part of the program: it is the parameter `beyond`.
module _ (beyond : ℕ → ℕ) where
  unfoldable pub table_digit : ℕ → ℕ
  table_digit v = if ltb v 128 then get_or digit_table v 0 else u8 (beyond v)

  unfoldable pub char_digit : ℕ → ℕ
  char_digit v = bit_or (table_digit (u8 v)) (u8 (0x100 >> (if ltb 0x7f v then 1 else 0)))

  unfoldable pub hex_to_nibble : ℕ → ℕ
  unfolding char_digit
  hex_to_nibble c = char_digit c

  unfoldable pub base36_to_int : ℕ → ℕ
  unfolding char_digit
  base36_to_int c = char_digit c

-- The value of an ASCII character as a digit.
abbrev pub ascii_digit : ℕ → ℕ
ascii_digit c =
    if leb b'0' c && leb c b'9'
    then c - b'0'
    else if leb b'A' c && leb c b'Z'
    then c - b'A' + 10
    else if leb b'a' c && leb c b'z'
    then c - b'a' + 10
    else 0xff

table_digit_ascii :
    (beyond : ℕ → ℕ) (c : ℕ) → c < 128 → table_digit beyond c ≡ get_or digit_table c 0
unfolding table_digit
table_digit_ascii beyond c h = rw (lt→ltb c 128 h)

-- On an ASCII character `char_digit` gives the value of a digit or letter and 255 for any other,
-- whatever lies behind the table.
pub char_digit_ascii : (beyond : ℕ → ℕ) (c : ℕ) → c < 128 → char_digit beyond c ≡ ascii_digit c
unfolding char_digit holds_below
char_digit_ascii beyond c h =
    let e : u8 c ≡ c = omega arith in
    let t : ltb 0x7f c ≡ false = ground arith in
    rw (e, t, table_digit_ascii beyond c h)
      (eq_below 128 (λ x. bit_or (get_or digit_table x 0) 0) ascii_digit refl c h)

or_high : (x : ℕ) → x < 256 → 0x7f < bit_or x 0x80
unfolding holds_below
or_high x h =
    let e : leb 0x80 (bit_or x 0x80) ≡ true =
      holds_below_sound 256 (λ y. leb 0x80 (bit_or y 0x80)) refl x h in
    ground arith

table_digit-lt : (beyond : ℕ → ℕ) (v : ℕ) → table_digit beyond v < 256
unfolding table_digit holds_below
table_digit-lt beyond v = ground (arith, lt_below 128 256 (λ y. get_or digit_table y 0) refl v)

-- A character that is no ASCII is never taken for a digit, whatever lies behind the table.
pub char_digit_other : (beyond : ℕ → ℕ) (c : ℕ) → 0x7f < c → 0x7f < char_digit beyond c
unfolding char_digit
char_digit_other beyond c h =
    ground (arith, or_high (table_digit beyond (u8 c)), table_digit-lt beyond (u8 c))

-- The lower nibble of a byte is read back from its character, in upper and in lower case.
pub hex_to_nibble-nibble_to_hex :
    (beyond : ℕ → ℕ) (n : ℕ)
    → n < 256
    → (hex_to_nibble beyond (nibble_to_hex n) ≡ n % 16)
      × (hex_to_nibble beyond (nibble_to_hex_lower n) ≡ n % 16)
unfolding hex_to_nibble table_digit nibble_to_hex nibble_to_hex_lower holds_below
hex_to_nibble-nibble_to_hex beyond n h = (
  eq_below 256 (λ y. hex_to_nibble beyond (nibble_to_hex y)) (λ y. y % 16) refl n h,
  eq_below 256 (λ y. hex_to_nibble beyond (nibble_to_hex_lower y)) (λ y. y % 16) refl n h,
)

-- A digit up to 35 is read back from its character, in upper and in lower case.
pub base36_to_int-int_to_base36 :
    (beyond : ℕ → ℕ) (v : ℕ)
    → v < 36
    → (base36_to_int beyond (int_to_base36 v) ≡ v)
      × (base36_to_int beyond (int_to_base36_lower v) ≡ v)
unfolding base36_to_int table_digit int_to_base36 int_to_base36_lower holds_below
base36_to_int-int_to_base36 beyond v h = (
  eq_below 36 (λ y. base36_to_int beyond (int_to_base36 y)) (λ y. y) refl v h,
  eq_below 36 (λ y. base36_to_int beyond (int_to_base36_lower y)) (λ y. y) refl v h,
)

pub nibble_to_hex-lt : (n : ℕ) → n < 256 → (nibble_to_hex n < 0x80) × (0x20 < nibble_to_hex n)
unfolding nibble_to_hex holds_below
nibble_to_hex-lt n h = (
  lt_below 256 0x80 nibble_to_hex refl n h,
  ground (arith, lt_below 256 0xdf (λ y. 0xff - nibble_to_hex y) refl n h),
)
