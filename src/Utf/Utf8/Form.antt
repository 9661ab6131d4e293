-- ===== src/Utf/Utf8/Form.antt =====
-- The byte form of a code point, in plain arithmetic, and `utf8_encode`.
use skate.Prelude.{ℕ, ◌+◌, ◌/◌, ◌%◌, ◌≤◌, ◌<◌, bit_and, bit_or}
use skate.Prelude.{ltb, if◌then◌else◌, ◌≡◌, List, [], ◌∷◌, ◌++◌, arith}
use skate.Prelude.Bits.{or_field, and_mask, u8}
use skate.Results.{success, failure}
use skate.Utf.Unicode.{Unicode, value}
use skate.Utf.Encode.{utf8_encode}

-- What RFC 3629 gives for a code point up to 0x10ffff.
abbrev pub utf8_form : ℕ → List ℕ
utf8_form v =
    if ltb v 0x80
    then v ∷ []
    else if ltb v 0x800
    then (0xC0 + v / 64) ∷ (0x80 + v % 64) ∷ []
    else if ltb v 0x10000
    then (0xE0 + v / 4096) ∷ (0x80 + v / 64 % 64) ∷ (0x80 + v % 64) ∷ []
    else (0xF0 + v / 262144) ∷ (0x80 + v / 4096 % 64) ∷ (0x80 + v / 64 % 64) ∷ (0x80 + v % 64) ∷ []

pub value_lem : (u : Unicode) → u.cp ≤ 0x10ffff → value u ≡ u.cp
unfolding value
value_lem u h = ground (arith, and_mask 21 u.cp)

trail : (x : ℕ) → u8 (bit_or 0x80 (bit_and x 0x3f)) ≡ 0x80 + x % 64
trail x = ground (arith, and_mask 6 x, or_field 6 2 (x % 64))

lead_two : (x : ℕ) → x < 32 → u8 (bit_or 0xC0 x) ≡ 0xC0 + x
lead_two x h = ground (arith, or_field 5 6 x)

lead_three : (x : ℕ) → x < 16 → u8 (bit_or 0xE0 x) ≡ 0xE0 + x
lead_three x h = ground (arith, or_field 4 14 x)

lead_four : (x : ℕ) → x < 8 → u8 (bit_or 0xF0 x) ≡ 0xF0 + x
lead_four x h = ground (arith, or_field 3 30 x)

-- On a valid value `utf8_encode` succeeds and appends the bytes that the standard gives.
pub utf8_encode-form :
    (u : Unicode) (out : List ℕ)
    → u.cp ≤ 0x10ffff
    → utf8_encode u out ≡ record { output = out ++ utf8_form u.cp; result = success }
unfolding utf8_encode
utf8_encode-form u out h = ground (
  arith,
  value_lem u h,
  trail u.cp,
  trail (u.cp / 64),
  trail (u.cp / 4096),
  lead_two (u.cp / 64),
  lead_three (u.cp / 4096),
  lead_four (u.cp / 262144),
)

pub utf8_encode-invalid :
    (u : Unicode) (out : List ℕ)
    → 0x10ffff < u.cp
    → utf8_encode u out ≡ record { output = out; result = failure }
unfolding utf8_encode
utf8_encode-invalid u out h = ground arith
