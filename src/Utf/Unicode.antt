-- ===== src/Utf/Unicode.antt =====
-- The class `unicode` of skate/containers/utf.h. Its one field is a `std::uint32_t`.
use skate.Prelude.{ℕ, ◌+◌, ◌-◌, ◌≤◌, ◌<◌, bit_and, bit_or, ltb, leb}
use skate.Prelude.{Bool, not, ◌&&◌, if◌then◌else◌, ◌⊎◌}
use skate.Prelude.Bits.{◌<<◌, ◌>>◌, u16}

pub record Unicode : Type 0 where
  pub cp : ℕ

abbrev pub utf_max : ℕ
utf_max = 0x10ffff

abbrev pub utf_mask : ℕ
utf_mask = 0x1fffff

abbrev pub utf_error : ℕ
utf_error = 0x8000fffd

unfoldable pub is_utf16_surrogate : ℕ → Bool
is_utf16_surrogate cp = leb 0xd800 cp && leb cp 0xdfff

unfoldable pub is_utf16_hi_surrogate : ℕ → Bool
is_utf16_hi_surrogate cp = leb 0xd800 cp && leb cp 0xdbff

unfoldable pub is_utf16_lo_surrogate : ℕ → Bool
is_utf16_lo_surrogate cp = leb 0xdc00 cp && leb cp 0xdfff

-- The constructor from a code point; the test is `<` in the source.
unfoldable pub unicode : ℕ → Unicode
unfolding is_utf16_surrogate
unicode codepoint =
    if ltb codepoint utf_max && not (is_utf16_surrogate codepoint)
    then record { cp = codepoint }
    else record { cp = utf_error }

-- The constructor from two surrogates.
unfoldable pub unicode_pair : ℕ → ℕ → Unicode
unfolding is_utf16_hi_surrogate is_utf16_lo_surrogate
unicode_pair hi lo =
    if is_utf16_hi_surrogate hi && is_utf16_lo_surrogate lo
    then record { cp = bit_or (bit_and hi 0x3ff << 10) (bit_and lo 0x3ff) + 0x10000 }
    else record { cp = utf_error }

unfoldable pub is_valid : Unicode → Bool
is_valid u = leb u.cp utf_max

unfoldable pub value : Unicode → ℕ
value u = bit_and u.cp utf_mask

unfoldable pub utf8_size : Unicode → ℕ
utf8_size u =
    if leb u.cp 0x7f
    then 1
    else if leb u.cp 0x7ff
    then 2
    else if leb u.cp 0xffff
    then 3
    else if leb u.cp utf_max
    then 4
    else 0

unfoldable pub utf16_size : Unicode → ℕ
utf16_size u = if leb u.cp 0xffff then 1 else 2

unfoldable pub utf16_surrogate_helper : ℕ → ℕ × ℕ
utf16_surrogate_helper sub =
    (u16 (bit_or 0xd800 (sub >> 10)), u16 (bit_or 0xdc00 (bit_and sub 0x3ff)))

unfoldable pub utf16_surrogates : Unicode → ℕ × ℕ
unfolding utf16_surrogate_helper
utf16_surrogates u =
    if ltb 0xffff u.cp then utf16_surrogate_helper (u.cp - 0x10000) else (u16 u.cp, u16 u.cp)

-- A Unicode scalar value: what the standard lets the encodings carry.
abbrev pub IsScalar : Unicode → Type 0
IsScalar u = (u.cp ≤ 0x10ffff) × ((u.cp < 0xd800) ⊎ (0xdfff < u.cp))
