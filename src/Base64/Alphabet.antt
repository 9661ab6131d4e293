-- ===== src/Base64/Alphabet.antt =====
-- The alphabets of skate/io/adapters/base64.h. A `char` is its code.
use skate.Prelude.{ℕ, List, [], ◌∷◌, ◌++◌, get_or, codes}

pub data Base64Type : Type 0 where
  normal : Base64Type
  url : Base64Type

-- 64 characters and the padding character.
unfoldable pub base64_encode_alphabet_for_type : Base64Type → List ℕ
base64_encode_alphabet_for_type normal =
    codes "ABCDEFGHIJKLMNOPQRSTUVWXYZabcdefghijklmnopqrstuvwxyz0123456789+/="
base64_encode_alphabet_for_type url =
    codes "ABCDEFGHIJKLMNOPQRSTUVWXYZabcdefghijklmnopqrstuvwxyz0123456789-_="

-- The first forty entries of both decode tables.
abbrev invalid_forty : List ℕ
invalid_forty =
    0x7f ∷ 0x7f ∷ 0x7f ∷ 0x7f ∷ 0x7f ∷ 0x7f ∷ 0x7f ∷ 0x7f ∷ 0x7f ∷ 0x7f ∷ 0x7f ∷ 0x7f ∷ 0x7f ∷ 0x7f
    ∷ 0x7f ∷ 0x7f ∷ 0x7f ∷ 0x7f ∷ 0x7f ∷ 0x7f ∷ 0x7f ∷ 0x7f ∷ 0x7f ∷ 0x7f ∷ 0x7f ∷ 0x7f ∷ 0x7f
    ∷ 0x7f ∷ 0x7f ∷ 0x7f ∷ 0x7f ∷ 0x7f ∷ 0x7f ∷ 0x7f ∷ 0x7f ∷ 0x7f ∷ 0x7f ∷ 0x7f ∷ 0x7f ∷ 0x7f ∷ []

-- 0 to 63 for a digit, 64 for padding, 0x7f for what is invalid; 0x7e, to skip, is not used.
unfoldable pub base64_decode_alphabet_for_type : Base64Type → List ℕ
base64_decode_alphabet_for_type normal =
    invalid_forty
    ++ (0x7f ∷ 0x7f ∷ 0x7f ∷ 0x3e ∷ 0x7f ∷ 0x7f ∷ 0x7f ∷ 0x3f ∷ 0x34 ∷ 0x35 ∷ 0x36 ∷ 0x37 ∷ 0x38
        ∷ 0x39 ∷ 0x3a ∷ 0x3b ∷ 0x3c ∷ 0x3d ∷ 0x7f ∷ 0x7f ∷ 0x7f ∷ 0x40 ∷ 0x7f ∷ 0x7f ∷ 0x7f ∷ 0x00
        ∷ 0x01 ∷ 0x02 ∷ 0x03 ∷ 0x04 ∷ 0x05 ∷ 0x06 ∷ 0x07 ∷ 0x08 ∷ 0x09 ∷ 0x0a ∷ 0x0b ∷ 0x0c ∷ 0x0d
        ∷ 0x0e ∷ 0x0f ∷ 0x10 ∷ 0x11 ∷ 0x12 ∷ 0x13 ∷ 0x14 ∷ 0x15 ∷ 0x16 ∷ 0x17 ∷ 0x18 ∷ 0x19 ∷ 0x7f
        ∷ 0x7f ∷ 0x7f ∷ 0x7f ∷ 0x7f ∷ 0x7f ∷ 0x1a ∷ 0x1b ∷ 0x1c ∷ 0x1d ∷ 0x1e ∷ 0x1f ∷ 0x20 ∷ 0x21
        ∷ 0x22 ∷ 0x23 ∷ 0x24 ∷ 0x25 ∷ 0x26 ∷ 0x27 ∷ 0x28 ∷ 0x29 ∷ 0x2a ∷ 0x2b ∷ 0x2c ∷ 0x2d ∷ 0x2e
        ∷ 0x2f ∷ 0x30 ∷ 0x31 ∷ 0x32 ∷ 0x33 ∷ 0x7f ∷ 0x7f ∷ 0x7f ∷ 0x7f ∷ 0x7f ∷ [])
base64_decode_alphabet_for_type url =
    invalid_forty
    ++ (0x7f ∷ 0x7f ∷ 0x7f ∷ 0x7f ∷ 0x7f ∷ 0x3e ∷ 0x7f ∷ 0x7f ∷ 0x34 ∷ 0x35 ∷ 0x36 ∷ 0x37 ∷ 0x38
        ∷ 0x39 ∷ 0x3a ∷ 0x3b ∷ 0x3c ∷ 0x3d ∷ 0x7f ∷ 0x7f ∷ 0x7f ∷ 0x40 ∷ 0x7f ∷ 0x7f ∷ 0x7f ∷ 0x00
        ∷ 0x01 ∷ 0x02 ∷ 0x03 ∷ 0x04 ∷ 0x05 ∷ 0x06 ∷ 0x07 ∷ 0x08 ∷ 0x09 ∷ 0x0a ∷ 0x0b ∷ 0x0c ∷ 0x0d
        ∷ 0x0e ∷ 0x0f ∷ 0x10 ∷ 0x11 ∷ 0x12 ∷ 0x13 ∷ 0x14 ∷ 0x15 ∷ 0x16 ∷ 0x17 ∷ 0x18 ∷ 0x19 ∷ 0x7f
        ∷ 0x7f ∷ 0x7f ∷ 0x7f ∷ 0x3f ∷ 0x7f ∷ 0x1a ∷ 0x1b ∷ 0x1c ∷ 0x1d ∷ 0x1e ∷ 0x1f ∷ 0x20 ∷ 0x21
        ∷ 0x22 ∷ 0x23 ∷ 0x24 ∷ 0x25 ∷ 0x26 ∷ 0x27 ∷ 0x28 ∷ 0x29 ∷ 0x2a ∷ 0x2b ∷ 0x2c ∷ 0x2d ∷ 0x2e
        ∷ 0x2f ∷ 0x30 ∷ 0x31 ∷ 0x32 ∷ 0x33 ∷ 0x7f ∷ 0x7f ∷ 0x7f ∷ 0x7f ∷ 0x7f ∷ [])

-- `m_alphabet[i]`, for an index inside the table.
abbrev pub char_at : List ℕ → ℕ → ℕ
char_at alphabet i = get_or alphabet i 0
