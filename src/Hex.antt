-- ===== src/Hex.antt =====
-- The hexadecimal encoders of skate/io/adapters/core.h.
use skate.Prelude.{ℕ, bit_and, List, [], ◌∷◌, ◌++◌}
use skate.Prelude.Bits.{◌>>◌}
use skate.Ascii.Digit.{nibble_to_hex, nibble_to_hex_lower}

-- `hex_encode` of a byte.
unfoldable pub hex_encode : List ℕ → ℕ → List ℕ
hex_encode out byte_value =
    out ++ (nibble_to_hex (byte_value >> 4) ∷ nibble_to_hex (bit_and byte_value 0xf) ∷ [])

unfoldable pub hex_encode_lower : List ℕ → ℕ → List ℕ
hex_encode_lower out byte_value =
    out
    ++ (nibble_to_hex_lower (byte_value >> 4) ∷ nibble_to_hex_lower (bit_and byte_value 0xf) ∷ [])

unfoldable pub to_hex : List ℕ → List ℕ → List ℕ
unfolding hex_encode
to_hex [] out = out
to_hex (b ∷ range) out = to_hex range (hex_encode out b)

unfoldable pub to_hex_lower : List ℕ → List ℕ → List ℕ
unfolding hex_encode_lower
to_hex_lower [] out = out
to_hex_lower (b ∷ range) out = to_hex_lower range (hex_encode_lower out b)

-- Assignment to `hex_encode_iterator` and to `hex_encode_lower_iterator`, which hold no more than
-- the iterator that they write to.
unfoldable pub hex_encode_assign : List ℕ → ℕ → List ℕ
unfolding hex_encode
hex_encode_assign m_out value = hex_encode m_out value

unfoldable pub hex_encode_lower_assign : List ℕ → ℕ → List ℕ
unfolding hex_encode_lower
hex_encode_lower_assign m_out value = hex_encode_lower m_out value
