-- ===== src/Endian.antt =====
-- The big and little endian encoders of skate/io/adapters/core.h, over any output iterator.
use skate.Prelude.{ℕ, zero, suc, ◌+◌, ◌*◌, List, [], ◌∷◌}
use skate.Prelude.Bits.{◌>>◌, u8}

module _ {O : Type 0} (put : O → ℕ → O) where
  -- The value has `n` bytes more to write.
  unfoldable pub big_endian_encode : ℕ → ℕ → O → O
  big_endian_encode zero value out = out
  big_endian_encode (suc n) value out = big_endian_encode n value (put out (u8 (value >> (8 * n))))

  -- So here, of which `i` bytes are written.
  unfoldable pub little_endian_encode : ℕ → ℕ → ℕ → O → O
  little_endian_encode zero i value out = out
  little_endian_encode (suc n) i value out =
      little_endian_encode n (i + 1) value (put out (u8 (value >> (8 * i))))

  -- The encoders of a range of values of `n` bytes each.
  unfoldable pub big_endian_encode_range : ℕ → List ℕ → O → O
  big_endian_encode_range n [] out = out
  big_endian_encode_range n (value ∷ first) out =
      big_endian_encode_range n first (big_endian_encode n value out)

  unfoldable pub little_endian_encode_range : ℕ → List ℕ → O → O
  little_endian_encode_range n [] out = out
  little_endian_encode_range n (value ∷ first) out =
      little_endian_encode_range n first (little_endian_encode n 0 value out)

  -- Assignment to `big_endian_encode_iterator` and to `little_endian_encode_iterator`.
  unfoldable pub big_endian_assign : ℕ → O → ℕ → O
  big_endian_assign n m_out value = big_endian_encode n value m_out

  unfoldable pub little_endian_assign : ℕ → O → ℕ → O
  little_endian_assign n m_out value = little_endian_encode n 0 value m_out
