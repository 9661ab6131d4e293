-- ===== src/SparseArray/Chunk.antt =====
-- The entries of the map of `sparse_array`, of skate/containers/sparse_array.h, and the places in the
-- map that its functions look for. The map is the list of its entries, in the order of their keys.
use skate.Prelude.{ℕ, ◌+◌, ◌-◌, ◌%◌, ◌^◌, ◌==◌, ltb, not, ◌||◌, if◌then◌else◌}
use skate.Prelude.{Bool, true, List, [], ◌∷◌, ◌++◌, length, Option, none, some}

-- `Key` is `size_t`, the default of the template.
pub record Chunk (A : Type 0) : Type 0 where
  pub start : ℕ
  pub items : List A

abbrev pub key_limit : ℕ
key_limit = 2 ^ 64

-- Arithmetic of `size_t`.
abbrev pub add_key : ℕ → ℕ → ℕ
add_key a b = (a + b) % 2 ^ 64

abbrev pub sub_key : ℕ → ℕ → ℕ
sub_key a b = (a + (2 ^ 64 - b)) % 2 ^ 64

module _ {A : Type 0} where
  abbrev pub chunk_first_index : Chunk A → ℕ
  chunk_first_index c = c.start

  unfoldable pub chunk_last_index_used : Chunk A → ℕ
  chunk_last_index_used c = add_key c.start (sub_key (length c.items) 1)

  unfoldable pub chunk_last_index : Chunk A → ℕ
  chunk_last_index c = add_key c.start (length c.items)

  unfoldable pub is_in_chunk : Chunk A → ℕ → Bool
  is_in_chunk c idx = not (ltb idx (chunk_first_index c) || ltb (chunk_last_index_used c) idx)

  -- `compact_chunks(first, second)`, where `second` is the entry behind `first`, or the end.
  unfoldable pub compact_chunks : Chunk A → List (Chunk A) → List (Chunk A)
  compact_chunks c [] = c ∷ []
  compact_chunks c (u ∷ us) =
      if chunk_last_index c == chunk_first_index u
      then record c { items = c.items ++ u.items } ∷ us
      else c ∷ u ∷ us

  -- `m_data.upper_bound(idx) == m_data.begin()`.
  unfoldable pub is_before : ℕ → List (Chunk A) → Bool
  is_before idx [] = true
  is_before idx (c ∷ cs) = ltb idx c.start

  -- The entry in front of `m_data.upper_bound(idx)`.
  unfoldable pub lower_chunk : ℕ → List (Chunk A) → Option (Chunk A)
  lower_chunk idx [] = none
  lower_chunk idx (c ∷ cs) =
      if ltb idx c.start then none else if is_before idx cs then some c else lower_chunk idx cs

  -- The map after a change at the entry in front of `m_data.upper_bound(idx)`; the change is given
  -- that entry and those from `upper_bound` on.
  unfoldable pub edit_at :
      ℕ → (Chunk A → List (Chunk A) → List (Chunk A)) → List (Chunk A) → List (Chunk A)
  edit_at idx f [] = []
  edit_at idx f (c ∷ cs) = if is_before idx cs then f c cs else c ∷ edit_at idx f cs
