-- ===== src/SparseArray/Invariant.antt =====
-- The invariant of the chunks of skate/containers/sparse_array.h, and what they hold at an index,
-- said without the order of the chunks.
use skate.Prelude.{ℕ, suc, ◌+◌, ◌-◌, ◌≤◌, ◌<◌, ◌≡◌, leb, ltb, ◌&&◌, arith, refl}
use skate.Prelude.{if◌then◌else◌, true, List, [], ◌∷◌, Option, none, some}
use skate.Prelude.{length, get_elem?}
use skate.SparseArray.Chunk.{Chunk, key_limit, sub_key, chunk_last_index}
use skate.SparseArray.Chunk.{chunk_last_index_used, is_in_chunk, is_before, lower_chunk}
use skate.SparseArray.Defs.{SparseArray}

pub sub_key_lem : (a b : ℕ) → b ≤ a → a < key_limit → sub_key a b ≡ a - b
sub_key_lem a b h k = omega arith

module _ {A : Type 0} where
  -- The element that a map of chunks holds at an index.
  abbrev pub find : List (Chunk A) → ℕ → Option A
  find [] i = none
  find (c ∷ cs) i =
      if leb c.start i && ltb i (c.start + length c.items)
      then get_elem? c.items (i - c.start)
      else find cs i

  -- The number of elements of the chunks.
  abbrev pub total : List (Chunk A) → ℕ
  total [] = 0
  total (c ∷ cs) = length c.items + total cs

  -- No chunk is empty, they are in order and do not touch, the first key is at least `lo`, and the
  -- index past the last chunk is a key, too.
  abbrev pub Spaced : ℕ → List (Chunk A) → Type 0
  Spaced lo [] = lo ≤ key_limit
  Spaced lo (c ∷ cs) =
      (lo ≤ c.start) × (0 < length c.items) × Spaced (suc (c.start + length c.items)) cs

  pub record IsValid (a : SparseArray A) : Type 0 where
    pub spaced : Spaced 0 a.m_data
    pub counted : a.m_stored ≡ total a.m_data

  pub Spaced-bound : (lo : ℕ) (cs : List (Chunk A)) → Spaced lo cs → lo + total cs ≤ key_limit
  Spaced-bound lo [] h = omega arith
  Spaced-bound lo (c ∷ cs) h =
      omega (arith, Spaced-bound (suc (c.start + length c.items)) cs h.2, h.0)

  pub total-lt : (lo : ℕ) (cs : List (Chunk A)) → Spaced lo cs → total cs < key_limit
  total-lt lo [] h = omega arith
  total-lt lo (c ∷ cs) h = omega (arith, Spaced-bound (suc (c.start + length c.items)) cs h.2)

  pub Spaced-lower : (lo lo' : ℕ) (cs : List (Chunk A)) → Spaced lo cs → lo' ≤ lo → Spaced lo' cs
  Spaced-lower lo lo' [] h k = omega arith
  Spaced-lower lo lo' (c ∷ cs) h k = (omega (arith, h.0), h.1, h.2)

  pub Spaced-behind :
      (idx lo : ℕ) (us : List (Chunk A))
      → Spaced lo us
      → is_before idx us ≡ true
      → idx < key_limit
      → Spaced (suc idx) us
  unfolding is_before
  Spaced-behind idx lo [] h b k = omega arith
  Spaced-behind idx lo (u ∷ us) h b k = (ground (arith, b), h.1, h.2)

  -- Nothing is held in front of the first chunk.
  pub find_below : (lo : ℕ) (cs : List (Chunk A)) (i : ℕ) → Spaced lo cs → i < lo → find cs i ≡ none
  find_below lo [] i h k = refl
  find_below lo (c ∷ cs) i h k =
      ground (arith, find_below (suc (c.start + length c.items)) cs i h.2)

  -- What the functions on a chunk compute in a valid map.
  pub chunk_last_index_lem :
      (lo : ℕ) (c : Chunk A) (cs : List (Chunk A))
      → Spaced lo (c ∷ cs)
      → (chunk_last_index c ≡ c.start + length c.items) × (c.start + length c.items < key_limit)
  unfolding chunk_last_index
  chunk_last_index_lem lo c cs h =
      let b = Spaced-bound (suc (c.start + length c.items)) cs h.2 in (omega arith, omega arith)

  pub chunk_last_index_used_lem :
      (lo : ℕ) (c : Chunk A) (cs : List (Chunk A))
      → Spaced lo (c ∷ cs)
      → chunk_last_index_used c ≡ c.start + length c.items - 1
  unfolding chunk_last_index_used
  chunk_last_index_used_lem lo c cs h =
      omega (arith, Spaced-bound (suc (c.start + length c.items)) cs h.2, h.1)

  pub is_in_chunk_lem :
      (lo : ℕ) (c : Chunk A) (cs : List (Chunk A)) (i : ℕ)
      → Spaced lo (c ∷ cs)
      → is_in_chunk c i ≡ leb c.start i && ltb i (c.start + length c.items)
  unfolding is_in_chunk
  is_in_chunk_lem lo c cs i h = ground (arith, chunk_last_index_used_lem lo c cs h, h.1)

  -- What the entry in front of `upper_bound` holds at the index.
  abbrev pub held : ℕ → Option (Chunk A) → Option A
  held idx none = none
  held idx (some c) =
      if leb c.start idx && ltb idx (c.start + length c.items)
      then get_elem? c.items (idx - c.start)
      else none

  pub find-lower_chunk :
      (lo : ℕ) (cs : List (Chunk A)) (idx : ℕ)
      → Spaced lo cs
      → find cs idx ≡ held idx (lower_chunk idx cs)
  unfolding lower_chunk is_before
  find-lower_chunk lo [] idx h = refl
  find-lower_chunk lo (c ∷ []) idx h = ground arith
  find-lower_chunk lo (c ∷ d ∷ cs) idx h =
      let next = suc (c.start + length c.items) in
      ground (arith, find-lower_chunk next (d ∷ cs) idx h.2, find_below next (d ∷ cs) idx h.2)
