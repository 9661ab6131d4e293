-- ===== src/SparseArray/Lookup.antt =====
-- `at` and `is_stored` of skate/containers/sparse_array.h find what the chunks hold.
use skate.Prelude.{ℕ, zero, suc, ◌<◌, ◌≡◌, refl, arith}
use skate.Prelude.{Bool, true, false, List, [], ◌∷◌, Option, none, some, length, get_elem?, get_or}
use skate.Prelude.{none-ne-some, ◌+◌, ◌-◌}
use skate.SparseArray.Chunk.{Chunk, key_limit, lower_chunk, is_before}
use skate.SparseArray.Invariant.{find, Spaced, Spaced-bound, IsValid, find-lower_chunk}
use skate.SparseArray.Invariant.{is_in_chunk_lem, held}
use skate.SparseArray.Defs.{SparseArray, at, is_stored, entry_element, is_in_entry}

module _ {A : Type 0} where
  abbrev pub is_some : Option A → Bool
  is_some none = false
  is_some (some x) = true

  abbrev pub value_or : A → Option A → A
  value_or d none = d
  value_or d (some x) = x

  get_or_lem : (xs : List A) (i : ℕ) (d : A) → get_or xs i d ≡ value_or d (get_elem? xs i)
  get_or_lem [] i d = refl
  get_or_lem (x ∷ xs) zero d = refl
  get_or_lem (x ∷ xs) (suc i) d = get_or_lem xs i d

  pub is_some_inside : (xs : List A) (i : ℕ) → i < length xs → is_some (get_elem? xs i) ≡ true
  is_some_inside [] i h = absurd (omega arith)
  is_some_inside (x ∷ xs) zero h = refl
  is_some_inside (x ∷ xs) (suc i) h = is_some_inside xs i (omega arith)

  pub get_elem?_inside : (xs : List A) (i : ℕ) → i < length xs → (x : A) × (get_elem? xs i ≡ some x)
  get_elem?_inside [] i h = absurd (omega arith)
  get_elem?_inside (x ∷ xs) zero h = (x, refl)
  get_elem?_inside (x ∷ xs) (suc i) h = get_elem?_inside xs i (omega arith)

  -- The entry that is found has the invariant of a chunk.
  lower_chunk-Spaced :
      (lo : ℕ) (cs : List (Chunk A)) (idx : ℕ) (c : Chunk A)
      → Spaced lo cs
      → lower_chunk idx cs ≡ some c
      → Spaced 0 (c ∷ [])
  unfolding lower_chunk is_before
  lower_chunk-Spaced lo [] idx c h e = absurd (none-ne-some e)
  lower_chunk-Spaced lo (x ∷ []) idx c h e = ground (arith, none-ne-some {x = c}, h.2)
  lower_chunk-Spaced lo (x ∷ y ∷ cs) idx c h e =
      let next = suc (x.start + length x.items) in
      ground (
        arith,
        none-ne-some {x = c},
        Spaced-bound next (y ∷ cs) h.2,
        lower_chunk-Spaced next (y ∷ cs) idx c h.2,
      )

  is_in_entry_lem :
      (o : Option (Chunk A)) (idx : ℕ)
      → ((c : Chunk A) → o ≡ some c → Spaced 0 (c ∷ []))
      → is_in_entry idx o ≡ is_some (held idx o)
  is_in_entry_lem none idx h = refl
  is_in_entry_lem (some c) idx h =
      ground (arith, is_in_chunk_lem 0 c [] idx (h c refl), is_some_inside c.items (idx - c.start))

  entry_element_lem :
      (d : A) (o : Option (Chunk A)) (idx : ℕ)
      → idx < key_limit
      → ((c : Chunk A) → o ≡ some c → Spaced 0 (c ∷ []))
      → entry_element d idx o ≡ value_or d (held idx o)
  entry_element_lem d none idx k h = refl
  entry_element_lem d (some c) idx k h =
      ground (arith, is_in_chunk_lem 0 c [] idx (h c refl), get_or_lem c.items (idx - c.start) d)

  pub is_stored-find :
      (a : SparseArray A) (idx : ℕ) → IsValid a → is_stored a idx ≡ is_some (find a.m_data idx)
  unfolding is_stored
  is_stored-find a idx h = rw (find-lower_chunk 0 a.m_data idx h.spaced) (
      is_in_entry_lem (lower_chunk idx a.m_data) idx
        (λ c e. lower_chunk-Spaced 0 a.m_data idx c h.spaced e))

  -- In a valid array `at` returns the element that the chunks hold at the index, and the default one
  -- where they hold none; `is_stored` tells which.
  pub at-find :
      (d : A) (a : SparseArray A) (idx : ℕ)
      → IsValid a
      → idx < key_limit
      → (at d a idx ≡ value_or d (find a.m_data idx))
        × (is_stored a idx ≡ is_some (find a.m_data idx))
  unfolding at
  at-find d a idx h k = (
    rw (find-lower_chunk 0 a.m_data idx h.spaced) (
        entry_element_lem d (lower_chunk idx a.m_data) idx k
          (λ c e. lower_chunk-Spaced 0 a.m_data idx c h.spaced e)),
    is_stored-find a idx h,
  )
