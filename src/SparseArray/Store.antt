-- ===== src/SparseArray/Store.antt =====
-- `ref` and `push_back` of skate/containers/sparse_array.h store one element.
use skate.Prelude.{ℕ, suc, ◌+◌, ◌-◌, ◌<◌, ◌≡◌, refl, arith, ◌==◌, ltb}
use skate.Prelude.{if◌then◌else◌, false, List, [], ◌∷◌, some, length}
use skate.Prelude.{Bool-cases, inl, inr}
use skate.SparseArray.Chunk.{Chunk, key_limit, is_before, edit_at, compact_chunks}
use skate.SparseArray.Invariant.{find, Spaced, total-lt, find_below, Spaced-behind, IsValid}
use skate.SparseArray.Lookup.{is_some, at-find}
use skate.SparseArray.Ref.{Stores, ref_chunk_lem, extend_lem, referred}
use skate.SparseArray.Defs.{SparseArray, ref, ref_chunk}
use skate.SparseArray.Defs.{use_reference}

module _ {A : Type 0} (default fresh : A) (f : A → A) (idx : ℕ) where
  -- A change further on is a change of the whole map.
  cons-Stores :
      (lo : ℕ) (c : Chunk A) (cs r : List (Chunk A))
      → Spaced lo (c ∷ cs)
      → c.start + length c.items < idx
      → Stores default fresh f idx (suc (c.start + length c.items)) cs r
      → Stores default fresh f idx lo (c ∷ cs) (c ∷ r)
  cons-Stores lo c cs r h k (sp, t, g) =
      ((h.0, h.1, sp), ground (arith, t), λ i. ground (arith, g i))

  edit_at-Stores :
      (lo : ℕ) (cs : List (Chunk A))
      → Spaced lo cs
      → is_before idx cs ≡ false
      → idx + 1 < key_limit
      → Stores default fresh f idx lo cs (edit_at idx (ref_chunk default fresh f idx) cs)
  unfolding is_before edit_at
  edit_at-Stores lo [] h b k = absurd (cc b)
  edit_at-Stores lo (c ∷ []) h b k =
      ref_chunk_lem default fresh f idx lo c [] h (ground (arith, b)) refl k
  edit_at-Stores lo (c ∷ d ∷ ds) h b k = elim (Bool-cases (ltb idx d.start)) [
    | inl e ↦ rw e (ref_chunk_lem default fresh f idx lo c (d ∷ ds) h (ground (arith, b)) e k)
    | inr e ↦
        let r = edit_at-Stores (suc (c.start + length c.items)) (d ∷ ds) h.2 e k in
        rw e (cons-Stores lo c (d ∷ ds) _ h (ground (arith, e, h.2.0)) r)
  ]

  -- The map after `ref`.
  abbrev chunks_after : List (Chunk A) → List (Chunk A)
  chunks_after cs =
      if is_before idx cs
      then use_reference default fresh f idx
          (compact_chunks (record { start = idx; items = fresh ∷ [] }) cs)
      else edit_at idx (ref_chunk default fresh f idx) cs

  chunks_after-Stores :
      (cs : List (Chunk A))
      → Spaced 0 cs
      → idx + 1 < key_limit
      → Stores default fresh f idx 0 cs (chunks_after cs)
  chunks_after-Stores cs h k = elim (Bool-cases (is_before idx cs)) [
    | inl e ↦
        let behind = Spaced-behind idx 0 cs h e (omega arith) in
        let below = find_below (suc idx) cs idx behind (omega arith) in
        let below' = find_below (suc idx) cs (idx - 1) behind (omega arith) in
        let (sp, t, g) =
          extend_lem default fresh f idx 0 idx [] fresh cs (omega arith) (omega arith) k behind in
        rw e (sp, ground (arith, below, t), λ i. ground (arith, below, below', g i))
    | inr e ↦ rw e (edit_at-Stores 0 cs h e k)
  ]

  -- `ref` keeps a valid array valid and makes the index, below the last two keys, refer to an
  -- element: the one that was there; else a default-constructed one if the index before it is
  -- stored; else that of `std::vector<Value>{1}`. What the caller makes of it is stored, the other
  -- indices hold what they held, and the number of stored elements grows if the index was free.
  pub ref_lem :
      (a : SparseArray A)
      → IsValid a
      → idx + 1 < key_limit
      → let b = ref default fresh f a idx in
        IsValid b
        × (b.m_stored ≡ (if is_some (find a.m_data idx) then a.m_stored else suc a.m_stored))
        × ((i : ℕ)
            → find b.m_data i ≡ (
                if i == idx
                then some (f (referred idx default fresh a.m_data))
                else find a.m_data i))
  unfolding ref
  ref_lem a h k =
      let (sp, t, g) = chunks_after-Stores a.m_data h.spaced k in
      let fits = total-lt 0 (chunks_after a.m_data) sp in
      let s = (at-find default a idx h (omega arith)).1 in
      (
        record { spaced = sp; counted = rw s (rw h.counted (ground (arith, t))) },
        rw s (ground (arith, h.counted)),
        g,
      )
