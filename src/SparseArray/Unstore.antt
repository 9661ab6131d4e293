-- ===== src/SparseArray/Unstore.antt =====
-- `unstore(idx)` of skate/containers/sparse_array.h.
use skate.Prelude.{ℕ, suc, ◌+◌, ◌-◌, ◌≤◌, ◌<◌, ◌≡◌, refl, ◌∙◌, arith, ◌==◌, ◌&&◌, ltb}
use skate.Prelude.{if◌then◌else◌, true, false, List, [], ◌∷◌, none, length}
use skate.Prelude.{Bool-cases, inl, inr, take, drop, length-take, length-drop}
use skate.Prelude.{get_elem?-take, get_elem?-drop, Option-cases}
use skate.SparseArray.Chunk.{Chunk, key_limit, is_before, edit_at, add_key, sub_key}
use skate.SparseArray.Invariant.{find, total, Spaced, Spaced-lower, total-lt, find_below, IsValid}
use skate.SparseArray.Invariant.{chunk_last_index_lem, chunk_last_index_used_lem}
use skate.SparseArray.Lookup.{is_some, is_stored-find}
use skate.SparseArray.Defs.{SparseArray, unstore, unstore_chunk, is_stored}

module _ {A : Type 0} (idx : ℕ) where
  -- The map without the element at the index.
  abbrev Loses : ℕ → List (Chunk A) → List (Chunk A) → Type 0
  Loses lo cs r =
      Spaced lo r
      × (suc (total r) ≡ total cs)
      × ((i : ℕ) → find r i ≡ (if i == idx then none else find cs i))

  module _ (lo : ℕ) (c : Chunk A) (us : List (Chunk A)) (h : Spaced lo (c ∷ us)) where
    pop_lem :
        1 < length c.items
        → idx ≡ c.start + length c.items - 1
        → Loses lo (c ∷ us) (record c { items = take (length c.items - 1) c.items } ∷ us)
    pop_lem k e =
        let m = length-take (length c.items - 1) c.items in
        let below = find_below (suc (c.start + length c.items)) us idx h.2 (omega arith) in
        (
          (h.0, omega arith, Spaced-lower _ _ us h.2 (omega arith)),
          omega arith,
          λ i. ground (arith, m, below, get_elem?-take (length c.items - 1) c.items (i - c.start)),
        )

    rekey_lem :
        1 < length c.items
        → idx ≡ c.start
        → Loses lo (c ∷ us) (record { start = idx + 1; items = drop 1 c.items } ∷ us)
    rekey_lem k e =
        let m = length-drop 1 c.items in
        let below = find_below (suc (c.start + length c.items)) us idx h.2 (omega arith) in
        (
          (omega (arith, h.0), omega arith, Spaced-lower _ _ us h.2 (omega arith)),
          omega arith,
          λ i. ground (arith, m, below, get_elem?-drop 1 c.items (i - suc idx)),
        )

    drop_lem : length c.items ≡ 1 → idx ≡ c.start → Loses lo (c ∷ us) us
    drop_lem k e =
        let below = find_below (suc (c.start + length c.items)) us idx h.2 (omega arith) in
        (Spaced-lower _ _ us h.2 (omega (arith, h.0)), omega arith, λ i. ground (arith, below))

    split_lem :
        c.start < idx
        → idx + 1 < c.start + length c.items
        → Loses lo (c ∷ us) (
            record c { items = take (idx - c.start) c.items }
            ∷ record { start = idx + 1; items = drop (idx - c.start + 1) c.items }
            ∷ us)
    split_lem k l =
        let p = idx - c.start in
        let m = length-take p c.items in
        let m' = length-drop (p + 1) c.items in
        let below = find_below (suc (c.start + length c.items)) us idx h.2 (omega arith) in
        (
          (h.0, omega arith, (omega arith, omega arith, Spaced-lower _ _ us h.2 (omega arith))),
          omega arith,
          λ i. ground (
            arith,
            m,
            m',
            below,
            get_elem?-take p c.items (i - c.start),
            get_elem?-drop (p + 1) c.items (i - suc idx),
          ),
        )

    unstore_chunk_lem :
        c.start ≤ idx → idx < c.start + length c.items → Loses lo (c ∷ us) (unstore_chunk idx c us)
    unfolding unstore_chunk
    unstore_chunk_lem k l =
        let n = length c.items in
        let used = chunk_last_index_used_lem lo c us h in
        let past = (chunk_last_index_lem lo c us h).1 in
        let pivot : sub_key idx c.start ≡ idx - c.start = omega arith in
        let next : add_key idx 1 ≡ idx + 1 = omega arith in
        elim (Bool-cases (idx == c.start + n - 1 && ltb 1 n)) [
          | inl e ↦ rw (used, e) (pop_lem (ground (arith, e)) (ground (arith, e)))
          | inr e ↦ elim (Bool-cases (idx == c.start)) [
            | inl e' ↦ elim (Bool-cases (ltb 1 n)) [
              | inl e'' ↦
                  rw (used, e, e', e'', next) (rekey_lem (ground (arith, e'')) (ground (arith, e')))
              | inr e'' ↦
                  rw (used, e, e', e'') (drop_lem (ground (arith, e'', h.1)) (ground (arith, e')))
            ]
            | inr e' ↦
                rw (used, e, e', pivot, next)
                  (split_lem (ground (arith, e')) (ground (arith, e, e')))
          ]
        ]

  cons-Loses :
      (lo : ℕ) (c : Chunk A) (cs r : List (Chunk A))
      → Spaced lo (c ∷ cs)
      → c.start + length c.items < idx
      → Loses (suc (c.start + length c.items)) cs r
      → Loses lo (c ∷ cs) (c ∷ r)
  cons-Loses lo c cs r h k (sp, t, g) = ((h.0, h.1, sp), omega (arith, t), λ i. ground (arith, g i))

  edit_at-Loses :
      (lo : ℕ) (cs : List (Chunk A))
      → Spaced lo cs
      → is_some (find cs idx) ≡ true
      → Loses lo cs (edit_at idx (unstore_chunk idx) cs)
  unfolding is_before edit_at
  edit_at-Loses lo [] h s = absurd (cc s)
  edit_at-Loses lo (c ∷ []) h s =
      unstore_chunk_lem lo c [] h (ground (arith, s)) (ground (arith, s))
  edit_at-Loses lo (c ∷ d ∷ ds) h s =
      let below = find_below d.start (d ∷ ds) idx (omega arith, h.2.1, h.2.2) in
      elim (Bool-cases (ltb idx d.start)) [
        | inl e ↦ rw e (
            unstore_chunk_lem lo c (d ∷ ds) h (ground (arith, s, e, below))
              (ground (arith, s, e, below)))
        | inr e ↦
            let next = suc (c.start + length c.items) in
            let r = edit_at-Loses next (d ∷ ds) h.2 (ground (arith, s, e, h.2.0)) in
            rw e (cons-Loses lo c (d ∷ ds) _ h (ground (arith, e, h.2.0)) r)
      ]

  free_lem :
      (cs : List (Chunk A))
      → is_some (find cs idx) ≡ false
      → (i : ℕ) → find cs i ≡ (if i == idx then none else find cs i)
  free_lem cs e i = ground (arith, e, Option-cases (find cs idx))

  -- `unstore` of an index keeps a valid array valid and makes the index free; the other indices hold
  -- what they held, and the number of stored elements drops if the index was stored.
  pub unstore_lem :
      (a : SparseArray A)
      → IsValid a
      → idx < key_limit
      → let b = unstore a idx in
        IsValid b
        × (b.m_stored ≡ (if is_some (find a.m_data idx) then a.m_stored - 1 else a.m_stored))
        × ((i : ℕ) → find b.m_data i ≡ (if i == idx then none else find a.m_data i))
  unfolding unstore
  unstore_lem a h k = elim (Bool-cases (is_some (find a.m_data idx))) [
    | inl e ↦
        let s : is_stored a idx ≡ true = is_stored-find a idx h ∙ e in
        let (sp, t, g) = edit_at-Loses 0 a.m_data h.spaced e in
        let fits = total-lt 0 a.m_data h.spaced in
        rw (s, e)
          (record { spaced = sp; counted = omega (arith, h.counted) }, omega (arith, h.counted), g)
    | inr e ↦
        let s : is_stored a idx ≡ false = is_stored-find a idx h ∙ e in
        rw (s, e) (h, refl, λ i. free_lem a.m_data e i)
  ]

  length-unstore_chunk :
      (c : Chunk A) (us : List (Chunk A)) → length (unstore_chunk idx c us) ≤ 2 + length us
  unfolding unstore_chunk
  length-unstore_chunk c us = ground arith

  length-edit_at :
      (cs : List (Chunk A)) → length (edit_at idx (unstore_chunk idx) cs) ≤ 1 + length cs
  unfolding edit_at
  length-edit_at [] = omega arith
  length-edit_at (c ∷ cs) = ground (arith, length-unstore_chunk c cs, length-edit_at cs)

  -- One chunk more at most.
  pub length-unstore : (a : SparseArray A) → length (unstore a idx).m_data ≤ 1 + length a.m_data
  unfolding unstore
  length-unstore a = ground (arith, length-edit_at a.m_data)
