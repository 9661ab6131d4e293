-- ===== src/SparseArray/Push.antt =====
-- `push_back` and `span_end` of skate/containers/sparse_array.h.
use skate.Prelude.{ℕ, suc, ◌+◌, ◌-◌, ◌≤◌, ◌<◌, ◌≡◌, refl, ◌∙◌, arith, ◌==◌}
use skate.Prelude.{if◌then◌else◌, true, List, [], ◌∷◌, none, some, length}
use skate.SparseArray.Chunk.{Chunk, key_limit}
use skate.SparseArray.Invariant.{find, total, Spaced, find_below, IsValid}
use skate.SparseArray.Invariant.{chunk_last_index_lem}
use skate.SparseArray.Lookup.{is_some, get_elem?_inside}
use skate.SparseArray.Store.{ref_lem}
use skate.SparseArray.Defs.{
  SparseArray, ref, push_back, span_begin, first_start, span_end, last_end, empty,
}

module _ {A : Type 0} where
  -- The end is behind all keys, and the element just before it is stored.
  pub last_end-bound :
      (lo : ℕ) (cs : List (Chunk A))
      → Spaced lo cs
      → 0 < total cs
      → (lo + total cs ≤ last_end cs)
        × (last_end cs < key_limit)
        × (is_some (find cs (last_end cs - 1)) ≡ true)
  unfolding last_end
  last_end-bound lo [] h k = absurd (omega arith)
  last_end-bound lo (c ∷ []) h k =
      let (e, b) = chunk_last_index_lem lo c [] h in
      let (_, s) = get_elem?_inside c.items (length c.items - 1) (omega arith) in
      rw e (omega (arith, h.0), b, ground (arith, s))
  last_end-bound lo (c ∷ d ∷ cs) h k =
      let next = suc (c.start + length c.items) in
      let (b, f, s) = last_end-bound next (d ∷ cs) h.2 (omega (arith, h.2.1)) in
      (omega (arith, h.0), f, ground (arith, s, b, h.2.1))

  -- Nothing is stored from the end of the last chunk on.
  pub find-last_end :
      (lo : ℕ) (cs : List (Chunk A)) (i : ℕ) → Spaced lo cs → last_end cs ≤ i → find cs i ≡ none
  unfolding last_end
  find-last_end lo [] i h k = refl
  find-last_end lo (c ∷ []) i h k = ground (arith, chunk_last_index_lem lo c [] h)
  find-last_end lo (c ∷ d ∷ cs) i h k =
      let next = suc (c.start + length c.items) in
      let r = find-last_end next (d ∷ cs) i h.2 k in
      let b = last_end-bound next (d ∷ cs) h.2 (omega (arith, h.2.1)) in ground (arith, r, b.0)

  pub span_end_lem : (a : SparseArray A) → IsValid a → span_end a ≡ last_end a.m_data
  unfolding span_end last_end empty
  span_end_lem a h = go a.m_data a.m_stored h.spaced h.counted
    where
      go :
          (cs : List (Chunk A)) (n : ℕ)
          → Spaced 0 cs
          → n ≡ total cs
          → (if n == 0 then 0 else last_end cs) ≡ last_end cs
      go [] n s e = ground (arith, e)
      go (c ∷ cs) n s e = ground (arith, e, s.1)

  -- The end is determined by what is stored.
  pub last_end_unique :
      (cs : List (Chunk A)) (e : ℕ)
      → Spaced 0 cs
      → is_some (find cs e) ≡ true
      → ((i : ℕ) → e < i → find cs i ≡ none)
      → last_end cs ≡ suc e
  unfolding last_end
  last_end_unique [] e h s n = absurd (cc s)
  last_end_unique (c ∷ cs) e h s n =
      let l = last_end (c ∷ cs) in
      let (b, _, t) = last_end-bound 0 (c ∷ cs) h (omega (arith, h.1)) in
      ground (arith, find-last_end 0 (c ∷ cs) e h, n (l - 1), s, t, b, h.1)

  -- `push_back` on a valid array whose end is below the last two keys stores the element at the
  -- end: the array stays valid, it has one element more, the end moves by one, and all other
  -- indices hold what they held.
  pub push_back_lem :
      (default fresh : A) (a : SparseArray A) (x : A)
      → IsValid a
      → span_end a + 1 < key_limit
      → let b = push_back default fresh a x in
        IsValid b
        × (b.m_stored ≡ suc a.m_stored)
        × (span_end b ≡ suc (span_end a))
        × ((i : ℕ) → find b.m_data i ≡ (if i == span_end a then some x else find a.m_data i))
  unfolding push_back
  push_back_lem default fresh a x h k =
      let e = span_end a in
      let f : A → A = λ _. x in
      let (v, n, g) = ref_lem default fresh f e a h k in
      let free : find a.m_data e ≡ none =
        rw (span_end_lem a h)
          (find-last_end 0 a.m_data (last_end a.m_data) h.spaced (omega arith)) in
      let past : (i : ℕ) → e < i → find (ref default fresh f a e).m_data i ≡ none =
        λ i l. ground (arith, g i, find-last_end 0 a.m_data i h.spaced, span_end_lem a h) in
      (
        v,
        ground (arith, n, free),
        span_end_lem _ v ∙ last_end_unique _ e v.spaced (ground (arith, g e)) past,
        g,
      )

  span_begin_lem : (a : SparseArray A) → IsValid a → span_begin a ≡ first_start a.m_data
  unfolding span_begin first_start empty
  span_begin_lem a h = go a.m_data a.m_stored h.spaced h.counted
    where
      go :
          (cs : List (Chunk A)) (n : ℕ)
          → Spaced 0 cs
          → n ≡ total cs
          → (if n == 0 then 0 else first_start cs) ≡ first_start cs
      go [] n s e = ground (arith, e)
      go (c ∷ cs) n s e = ground (arith, e, s.1)

  bounds_lem :
      (cs : List (Chunk A))
      → Spaced 0 cs
      → ((i : ℕ) → i < first_start cs → find cs i ≡ none)
        × (last_end cs < key_limit)
        × (first_start cs ≤ last_end cs)
  unfolding first_start last_end
  bounds_lem [] h = (λ i l. refl, omega arith, omega arith)
  bounds_lem (c ∷ cs) h =
      let (b, k, _) =
        last_end-bound c.start (c ∷ cs) (omega arith, h.1, h.2) (omega (arith, h.1)) in
      (λ i l. find_below c.start (c ∷ cs) i (omega arith, h.1, h.2) l, k, omega arith)

  -- What is stored of a valid array lies between `span_begin` and `span_end`.
  pub span_lem :
      (a : SparseArray A)
      → IsValid a
      → ((i : ℕ) → i < span_begin a → find a.m_data i ≡ none)
        × ((i : ℕ) → span_end a ≤ i → find a.m_data i ≡ none)
        × (span_end a < key_limit)
        × (span_begin a ≤ span_end a)
  span_lem a h =
      let (x, y, z) = bounds_lem a.m_data h.spaced in
      rw (span_begin_lem a h, span_end_lem a h)
        (x, (λ i l. find-last_end 0 a.m_data i h.spaced l), y, z)
