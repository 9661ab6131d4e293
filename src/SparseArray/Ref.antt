-- ===== src/SparseArray/Ref.antt =====
-- `ref` of skate/containers/sparse_array.h at the chunk that it changes.
use skate.Prelude.{ℕ, zero, suc, ◌+◌, ◌-◌, ◌≤◌, ◌<◌, ◌≡◌, refl, arith, ◌==◌, ◌&&◌, leb, ltb}
use skate.Prelude.{if◌then◌else◌, Bool, true, false, List, [], ◌∷◌, ◌++◌, Option, none, some}
use skate.Prelude.{
  Bool-cases, inl, inr, length, get_elem?, length-append, append_assoc, get_elem?-append,
  get_elem?-outside, ap,
}
use skate.SparseArray.Chunk.{
  Chunk, key_limit, is_in_chunk, sub_key, chunk_last_index, compact_chunks, is_before,
}
use skate.SparseArray.Invariant.{
  find, total, Spaced, Spaced-bound, Spaced-lower, Spaced-behind, find_below,
}
use skate.SparseArray.Invariant.{is_in_chunk_lem, chunk_last_index_lem}
use skate.SparseArray.Lookup.{is_some, value_or, get_elem?_inside}
use skate.SparseArray.Defs.{modify, use_reference, ref_chunk}

module _ {A : Type 0} where
  abbrev pub changed : (A → A) → Option A → Option A
  changed f none = none
  changed f (some x) = some (f x)

  length-modify : (f : A → A) (n : ℕ) (xs : List A) → length (modify f n xs) ≡ length xs
  length-modify f n [] = refl
  length-modify f zero (x ∷ xs) = refl
  length-modify f (suc n) (x ∷ xs) = ap suc (length-modify f n xs)

  get_elem?-modify :
      (f : A → A) (n : ℕ) (xs : List A) (i : ℕ)
      → get_elem? (modify f n xs) i
        ≡ (if i == n then changed f (get_elem? xs i) else get_elem? xs i)
  get_elem?-modify f n [] i = ground arith
  get_elem?-modify f zero (x ∷ xs) zero = refl
  get_elem?-modify f zero (x ∷ xs) (suc i) = ground arith
  get_elem?-modify f (suc n) (x ∷ xs) zero = ground arith
  get_elem?-modify f (suc n) (x ∷ xs) (suc i) = ground (arith, get_elem?-modify f n xs i)

  modify-append :
      (f : A → A) (p : List A) (x : A) (q : List A)
      → modify f (length p) (p ++ x ∷ q) ≡ p ++ f x ∷ q
  modify-append f [] x q = refl
  modify-append f (y ∷ p) x q = ap (λ l. y ∷ l) (modify-append f p x q)

module _ {A : Type 0} (idx : ℕ) where
  -- Whether there is an element just before the index.
  abbrev pub follows : List (Chunk A) → Bool
  follows cs = ltb 0 idx && is_some (find cs (idx - 1))

  -- What `ref` refers to: the element that is there, or a new one.
  abbrev pub referred : A → A → List (Chunk A) → A
  referred default fresh cs = value_or (if follows cs then default else fresh) (find cs idx)

module _ {A : Type 0} (default fresh : A) (f : A → A) (idx : ℕ) where
  -- What an element appended to the chunk before it, or put into a new chunk, makes of the map.
  abbrev Extends : ℕ → ℕ → List A → A → List (Chunk A) → List (Chunk A) → Type 0
  Extends lo s p x us r =
      Spaced lo r
      × (total r ≡ length p + 1 + total us)
      × ((i : ℕ)
          → find r i ≡ (
              if i == idx
              then some (f x)
              else if leb s i && ltb i idx
              then get_elem? p (i - s)
              else find us i))

  pub extend_lem :
      (lo s : ℕ) (p : List A) (x : A) (us : List (Chunk A))
      → lo ≤ s
      → s + length p ≡ idx
      → idx + 1 < key_limit
      → Spaced (suc idx) us
      → Extends lo s p x us (
          use_reference default fresh f idx
            (compact_chunks (record { start = s; items = p ++ (x ∷ []) }) us))
  unfolding use_reference compact_chunks
  extend_lem lo s p x [] h e k sp =
      let b : sub_key idx s ≡ length p = omega arith in
      let m = modify-append f p x [] in
      let n = length-append p (f x ∷ []) in
      rw (b, m)
        (
          (h, omega arith, omega arith),
          omega arith,
          λ i.
              ground (arith, n, get_elem?-append p (f x ∷ []) (i - s), get_elem?-outside p (i - s)),
        )
  extend_lem lo s p x (u ∷ us) h e k sp =
      let b : sub_key idx s ≡ length p = omega arith in
      let n = length-append p (x ∷ []) in
      let bound = Spaced-bound (suc (u.start + length u.items)) us sp.2 in
      let last : chunk_last_index (record { start = s; items = p ++ (x ∷ []) }) ≡ idx + 1 =
        unfold chunk_last_index in omega arith in
      elim (Bool-cases (idx + 1 == u.start)) [
        | inl c ↦
            let m = modify-append f p x u.items in
            let n' = length-append p (f x ∷ u.items) in
            rw (last, c, append_assoc p (x ∷ []) u.items, b, m)
              (
                (h, omega arith, Spaced-lower _ _ us sp.2 (ground (arith, c, n'))),
                omega arith,
                λ i. ground (
                  arith,
                  n',
                  get_elem?-append p (f x ∷ u.items) (i - s),
                  get_elem?-outside p (i - s),
                ),
              )
        | inr c ↦
            let m = modify-append f p x [] in
            let n' = length-append p (f x ∷ []) in
            rw (last, c, b, m)
              (
                (h, omega arith, (ground (arith, c, n', sp.0), sp.1, sp.2)),
                omega arith,
                λ i.
                    ground (
                      arith,
                      n',
                      get_elem?-append p (f x ∷ []) (i - s),
                      get_elem?-outside p (i - s),
                    ),
              )
      ]

  abbrev pub Stores : ℕ → List (Chunk A) → List (Chunk A) → Type 0
  Stores lo cs r =
      Spaced lo r
      × (total r ≡ (if is_some (find cs idx) then total cs else suc (total cs)))
      × ((i : ℕ)
          → find r i ≡ (if i == idx then some (f (referred idx default fresh cs)) else find cs i))

  inside_lem :
      (lo : ℕ) (c : Chunk A) (us : List (Chunk A))
      → Spaced lo (c ∷ us)
      → c.start ≤ idx
      → idx < c.start + length c.items
      → Stores lo (c ∷ us) (use_reference default fresh f idx (c ∷ us))
  unfolding use_reference
  inside_lem lo c us h k l =
      let (y, e) = get_elem?_inside c.items (idx - c.start) (omega arith) in
      let past = (chunk_last_index_lem lo c us h).1 in
      let b : sub_key idx c.start ≡ idx - c.start = omega arith in
      let n = length-modify f (idx - c.start) c.items in
      rw (b, n)
        (
          h,
          ground (arith, e),
          λ i. ground (arith, e, get_elem?-modify f (idx - c.start) c.items (i - c.start)),
        )

  pub ref_chunk_lem :
      (lo : ℕ) (c : Chunk A) (us : List (Chunk A))
      → Spaced lo (c ∷ us)
      → c.start ≤ idx
      → is_before idx us ≡ true
      → idx + 1 < key_limit
      → Stores lo (c ∷ us) (ref_chunk default fresh f idx c us)
  unfolding ref_chunk
  ref_chunk_lem lo c us h k b l =
      let inside = is_in_chunk_lem lo c us idx h in
      let past = chunk_last_index_lem lo c us h in
      let behind = Spaced-behind idx (suc (c.start + length c.items)) us h.2 b (omega arith) in
      let below = find_below (suc idx) us idx behind (omega arith) in
      let below' = find_below (suc idx) us (idx - 1) behind (omega arith) in
      elim (Bool-cases (ltb idx (c.start + length c.items))) [
        | inl e ↦
            let y : is_in_chunk c idx ≡ true = ground (arith, e) in
            rw y (inside_lem lo c us h k (ground (arith, e)))
        | inr e ↦
            let y : is_in_chunk c idx ≡ false = ground (arith, e) in
            elim (Bool-cases (idx == c.start + length c.items)) [
              | inl e' ↦
                  let (_, s) =
                    get_elem?_inside c.items (idx - 1 - c.start) (ground (arith, e', h.1)) in
                  let (sp, t, g) =
                    extend_lem lo c.start c.items default us h.0 (ground (arith, e')) l behind in
                  rw (y, past.0, e')
                    (
                      sp,
                      ground (arith, e, below, t),
                      λ i. ground (arith, e, e', below, g i, s, h.1),
                    )
              | inr e' ↦
                  let end = c.start + length c.items in
                  let (sp, t, g) =
                    extend_lem (suc end) idx [] fresh us (ground (arith, e, e')) (omega arith) l
                      behind in
                  rw (y, past.0, e')
                    (
                      (h.0, h.1, sp),
                      ground (arith, e, below, t),
                      λ i. ground (arith, e, e', below, below', g i),
                    )
            ]
      ]
