-- ===== src/SparseArray/Local.antt =====
-- A change at one chunk of the map of skate/containers/sparse_array.h is a change of the map.
use skate.Prelude.{ℕ, suc, ◌+◌, ◌≤◌, ◌<◌, ◌≡◌, refl, sym, ap, arith, ◌&&◌, leb, ltb}
use skate.Prelude.{if◌then◌else◌, true, false, List, [], ◌∷◌, Option, none, some, length}
use skate.Prelude.{Bool-cases, inl, inr, none-ne-some, subst}
use skate.SparseArray.Chunk.{Chunk, key_limit, is_before, edit_at, lower_chunk}
use skate.SparseArray.Invariant.{find, total, Spaced, Spaced-bound, Spaced-behind, find_below}

module _ {A : Type 0} (idx : ℕ) (c : Chunk A) where
  -- The changed map holds `new` from the start of the chunk to `idx`, has `more` elements more and
  -- `fewer` less, and `gone` chunks less.
  abbrev pub Local : (ℕ → Option A) → ℕ → ℕ → ℕ → ℕ → List (Chunk A) → List (Chunk A) → Type 0
  Local new more fewer gone lo cs r =
      Spaced lo r
      × (total r + fewer ≡ total cs + more)
      × (length r + gone ≡ length cs)
      × ((i : ℕ) → find r i ≡ (if leb c.start i && leb i idx then new i else find cs i))

  -- What is known of the entry in front of `upper_bound(idx)`.
  abbrev pub Lower : ℕ → List (Chunk A) → Type 0
  Lower lo cs =
      (lo ≤ c.start)
      × (c.start ≤ idx)
      × Spaced 0 (c ∷ [])
      × ((i : ℕ) → c.start ≤ i → i ≤ idx → find cs i ≡ find (c ∷ []) i)

  -- The entry is found at a place of the map.
  data Found : List (Chunk A) → Type 0 where
    here : {us : List (Chunk A)} → c.start ≤ idx → is_before idx us ≡ true → Found (c ∷ us)
    there :
        {x : Chunk A} {cs : List (Chunk A)} → is_before idx cs ≡ false → Found cs → Found (x ∷ cs)

  some_inj : {x y : Chunk A} → some x ≡ some y → x ≡ y
  some_inj e = cc e

  lower_chunk-Found : (cs : List (Chunk A)) → lower_chunk idx cs ≡ some c → Found cs
  unfolding lower_chunk
  lower_chunk-Found [] e = absurd (none-ne-some e)
  lower_chunk-Found (x ∷ cs) e = elim (Bool-cases (ltb idx x.start)) [
    | inl l ↦ absurd (none-ne-some {x = c} (rw l at e))
    | inr l ↦ elim (Bool-cases (is_before idx cs)) [
      | inl b ↦
          let q : x ≡ c = some_inj (rw (l, b) at e) in
          subst (λ y. Found (y ∷ cs)) (sym q) (here (ground (arith, l, ap (λ y. y.start) q)) b)
      | inr b ↦ there b (lower_chunk-Found cs (rw (l, b) at e))
    ]
  ]

  Found-Lower :
      (lo : ℕ) (cs : List (Chunk A)) → Spaced lo cs → idx < key_limit → Found cs → Lower lo cs
  Found-Lower lo [] h k f = elim f [ ]
  Found-Lower lo (x ∷ us) h k (here s b) =
      let behind = Spaced-behind idx _ us h.2 b k in
      (
        h.0,
        s,
        (omega arith, h.1, omega (arith, Spaced-bound _ us h.2)),
        λ i l m. ground (arith, find_below (suc idx) us i behind),
      )
  Found-Lower lo (x ∷ cs) h k (there b f) =
      let (l, s, v, g) = Found-Lower (suc (x.start + length x.items)) cs h.2 k f in
      (omega (arith, h.0), s, v, λ i l' m. ground (arith, g i l' m))

  -- A change of the entry, whatever the map behind it, changes the map by as much.
  Found-Local :
      (f : Chunk A → List (Chunk A) → List (Chunk A)) (new : ℕ → Option A) (more fewer gone : ℕ)
      → ((lo : ℕ) (us : List (Chunk A))
          → Spaced lo (c ∷ us)
          → Spaced (suc idx) us
          → c.start ≤ idx
          → Local new more fewer gone lo (c ∷ us) (f c us))
      → (lo : ℕ) (cs : List (Chunk A)) → Spaced lo cs
      → idx < key_limit
      → Found cs
      → Local new more fewer gone lo cs (edit_at idx f cs)
  unfolding edit_at
  Found-Local f new more fewer gone base lo [] h k found = elim found [ ]
  Found-Local f new more fewer gone base lo (x ∷ us) h k (here s b) =
      rw b (base lo us h (Spaced-behind idx _ us h.2 b k) s)
  Found-Local f new more fewer gone base lo (x ∷ cs) h k (there b found) =
      let next = suc (x.start + length x.items) in
      let l = (Found-Lower next cs h.2 k found).0 in
      let (sp, t, n, g) = Found-Local f new more fewer gone base next cs h.2 k found in
      rw b ((h.0, h.1, sp), omega arith, omega arith, λ i. ground (arith, g i))

  pub lower_chunk-Lower :
      (cs : List (Chunk A))
      → Spaced 0 cs
      → idx < key_limit
      → lower_chunk idx cs ≡ some c
      → Lower 0 cs
  lower_chunk-Lower cs h k e = Found-Lower 0 cs h k (lower_chunk-Found cs e)

  pub lower_chunk-Local :
      (f : Chunk A → List (Chunk A) → List (Chunk A)) (new : ℕ → Option A) (more fewer gone : ℕ)
      → ((lo : ℕ) (us : List (Chunk A))
          → Spaced lo (c ∷ us)
          → Spaced (suc idx) us
          → c.start ≤ idx
          → Local new more fewer gone lo (c ∷ us) (f c us))
      → (cs : List (Chunk A)) → Spaced 0 cs
      → idx < key_limit
      → lower_chunk idx cs ≡ some c
      → Local new more fewer gone 0 cs (edit_at idx f cs)
  lower_chunk-Local f new more fewer gone base cs h k e =
      Found-Local f new more fewer gone base 0 cs h k (lower_chunk-Found cs e)

module _ {A : Type 0} (idx : ℕ) where
  lower_none : (cs : List (Chunk A)) → lower_chunk idx cs ≡ none → is_before idx cs ≡ true
  unfolding lower_chunk is_before
  lower_none [] e = refl
  lower_none (x ∷ []) e = ground (arith, e)
  lower_none (x ∷ y ∷ cs) e = ground (arith, e, lower_none (y ∷ cs))

  -- Where there is no entry in front of `upper_bound`, nothing is stored up to the index.
  pub find-lower_none :
      (cs : List (Chunk A)) (i : ℕ)
      → lower_chunk idx cs ≡ none
      → Spaced 0 cs
      → idx < key_limit
      → i ≤ idx
      → find cs i ≡ none
  find-lower_none cs i e h k l =
      find_below (suc idx) cs i (Spaced-behind idx 0 cs h (lower_none cs e) k) (omega arith)
