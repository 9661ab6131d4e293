-- ===== src/SparseArray/Resize.antt =====
-- The two ways in which `unstore(first, last)` of skate/containers/sparse_array.h changes a chunk.
use skate.Prelude.{ℕ, zero, suc, ◌+◌, ◌-◌, ◌≤◌, ◌<◌, ◌≡◌, arith}
use skate.Prelude.{ltb}
use skate.Prelude.{if◌then◌else◌, List, ◌∷◌, Option, none, some, length}
use skate.Prelude.{get_elem?, take, replicate, length-append, length-take, length-replicate}
use skate.Prelude.{get_elem?-take, get_elem?-append, get_elem?-outside}
use skate.SparseArray.Chunk.{Chunk}
use skate.SparseArray.Invariant.{Spaced, Spaced-lower, find_below}
use skate.SparseArray.Local.{Local}
use skate.SparseArray.Defs.{resize}

module _ {A : Type 0} where
  get_elem?-replicate :
      (n : ℕ) (x : A) (i : ℕ) → get_elem? (replicate n x) i ≡ (if ltb i n then some x else none)
  get_elem?-replicate zero x i = ground arith
  get_elem?-replicate (suc n) x zero = ground arith
  get_elem?-replicate (suc n) x (suc i) = ground (arith, get_elem?-replicate n x i)

  length-resize : (d : A) (xs : List A) (n : ℕ) → length (resize d xs n) ≡ n
  unfolding resize
  length-resize d xs n = omega (
    arith,
    length-append (take n xs) (replicate (n - length xs) d),
    length-take n xs,
    length-replicate (n - length xs) d,
  )

  get_elem?-resize :
      (d : A) (xs : List A) (n i : ℕ)
      → get_elem? (resize d xs n) i
        ≡ (if ltb i n then (if ltb i (length xs) then get_elem? xs i else some d) else none)
  unfolding resize
  get_elem?-resize d xs n i = ground (
    arith,
    get_elem?-append (take n xs) (replicate (n - length xs) d) i,
    get_elem?-take n xs i,
    length-take n xs,
    get_elem?-outside xs i,
    get_elem?-replicate (n - length xs) d (i - length (take n xs)),
  )

module _ {A : Type 0} (idx : ℕ) (c : Chunk A) where
  pub removed_lem :
      (lo : ℕ) (us : List (Chunk A))
      → Spaced lo (c ∷ us)
      → Spaced (suc idx) us
      → c.start + length c.items ≤ suc idx
      → Local idx c (λ _. none) 0 (length c.items) 1 lo (c ∷ us) us
  removed_lem lo us h b k = (
    Spaced-lower _ _ us h.2 (omega (arith, h.0)),
    omega arith,
    omega arith,
    λ i. ground (arith, find_below (suc idx) us i b),
  )

  -- What a chunk that is resized holds.
  abbrev pub resized : A → ℕ → ℕ → Option A
  resized d n i =
      if ltb i (c.start + n)
      then (if ltb i (c.start + length c.items) then get_elem? c.items (i - c.start) else some d)
      else none

  pub resized_lem :
      (d : A) (n lo : ℕ) (us : List (Chunk A))
      → 0 < n
      → c.start + n ≤ idx
      → Spaced lo (c ∷ us)
      → Spaced (suc idx) us
      → c.start + length c.items ≤ suc idx
      → Local idx c
          (resized d n)
          n
          (length c.items)
          0
          lo
          (c ∷ us)
          (record c { items = resize d c.items n } ∷ us)
  resized_lem d n lo us p q h b k =
      let m = length-resize d c.items n in
      (
        (h.0, omega arith, Spaced-lower _ _ us b (omega arith)),
        omega arith,
        omega arith,
        λ i.
            ground
              (arith, m, find_below (suc idx) us i b, get_elem?-resize d c.items n (i - c.start)),
      )
