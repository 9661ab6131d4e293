-- ===== src/IoBuffer/Contents.antt =====
-- The queue that an `io_buffer` holds, and the invariant of its representation.
use skate.Prelude.{ℕ, suc, ◌+◌, ◌-◌, ◌≤◌, ◌<◌, ◌≡◌, ltb}
use skate.Prelude.{if◌then◌else◌, List, [], ◌∷◌, ◌++◌}
use skate.Prelude.{length, set, take, drop, get_elem?, arith, ◌⊎◌}
use skate.Prelude.{list_ext, get_elem?-take, get_elem?-drop, get_elem?-append, get_elem?-set}
use skate.Prelude.{get_elem?-outside, length-take, length-drop, length-append, length-set}
use skate.IoBuffer.Vector.{StdVector}
use skate.IoBuffer.Defs.{IoBuffer, unrolled}

module _ {A : Type 0} where
  abbrev pub contents : IoBuffer A → List A
  contents b = take b.buffer_size (unrolled b.items b.buffer_first_element)

  pub record IsValid (v : StdVector) (b : IoBuffer A) : Type 0 where
    pub size_in : b.buffer_size ≤ length b.items
    pub first_in : (b.buffer_first_element ≡ 0) ⊎ (b.buffer_first_element < length b.items)
    pub bounded : length b.items ≤ v.max_elements
    pub limited : b.buffer_limit ≤ v.max_elements

  pub length-unrolled : (xs : List A) (f : ℕ) → f ≤ length xs → length (unrolled xs f) ≡ length xs
  length-unrolled xs f h =
      omega (arith, length-append (drop f xs) (take f xs), length-drop f xs, length-take f xs)

  pub length-contents :
      (b : IoBuffer A)
      → b.buffer_first_element ≤ length b.items
      → b.buffer_size ≤ length b.items
      → length (contents b) ≡ b.buffer_size
  length-contents b h k =
      let f = b.buffer_first_element in
      omega (arith, length-take b.buffer_size (unrolled b.items f), length-unrolled b.items f h)

  -- The elements of the storage, in the order of the queue.
  pub get_elem?-unrolled :
      (xs : List A) (f i : ℕ)
      → f ≤ length xs
      → i < length xs
      → get_elem? (unrolled xs f) i ≡ (
          if ltb (f + i) (length xs)
          then get_elem? xs (f + i)
          else get_elem? xs (f + i - length xs))
  get_elem?-unrolled xs f i hf hi = ground (
    arith,
    get_elem?-append (drop f xs) (take f xs) i,
    get_elem?-drop f xs i,
    get_elem?-take f xs (i - length (drop f xs)),
    length-drop f xs,
  )

  -- The storage round from `f + k`, as far as `n` elements, is that from `f` without its first `k`.
  pub take-unrolled-drop :
      (xs : List A) (f k n g : ℕ)
      → f ≤ length xs
      → g < length xs
      → n + k ≤ length xs
      → (g ≡ f + k) ⊎ (g + length xs ≡ f + k)
      → take n (unrolled xs g) ≡ take n (drop k (unrolled xs f))
  take-unrolled-drop xs f k n g hf hg hn e = list_ext _ _ λ i. ground (
    arith,
    get_elem?-take n (unrolled xs g) i,
    get_elem?-take n (drop k (unrolled xs f)) i,
    get_elem?-drop k (unrolled xs f) i,
    get_elem?-unrolled xs g i,
    get_elem?-unrolled xs f (k + i),
  )

  -- Writing just past the elements adds the new one to their end.
  pub take-unrolled-set :
      (xs : List A) (f n j : ℕ) (x : A)
      → f ≤ length xs
      → n < length xs
      → (j ≡ f + n) ⊎ (j + length xs ≡ f + n)
      → j < length xs
      → take (suc n) (unrolled (set xs j x) f) ≡ take n (unrolled xs f) ++ (x ∷ [])
  take-unrolled-set xs f n j x hf hn e hj = list_ext _ _ λ i. ground (
    arith,
    get_elem?-take (suc n) (unrolled (set xs j x) f) i,
    get_elem?-append (take n (unrolled xs f)) (x ∷ []) i,
    get_elem?-take n (unrolled xs f) i,
    get_elem?-unrolled (set xs j x) f i,
    get_elem?-unrolled xs f i,
    get_elem?-set xs j x (f + i),
    get_elem?-set xs j x (f + i - length xs),
    length-set xs j x,
    length-take n (unrolled xs f),
    length-unrolled xs f hf,
    get_elem?-outside (x ∷ []) (i - n),
  )
