-- ===== src/IoBuffer/Take.antt =====
-- What the reads of `io_buffer` do to the queue.
use skate.Prelude.{ℕ, zero, suc, ◌+◌, ◌-◌, ◌%◌, ◌≤◌, ◌<◌, ◌≡◌, refl, sym, min, ◌==◌}
use skate.Prelude.{if◌then◌else◌, List, [], ◌∷◌, ◌++◌, none, some}
use skate.Prelude.{
  length, get_or, take, drop, get_elem?, arith, ◌⊎◌, inl, inr, append_assoc, append-nil,
}
use skate.Prelude.{list_ext, get_elem?-take, get_elem?-drop, get_elem?-append}
use skate.Prelude.{get_elem?-outside, length-take, length-drop, get_elem?-get_or, Bool-cases}
use native.Mathlib.Nat.{mod-eq_of_lt, mod-eq-sub-mod}
use skate.IoBuffer.Vector.{StdVector}
use skate.IoBuffer.Defs.{IoBuffer, add_size, unrolled, do_empty_shrink}
use skate.IoBuffer.Read.{advance, read, consume, finish_read, read_some, copy_all, read_into}
use skate.IoBuffer.Contents.{contents, IsValid, length-contents}
use skate.IoBuffer.Contents.{get_elem?-unrolled, take-unrolled-drop}

module _ {A : Type 0} (v : StdVector) where
  -- An empty buffer stays empty and valid when it gives back storage.
  pub shrink_lem :
      (b : IoBuffer A)
      → b.buffer_size ≡ 0
      → length b.items ≤ v.max_elements
      → b.buffer_limit ≤ v.max_elements
      → IsValid v (do_empty_shrink v b)
        × (contents (do_empty_shrink v b) ≡ [])
        × ((do_empty_shrink v b).buffer_limit ≡ b.buffer_limit)
        × ((do_empty_shrink v b).closed ≡ b.closed)
  unfolding do_empty_shrink
  shrink_lem b e h k = ground (arith)

  -- The index of the first element when `k` elements have gone.
  moved_index :
      (b : IoBuffer A) (k : ℕ)
      → IsValid v b
      → 0 < length b.items
      → k ≤ length b.items
      → let g = add_size b.buffer_first_element k % length b.items in
        (g < length b.items)
        × ((g ≡ b.buffer_first_element + k) ⊎ (g + length b.items ≡ b.buffer_first_element + k))
  moved_index b k h p q = ground (
    arith,
    v.max_elements_lt,
    h.first_in,
    h.bounded,
    mod-eq_of_lt {n = b.buffer_first_element + k} {m = length b.items},
    mod-eq-sub-mod {n = b.buffer_first_element + k} {m = length b.items},
    mod-eq_of_lt {n = b.buffer_first_element + k - length b.items} {m = length b.items},
  )

  take-drop-take :
      (xs : List A) (k n s : ℕ) → n + k ≤ s → take n (drop k (take s xs)) ≡ take n (drop k xs)
  take-drop-take xs k n s h = list_ext _ _ λ i. ground (
    arith,
    get_elem?-take n (drop k (take s xs)) i,
    get_elem?-take n (drop k xs) i,
    get_elem?-drop k (take s xs) i,
    get_elem?-drop k xs i,
    get_elem?-take s xs (k + i),
  )

  -- Dropping `k` of the elements and cutting the size by `m` leaves the elements from `k` on, but
  -- for the last `m - k`.
  finish_read_lem :
      (b : IoBuffer A) (m k : ℕ)
      → IsValid v b
      → 0 < m
      → m ≤ b.buffer_size
      → k ≤ m
      → let b' = finish_read v b m k in
        IsValid v b'
        × (contents b' ≡ take (b.buffer_size - m) (drop k (contents b)))
        × (b'.buffer_limit ≡ b.buffer_limit)
        × (b'.closed ≡ b.closed)
  unfolding finish_read
  finish_read_lem b m k h p q r = ground (
    arith,
    h.size_in,
    h.first_in,
    h.bounded,
    h.limited,
    moved_index b k h,
    shrink_lem (record b {
      buffer_first_element = add_size b.buffer_first_element k % length b.items;
      buffer_size = b.buffer_size - m;
    }),
    take-unrolled-drop b.items b.buffer_first_element k (b.buffer_size - m)
        (add_size b.buffer_first_element k % length b.items),
    take-drop-take (unrolled b.items b.buffer_first_element) k (b.buffer_size - m) b.buffer_size,
  )

  pub take_all : (xs : List A) (n : ℕ) → length xs ≤ n → take n xs ≡ xs
  take_all xs n h = list_ext _ _ λ i. ground (arith, get_elem?-take n xs i, get_elem?-outside xs i)

  pub drop_all : (xs : List A) (n : ℕ) → length xs ≤ n → drop n xs ≡ []
  drop_all [] zero h = refl
  drop_all [] (suc n) h = refl
  drop_all (x ∷ xs) zero h = absurd (omega arith)
  drop_all (x ∷ xs) (suc n) h = drop_all xs n (omega arith)

  first_of :
      (b : IoBuffer A) (d : A)
      → IsValid v b
      → get_elem? (contents b) 0
        ≡ (if b.buffer_size == 0 then none else some (get_or b.items b.buffer_first_element d))
  first_of b d h = ground (
    arith,
    h.size_in,
    h.first_in,
    get_elem?-take b.buffer_size (unrolled b.items b.buffer_first_element) 0,
    get_elem?-unrolled b.items b.buffer_first_element 0,
    get_elem?-get_or b.items b.buffer_first_element d,
  )

  -- `read` of one element takes the first of the queue, if there is one.
  pub read_lem :
      (d : A) (b : IoBuffer A)
      → IsValid v b
      → let (o, b') = read v d b in
        (o ≡ get_elem? (contents b) 0)
        × (contents b' ≡ drop 1 (contents b))
        × IsValid v b'
        × (b'.buffer_limit ≡ b.buffer_limit)
        × (b'.closed ≡ b.closed)
  unfolding read advance
  read_lem d b h = ground (
    arith,
    h.size_in,
    h.first_in,
    h.bounded,
    h.limited,
    v.max_elements_lt,
    moved_index b 1 h,
    first_of b d h,
    take_all (drop 1 (contents b)) (b.buffer_size - 1),
    length-drop 1 (contents b),
    length-contents b,
    shrink_lem
        (record b { buffer_first_element = add_size b.buffer_first_element 1; buffer_size = 0 }),
    take-unrolled-drop b.items b.buffer_first_element 1 (b.buffer_size - 1)
        (add_size b.buffer_first_element 1 % length b.items),
    take-drop-take (unrolled b.items b.buffer_first_element) 1 (b.buffer_size - 1) b.buffer_size,
  )

  consume_bound :
      {S : Type 0} (p : S → List A → S × ℕ) (b : IoBuffer A) (m : ℕ) (s : S)
      → (consume p b m s).1 ≤ m
  unfolding consume
  consume_bound p b m s = ground arith

  -- `read` with a predicate takes `n` elements, no more than the limit. What is left is the queue from `n` on, cut to the length that it would have if
  -- all that was offered had been consumed.
  pub read_some_lem :
      {S : Type 0} (p : S → List A → S × ℕ) (limit : ℕ) (b : IoBuffer A) (s : S)
      → IsValid v b
      → let m = min limit b.buffer_size in
        let (n, s', b') = read_some v p limit b s in
        (n ≤ m)
        × (contents b' ≡ take (b.buffer_size - m) (drop n (contents b)))
        × IsValid v b'
        × (b'.buffer_limit ≡ b.buffer_limit)
        × (b'.closed ≡ b.closed)
  unfolding read_some
  read_some_lem p limit b s h =
      let m = min limit b.buffer_size in
      ground (
        arith,
        h.size_in,
        h.first_in,
        consume_bound p b m s,
        take_all (contents b) b.buffer_size,
        length-contents b,
        finish_read_lem b m (consume p b m s).1 h,
      )

  pub one_piece :
      (b : IoBuffer A) (m : ℕ)
      → IsValid v b
      → m ≤ b.buffer_size
      → m ≤ length b.items - b.buffer_first_element
      → take m (drop b.buffer_first_element b.items) ≡ take m (contents b)
  one_piece b m h k l = list_ext _ _ λ i. ground (
    arith,
    h.size_in,
    h.first_in,
    get_elem?-take m (drop b.buffer_first_element b.items) i,
    get_elem?-drop b.buffer_first_element b.items i,
    get_elem?-take m (contents b) i,
    get_elem?-take b.buffer_size (unrolled b.items b.buffer_first_element) i,
    get_elem?-unrolled b.items b.buffer_first_element i,
  )

  pub two_pieces :
      (b : IoBuffer A) (m : ℕ)
      → IsValid v b
      → m ≤ b.buffer_size
      → length b.items - b.buffer_first_element < m
      → let k = length b.items - b.buffer_first_element in
        take k (drop b.buffer_first_element b.items) ++ take (m - k) b.items ≡ take m (contents b)
  two_pieces b m h p l = list_ext _ _ λ i.
      let f = b.buffer_first_element in
      let k = length b.items - f in
      ground (
        arith,
        h.size_in,
        h.first_in,
        get_elem?-append (take k (drop f b.items)) (take (m - k) b.items) i,
        get_elem?-take k (drop f b.items) i,
        get_elem?-take (m - k) b.items (i - k),
        get_elem?-drop f b.items i,
        length-take k (drop f b.items),
        length-drop f b.items,
        get_elem?-take m (contents b) i,
        get_elem?-take b.buffer_size (unrolled b.items f) i,
        get_elem?-unrolled b.items f i,
      )

  consume-copy_all :
      (b : IoBuffer A) (m : ℕ) (out : List A)
      → IsValid v b
      → m ≤ b.buffer_size
      → consume copy_all b m out ≡ (out ++ take m (contents b), m)
  unfolding consume
  consume-copy_all b m out h k = ground (
    arith,
    h.size_in,
    h.first_in,
    length-take m (drop b.buffer_first_element b.items),
    length-take (length b.items - b.buffer_first_element) (drop b.buffer_first_element b.items),
    length-take (m - (length b.items - b.buffer_first_element)) b.items,
    length-drop b.buffer_first_element b.items,
    one_piece b m h k,
    two_pieces b m h k,
    append_assoc out
        (take (length b.items - b.buffer_first_element) (drop b.buffer_first_element b.items))
        (take (m - (length b.items - b.buffer_first_element)) b.items),
  )

  read_some-copy_all :
      (limit : ℕ) (b : IoBuffer A) (out : List A)
      → IsValid v b
      → let m = min limit b.buffer_size in
        ((read_some v copy_all limit b out).0 ≡ m)
        × ((read_some v copy_all limit b out).1 ≡ out ++ take m (contents b))
  unfolding read_some
  read_some-copy_all limit b out h = elim (Bool-cases (min limit b.buffer_size == 0)) [
    | inl e ↦
        let z : min limit b.buffer_size ≡ 0 = ground arith in
        rw e (rw z (refl, sym (append-nil out)))
    | inr e ↦ rw (e, consume-copy_all b (min limit b.buffer_size) out h (omega arith)) (refl, refl)
  ]

  -- `read_into` moves the first elements of the queue to the end of the output, up to the limit.
  pub read_into_lem :
      (limit : ℕ) (b : IoBuffer A) (out : List A)
      → IsValid v b
      → let m = min limit b.buffer_size in
        let (n, out', b') = read_into v limit b out in
        (n ≡ m)
        × (out' ≡ out ++ take m (contents b))
        × (contents b' ≡ drop m (contents b))
        × IsValid v b'
        × (b'.buffer_limit ≡ b.buffer_limit)
        × (b'.closed ≡ b.closed)
  unfolding read_into
  read_into_lem limit b out h =
      let m = min limit b.buffer_size in
      ground (
        arith,
        h.size_in,
        h.first_in,
        read_some-copy_all limit b out h,
        read_some_lem copy_all limit b out h,
        take_all (drop m (contents b)) (b.buffer_size - m),
        length-drop m (contents b),
        length-contents b,
      )
