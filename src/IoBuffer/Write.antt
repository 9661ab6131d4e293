-- ===== src/IoBuffer/Write.antt =====
-- What the writes of `io_buffer` do to the queue.
use skate.Prelude.{ℕ, suc, ◌+◌, ◌-◌, ◌≤◌, ◌<◌, ◌≡◌, ap, ◌∙◌, min, ◌==◌, ltb}
use skate.Prelude.{not, ◌||◌, if◌then◌else◌, List, [], ◌∷◌, ◌++◌}
use skate.Prelude.{length, take, drop, arith, ◌⊎◌, append_assoc, append-nil}
use skate.Prelude.{list_ext, get_elem?-take, get_elem?-drop, get_elem?-append}
use skate.Prelude.{get_elem?-outside, length-take, length-drop, length-append, length-set}
use native.Mathlib.Nat.{mod-eq_of_lt, mod-eq-sub-mod}
use skate.IoBuffer.Vector.{StdVector}
use skate.IoBuffer.Defs.{IoBuffer, add_size, capacity, unrolled, end_index, aligned_items}
use skate.IoBuffer.Defs.{align, append_aligned, store, store_all, write, write_from, free_space}
use skate.IoBuffer.Contents.{contents, IsValid, length-contents}
use skate.IoBuffer.Contents.{take-unrolled-set}

module _ {A : Type 0} (v : StdVector) where
  -- What `align` makes of the queue: the elements at the beginning of the storage, if the queue wraps
  -- round, come before those at its end.
  abbrev pub realigned : IoBuffer A → List A
  realigned b =
      let k = min b.buffer_size (length b.items - b.buffer_first_element) in
      drop k (contents b) ++ take k (contents b)

  -- As long as the queue does not wrap round, nothing changes.
  pub realigned_lem :
      (b : IoBuffer A)
      → IsValid v b
      → b.buffer_first_element + b.buffer_size ≤ length b.items
      → realigned b ≡ contents b
  realigned_lem b h k =
      let n = b.buffer_size in
      let len = length-contents b (omega arith) h.size_in in
      list_ext _ _ λ i. ground (
        arith,
        len,
        length-drop n (contents b),
        get_elem?-append (drop n (contents b)) (take n (contents b)) i,
        get_elem?-take n (contents b) i,
        get_elem?-outside (contents b) i,
      )

  -- The two pieces of a queue that wraps round.
  front_piece :
      (b : IoBuffer A)
      → b.buffer_first_element ≤ length b.items
      → length b.items - b.buffer_first_element ≤ b.buffer_size
      → take (length b.items - b.buffer_first_element) (contents b)
        ≡ drop b.buffer_first_element b.items
  front_piece b hf hk = list_ext _ _ λ i.
      let f = b.buffer_first_element in
      let k = length b.items - f in
      ground (
        arith,
        get_elem?-take k (contents b) i,
        get_elem?-take b.buffer_size (unrolled b.items f) i,
        get_elem?-append (drop f b.items) (take f b.items) i,
        length-drop f b.items,
        get_elem?-outside (drop f b.items) i,
      )

  back_piece :
      (b : IoBuffer A)
      → b.buffer_first_element ≤ length b.items
      → length b.items - b.buffer_first_element ≤ b.buffer_size
      → b.buffer_size ≤ length b.items
      → drop (length b.items - b.buffer_first_element) (contents b)
        ≡ take (b.buffer_size - (length b.items - b.buffer_first_element)) b.items
  back_piece b hf hk hn = list_ext _ _ λ i.
      let f = b.buffer_first_element in
      let k = length b.items - f in
      ground (
        arith,
        get_elem?-drop k (contents b) i,
        get_elem?-take b.buffer_size (unrolled b.items f) (k + i),
        get_elem?-append (drop f b.items) (take f b.items) (k + i),
        length-drop f b.items,
        get_elem?-take f b.items i,
        get_elem?-take (b.buffer_size - k) b.items i,
      )

  one_piece :
      (b : IoBuffer A)
      → b.buffer_first_element + b.buffer_size ≤ length b.items
      → take b.buffer_size (drop b.buffer_first_element b.items) ≡ contents b
  one_piece b h = list_ext _ _ λ i.
      let f = b.buffer_first_element in
      ground (
        arith,
        get_elem?-take b.buffer_size (drop f b.items) i,
        get_elem?-take b.buffer_size (unrolled b.items f) i,
        get_elem?-append (drop f b.items) (take f b.items) i,
        length-drop f b.items,
      )

  aligned_items-realigned :
      (b : IoBuffer A)
      → IsValid v b
      → b.buffer_first_element ≤ length b.items
      → aligned_items b ≡ realigned b
  unfolding aligned_items
  aligned_items-realigned b h hf =
      ground (arith, h.size_in, one_piece b, realigned_lem b h, front_piece b hf, back_piece b hf)

  pub first_le : (b : IoBuffer A) → IsValid v b → b.buffer_first_element ≤ length b.items
  first_le b h = ground (arith, h.first_in)

  -- After `align` the vector is the queue, its pieces exchanged if it wrapped round.
  align_lem :
      (b : IoBuffer A)
      → IsValid v b
      → ((align v b).items ≡ realigned b)
        × ((align v b).buffer_first_element ≡ 0)
        × ((align v b).buffer_size ≡ b.buffer_size)
        × ((align v b).buffer_limit ≡ b.buffer_limit)
        × ((align v b).closed ≡ b.closed)
  unfolding align
  align_lem b h = ground (
    arith,
    h.first_in,
    h.size_in,
    aligned_items-realigned b h (first_le b h),
    realigned_lem b h,
    one_piece b,
  )

  pub length-realigned : (b : IoBuffer A) → IsValid v b → length (realigned b) ≡ b.buffer_size
  length-realigned b h =
      let k = min b.buffer_size (length b.items - b.buffer_first_element) in
      omega (
        arith,
        length-contents b (first_le b h) h.size_in,
        length-append (drop k (contents b)) (take k (contents b)),
        length-drop k (contents b),
        length-take k (contents b),
      )

  take-unrolled_whole : (ys : List A) (n : ℕ) → n ≡ length ys → take n (unrolled ys 0) ≡ ys
  take-unrolled_whole ys n e =
      list_ext _ _ λ i. ground (arith, append-nil ys, get_elem?-take n ys i, get_elem?-outside ys i)

  end_index_lem :
      (b : IoBuffer A)
      → IsValid v b
      → b.buffer_size < length b.items
      → let j = end_index b in
        let p = b.buffer_first_element + b.buffer_size in
        (j < length b.items)
        × ((j ≡ p) ⊎ (j + length b.items ≡ p))
        × (add_size b.buffer_size 1 ≡ suc b.buffer_size)
  end_index_lem b h k = ground (
    arith,
    v.max_elements_lt,
    h.first_in,
    mod-eq_of_lt {n = b.buffer_first_element + b.buffer_size} {m = length b.items},
    mod-eq-sub-mod {n = b.buffer_first_element + b.buffer_size} {m = length b.items},
    mod-eq_of_lt {n = b.buffer_first_element + b.buffer_size - length b.items} {m = length b.items},
  )

  -- Growing the storage puts the new elements behind the realigned ones.
  append_aligned_lem :
      (b : IoBuffer A) (xs : List A)
      → IsValid v b
      → b.buffer_size + length xs ≤ v.max_elements
      → IsValid v (append_aligned v b xs)
        × (contents (append_aligned v b xs) ≡ realigned b ++ xs)
        × ((append_aligned v b xs).buffer_limit ≡ b.buffer_limit)
        × ((append_aligned v b xs).closed ≡ b.closed)
  unfolding append_aligned
  append_aligned_lem b xs h k = ground (
    arith,
    v.max_elements_lt,
    align_lem b h,
    length-realigned b h,
    length-append (realigned b) xs,
    take-unrolled_whole (realigned b ++ xs) (add_size b.buffer_size (length xs)),
  )

  -- Writing into the storage does so too.
  store_lem :
      (b : IoBuffer A) (x : A)
      → IsValid v b
      → b.buffer_size < length b.items
      → IsValid v (store b x)
        × (contents (store b x) ≡ contents b ++ (x ∷ []))
        × (length (store b x).items ≡ length b.items)
        × ((store b x).buffer_size ≡ b.buffer_size + 1)
        × ((store b x).buffer_limit ≡ b.buffer_limit)
        × ((store b x).closed ≡ b.closed)
  unfolding store
  store_lem b x h k = ground (
    arith,
    v.max_elements_lt,
    first_le b h,
    length-set b.items (end_index b) x,
    take-unrolled-set b.items b.buffer_first_element b.buffer_size (end_index b) x,
    end_index_lem b h k,
  )

  free_space_bound :
      (b : IoBuffer A)
      → IsValid v b
      → b.buffer_size ≤ v.max_elements
      → b.buffer_size + free_space v b ≤ v.max_elements
  unfolding free_space
  free_space_bound b h k = ground (arith, h.limited)

  -- `write` succeeds exactly when there is space and the buffer is open. It then adds the element
  -- at the end of the queue, which it realigns first if the storage has to grow; otherwise it changes
  -- nothing. The invariant is kept.
  pub write_lem :
      (b : IoBuffer A) (x : A)
      → IsValid v b
      → let (b', ok) = write v b x in
        (ok ≡ not (free_space v b == 0 || b.closed))
        × (contents b' ≡ (
            if ok
            then (if capacity b == b.buffer_size then realigned b else contents b) ++ (x ∷ [])
            else contents b))
        × IsValid v b'
        × (b'.buffer_limit ≡ b.buffer_limit)
        × (b'.closed ≡ b.closed)
  unfolding write
  write_lem b x h = ground (
    arith,
    h.bounded,
    h.size_in,
    free_space_bound b h,
    append_aligned_lem b (x ∷ []) h,
    store_lem b x h,
  )

  store_all_lem :
      (xs : List A) (b : IoBuffer A)
      → IsValid v b
      → b.buffer_size + length xs ≤ length b.items
      → IsValid v (store_all b xs)
        × (contents (store_all b xs) ≡ contents b ++ xs)
        × ((store_all b xs).buffer_limit ≡ b.buffer_limit)
        × ((store_all b xs).closed ≡ b.closed)
  unfolding store_all
  store_all_lem [] b h k = ground (arith, append-nil (contents b))
  store_all_lem (x ∷ xs) b h k =
      let (hv, hc, hl, hs, hb, hd) = store_lem b x h (omega arith) in
      let (gv, gc, gb, gd) = store_all_lem xs (store b x) hv (omega arith) in
      (gv, gc ∙ ap (λ l. l ++ xs) hc ∙ append_assoc (contents b) (x ∷ []) xs, gb ∙ hb, gd ∙ hd)

  -- `write_from` adds all elements in order or none: all if there are none, or if they fit and the
  -- buffer is open. It realigns the queue first if the storage has to grow. The invariant is kept.
  pub write_from_lem :
      (b : IoBuffer A) (xs : List A)
      → IsValid v b
      → let (b', ok) = write_from v b xs in
        (ok ≡ (length xs == 0 || not (ltb (free_space v b) (length xs) || b.closed)))
        × (contents b' ≡ (
            if ok
            then (if ltb (capacity b - b.buffer_size) (length xs) then realigned b else contents b)
              ++ xs
            else contents b))
        × IsValid v b'
        × (b'.buffer_limit ≡ b.buffer_limit)
        × (b'.closed ≡ b.closed)
  unfolding write_from
  write_from_lem b [] h = ground (arith, append-nil (contents b))
  write_from_lem b (x ∷ xs) h = ground (
    arith,
    h.bounded,
    h.size_in,
    free_space_bound b h,
    append_aligned_lem b (x ∷ xs) h,
    store_all_lem (x ∷ xs) b h,
  )
