-- ===== src/IoBuffer/Defs.antt =====
-- The state of `io_buffer` of skate/io/buffer.h, and the operations that write. What changes the
-- object returns the new one beside its result.
use skate.Prelude.{ℕ, ◌+◌, ◌-◌, ◌%◌, ◌^◌, ◌==◌, leb, ltb, not, ◌&&◌, ◌||◌}
use skate.Prelude.{if◌then◌else◌, Bool, true, false, List, [], ◌∷◌, ◌++◌}
use skate.Prelude.{length, set, take, drop}
use skate.IoBuffer.Vector.{StdVector}

pub record IoBuffer (A : Type 0) : Type 0 where
  pub items : List A
  -- `items.capacity()` of the vector, which is not `capacity()` of the buffer.
  pub reserved : ℕ
  pub buffer_limit : ℕ
  pub buffer_first_element : ℕ
  pub buffer_size : ℕ
  pub closed : Bool

-- `size_t` addition.
abbrev pub add_size : ℕ → ℕ → ℕ
add_size a b = (a + b) % 2 ^ 64

module _ {A : Type 0} where
  abbrev pub capacity : IoBuffer A → ℕ
  capacity b = length b.items

  -- The storage from the first element on, and then its beginning.
  abbrev pub unrolled : List A → ℕ → List A
  unrolled items first = drop first items ++ take first items

  -- The vector that `align` builds: one piece of the storage, or the two pieces. Both are inserted at
  -- the beginning of the copy, so the second comes before the first.
  unfoldable pub aligned_items : IoBuffer A → List A
  aligned_items b =
      let contiguous = capacity b - b.buffer_first_element in
      if leb b.buffer_size contiguous
      then take b.buffer_size (drop b.buffer_first_element b.items)
      else take (b.buffer_size - contiguous) b.items ++ drop b.buffer_first_element b.items

  -- The index just past the elements.
  abbrev pub end_index : IoBuffer A → ℕ
  end_index b = add_size b.buffer_first_element b.buffer_size % capacity b

  -- `data[(first + size) % capacity()] = x`.
  unfoldable pub store : IoBuffer A → A → IoBuffer A
  store b x = record b {
    items = set b.items (end_index b) x;
    buffer_size = add_size b.buffer_size 1;
  }

  unfoldable pub store_all : IoBuffer A → List A → IoBuffer A
  store_all b [] = b
  store_all b (x ∷ xs) = store_all (store b x) xs

-- The capacity of a vector after it has been made to hold `n` elements.
unfoldable pub regrown : StdVector → ℕ → ℕ → ℕ
regrown v old n = if leb n old then old else v.grow old n

module _ {A : Type 0} (v : StdVector) where
  open v use {max_elements}

  unfoldable pub create : ℕ → IoBuffer A
  create limit = record {
    items = [];
    reserved = 0;
    buffer_limit = limit;
    buffer_first_element = 0;
    buffer_size = 0;
    closed = false;
  }

  unfoldable pub max_size : IoBuffer A → ℕ
  max_size b = if b.buffer_limit == 0 then max_elements else b.buffer_limit

  unfoldable pub free_space : IoBuffer A → ℕ
  unfolding max_size
  free_space b = if ltb (max_size b) b.buffer_size then 0 else max_size b - b.buffer_size

  -- `data.resize(size())` cuts, since the size is at most the capacity.
  unfoldable pub align : IoBuffer A → IoBuffer A
  align b =
      if not (b.buffer_first_element == 0)
      then record b {
        items = aligned_items b;
        reserved = regrown v 0 b.buffer_size;
        buffer_first_element = 0;
      }
      else record b { items = take b.buffer_size b.items }

  unfoldable pub do_empty_shrink : IoBuffer A → IoBuffer A
  do_empty_shrink b =
      if not (b.buffer_limit == 0) && ltb b.buffer_limit b.reserved
        || b.buffer_limit == 0 && ltb 1000000 b.reserved
      then record b { buffer_first_element = 0; items = []; reserved = regrown v 0 b.buffer_limit }
      else record b { buffer_first_element = 0 }

  -- `align()`, and then an insertion at the end of the vector.
  unfoldable pub append_aligned : IoBuffer A → List A → IoBuffer A
  append_aligned b xs =
      let a = align b in
      record a {
        items = a.items ++ xs;
        reserved = regrown v a.reserved (length a.items + length xs);
        buffer_size = add_size a.buffer_size (length xs);
      }

  -- `write(U &&)`.
  unfoldable pub write : IoBuffer A → A → IoBuffer A × Bool
  write b x =
      if free_space b == 0 || b.closed
      then (b, false)
      else if capacity b == b.buffer_size
      then (append_aligned b (x ∷ []), true)
      else (store b x, true)

  -- `write_from` and `write(It, It)`.
  unfoldable pub write_from : IoBuffer A → List A → IoBuffer A × Bool
  write_from b xs =
      if length xs == 0
      then (b, true)
      else if ltb (free_space b) (length xs) || b.closed
      then (b, false)
      else if ltb (capacity b - b.buffer_size) (length xs)
      then (append_aligned b xs, true)
      else (store_all b xs, true)
