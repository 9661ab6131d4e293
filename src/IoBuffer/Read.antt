-- ===== src/IoBuffer/Read.antt =====
-- The operations of `io_buffer` that read. An element that is moved from keeps its value here; its
-- slot is outside the buffer from then on.
use skate.Prelude.{ℕ, ◌+◌, ◌-◌, ◌%◌, ◌^◌, min, ◌==◌, leb}
use skate.Prelude.{if◌then◌else◌, true, List, [], ◌++◌, Option, none, some}
use skate.Prelude.{length, get_or, take, drop}
use skate.IoBuffer.Vector.{StdVector}
use skate.IoBuffer.Defs.{IoBuffer, add_size, capacity, do_empty_shrink}

-- `read(size_t, Predicate)` works with a predicate that has a state of its own, and returns how many
-- of the elements that it is given it has consumed.
module _ {A S : Type 0} (p : S → List A → S × ℕ) where
  -- The calls of the predicate for the first `m` elements.
  unfoldable pub consume : IoBuffer A → ℕ → S → S × ℕ
  consume b m s =
      let contiguous = capacity b - b.buffer_first_element in
      let whole = p s (take m (drop b.buffer_first_element b.items)) in
      let front = p s (take contiguous (drop b.buffer_first_element b.items)) in
      let back = p front.0 (take (m - contiguous) b.items) in
      if leb m contiguous
      then (whole.0, min m whole.1)
      else if min contiguous front.1 == contiguous
      then (back.0, contiguous + min (m - contiguous) back.1)
      else (front.0, min contiguous front.1)

-- The predicate of `read_into` and its kin: it copies all that it is given to an output iterator that
-- appends, as `std::back_inserter` does. A copy of such an iterator writes behind what others wrote.
abbrev pub copy_all : {A : Type 0} → List A → List A → List A × ℕ
copy_all out xs = (out ++ xs, length xs)

module _ {A : Type 0} (v : StdVector) where
  -- What both forms of `read` of one element do behind the move.
  unfoldable pub advance : IoBuffer A → IoBuffer A
  advance b =
      let first = add_size b.buffer_first_element 1 in
      if b.buffer_size - 1 == 0
      then do_empty_shrink v (record b { buffer_first_element = first; buffer_size = 0 })
      else record b { buffer_first_element = first % capacity b; buffer_size = b.buffer_size - 1 }

  -- `read(T &)`; the element is `none` where nothing is assigned. `read()` returns a
  -- default-constructed element there.
  unfoldable pub read : A → IoBuffer A → Option A × IoBuffer A
  read default b =
      if b.buffer_size == 0
      then (none, b)
      else (some (get_or b.items b.buffer_first_element default), advance b)

  unfoldable pub finish_read : IoBuffer A → ℕ → ℕ → IoBuffer A
  finish_read b m consumed =
      let b' = record b {
        buffer_first_element = add_size b.buffer_first_element consumed % capacity b;
        buffer_size = b.buffer_size - m;
      } in
      if b.buffer_size - m == 0 then do_empty_shrink v b' else b'

  -- `read(size_t, Predicate)`.
  module _ {S : Type 0} (p : S → List A → S × ℕ) where
    unfoldable pub read_some : ℕ → IoBuffer A → S → ℕ × S × IoBuffer A
    read_some limit b s =
        let m = min limit b.buffer_size in
        let r = consume p b m s in if m == 0 then (0, s, b) else (r.1, r.0, finish_read b m r.1)

  -- `read_into`, and `read<Container>` with an empty container.
  unfoldable pub read_into : ℕ → IoBuffer A → List A → ℕ × List A × IoBuffer A
  read_into limit b out = read_some copy_all limit b out

  -- `read_all_into`: the limit is `SIZE_MAX`.
  unfoldable pub read_all_into : IoBuffer A → List A → ℕ × List A × IoBuffer A
  read_all_into b out = read_into (2 ^ 64 - 1) b out

  -- `read_all_swap`: the vector `c`, with its capacity, takes the place of the storage.
  unfoldable pub read_all_swap : IoBuffer A → ℕ → List A × IoBuffer A
  read_all_swap b c_reserved =
      let copied = read_all_into b [] in
      if b.buffer_first_element == 0
      then (
        take b.buffer_size b.items,
        record b { items = []; reserved = c_reserved; buffer_size = 0 },
      )
      else (copied.1, copied.2)

  unfoldable pub clear : IoBuffer A → IoBuffer A
  clear b = do_empty_shrink v (record b { buffer_size = 0 })

  unfoldable pub set_max_size : IoBuffer A → ℕ → IoBuffer A
  set_max_size b max = record b { buffer_limit = max }

  unfoldable pub close : IoBuffer A → IoBuffer A
  close b = record b { closed = true }
