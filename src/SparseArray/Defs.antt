-- ===== src/SparseArray/Defs.antt =====
-- The state of `sparse_array` of skate/containers/sparse_array.h, and its member functions. What
-- changes the object returns the new one.
use skate.Prelude.{ℕ, zero, suc, ◌+◌, ◌-◌, ◌==◌, leb, ltb, not, ◌&&◌, min, max}
use skate.Prelude.{if◌then◌else◌, Bool, false, List, [], ◌∷◌, ◌++◌, Option, none, some}
use skate.Prelude.{length, get_or, take, drop, replicate}
use skate.SparseArray.Chunk.{Chunk, add_key, sub_key, chunk_last_index, chunk_last_index_used}
use skate.SparseArray.Chunk.{chunk_first_index, is_in_chunk, compact_chunks, is_before}
use skate.SparseArray.Chunk.{lower_chunk, edit_at}

pub record SparseArray (A : Type 0) : Type 0 where
  pub m_data : List (Chunk A)
  pub m_stored : ℕ

module _ {A : Type 0} where
  -- A change of the element at an index of a vector.
  abbrev pub modify : (A → A) → ℕ → List A → List A
  modify f n [] = []
  modify f zero (x ∷ xs) = f x ∷ xs
  modify f (suc n) (x ∷ xs) = x ∷ modify f n xs

  unfoldable pub new : SparseArray A
  new = record { m_data = []; m_stored = 0 }

  unfoldable pub clear : SparseArray A → SparseArray A
  clear a = record { m_data = []; m_stored = 0 }

  unfoldable pub empty : SparseArray A → Bool
  empty a = a.m_stored == 0

  unfoldable pub stored : SparseArray A → ℕ
  stored a = a.m_stored

  unfoldable pub runs : SparseArray A → ℕ
  runs a = length a.m_data

  unfoldable pub last_end : List (Chunk A) → ℕ
  last_end [] = 0
  last_end (c ∷ []) = chunk_last_index c
  last_end (c ∷ d ∷ cs) = last_end (d ∷ cs)

  unfoldable pub first_start : List (Chunk A) → ℕ
  first_start [] = 0
  first_start (c ∷ cs) = chunk_first_index c

  unfoldable pub span_begin : SparseArray A → ℕ
  unfolding empty
  span_begin a = if empty a then 0 else first_start a.m_data

  unfoldable pub span_end : SparseArray A → ℕ
  unfolding empty
  span_end a = if empty a then 0 else last_end a.m_data

  unfoldable pub run_begin : SparseArray A → ℕ → ℕ
  run_begin a run = if leb (runs a) run then 0 else first_start (drop run a.m_data)

  unfoldable pub run_end : SparseArray A → ℕ → ℕ
  run_end a run = if leb (runs a) run then 0 else last_end (take 1 (drop run a.m_data))

  unfoldable pub contiguous : SparseArray A → ℕ
  contiguous a = sub_key (span_end a) (span_begin a)

  unfoldable pub size : SparseArray A → ℕ
  size a = max 0 (span_end a)

  abbrev pub is_in_entry : ℕ → Option (Chunk A) → Bool
  is_in_entry idx none = false
  is_in_entry idx (some c) = is_in_chunk c idx

  unfoldable pub is_stored : SparseArray A → ℕ → Bool
  is_stored a idx = is_in_entry idx (lower_chunk idx a.m_data)

  -- `unstore(idx)` at the chunk in front of `upper_bound`, with the chunks behind it.
  unfoldable pub unstore_chunk : ℕ → Chunk A → List (Chunk A) → List (Chunk A)
  unstore_chunk idx c us =
      let n = length c.items in
      let pivot = sub_key idx (chunk_first_index c) in
      if idx == chunk_last_index_used c && ltb 1 n
      then record c { items = take (n - 1) c.items } ∷ us
      else if idx == chunk_first_index c
      then (if ltb 1 n then record { start = add_key idx 1; items = drop 1 c.items } ∷ us else us)
      else record c { items = take pivot c.items }
        ∷ record { start = add_key idx 1; items = drop (pivot + 1) c.items }
        ∷ us

  unfoldable pub unstore : SparseArray A → ℕ → SparseArray A
  unfolding is_stored
  unstore a idx =
      if is_stored a idx
      then record {
        m_data = edit_at idx (unstore_chunk idx) a.m_data;
        m_stored = sub_key a.m_stored 1;
      }
      else a

  -- The chunks from `upper_bound(last)` on move down.
  unfoldable pub move_down : ℕ → ℕ → List (Chunk A) → List (Chunk A)
  move_down last diff [] = []
  move_down last diff (c ∷ cs) =
      (if ltb last c.start then record c { start = sub_key c.start diff } else c)
      ∷ move_down last diff cs

  -- The chunk that starts at `first` is compacted with that in front of it.
  unfoldable pub compact_at : ℕ → List (Chunk A) → List (Chunk A)
  compact_at first [] = []
  compact_at first (c ∷ []) = c ∷ []
  compact_at first (c ∷ u ∷ us) =
      if u.start == first then compact_chunks c (u ∷ us) else c ∷ compact_at first (u ∷ us)

module _ {A : Type 0} (default : A) where
  abbrev pub entry_element : ℕ → Option (Chunk A) → A
  entry_element idx none = default
  entry_element idx (some c) =
      if is_in_chunk c idx
      then get_or c.items (sub_key idx (chunk_first_index c)) default
      else default

  -- The element in the chunk in front of `upper_bound`.
  unfoldable pub at : SparseArray A → ℕ → A
  at a idx = entry_element idx (lower_chunk idx a.m_data)

  -- `std::vector::resize`.
  unfoldable pub resize : List A → ℕ → List A
  resize xs n = take n xs ++ replicate (n - length xs) default

  -- A turn of the loop of `unstore(first, last)` at the chunk in front of `upper_bound(last)`.
  abbrev pub resize_below : ℕ → ℕ → Chunk A → SparseArray A → SparseArray A
  resize_below first last c a = record {
    m_data =
        edit_at last
          (λ d us. record d { items = resize d.items (sub_key first (chunk_first_index d)) } ∷ us)
          a.m_data;
    m_stored = sub_key a.m_stored (sub_key (chunk_last_index c) first);
  }

  abbrev pub remove_chunk : ℕ → Chunk A → SparseArray A → SparseArray A
  remove_chunk last c a = record {
    m_data = edit_at last (λ _ us. us) a.m_data;
    m_stored = sub_key a.m_stored (length c.items);
  }

  abbrev pub unstore_turn :
      (ℕ → SparseArray A → SparseArray A) → ℕ → ℕ → Option (Chunk A) → SparseArray A → SparseArray A
  unstore_turn again first last none a = a
  unstore_turn again first last (some c) a =
      let rest = again (chunk_first_index c) (remove_chunk last c a) in
      if not (ltb first last)
      then a
      else if ltb (chunk_first_index c) first
      then resize_below first last c a
      else rest

  -- The loop. Each turn returns or removes a chunk, so it has the number of chunks as its fuel.
  unfoldable pub unstore_loop : ℕ → ℕ → ℕ → SparseArray A → SparseArray A
  unstore_loop zero first last a = a
  unstore_loop (suc fuel) first last a =
      unstore_turn (λ l b. unstore_loop fuel first l b) first last (lower_chunk last a.m_data) a

  unfoldable pub unstore_range : SparseArray A → ℕ → ℕ → SparseArray A
  unstore_range a first last =
      let from = max first (span_begin a) in
      let to = min last (span_end a) in
      if ltb from to then unstore_loop (suc (runs a) + 1) from (to - 1) (unstore a (to - 1)) else a

  unfoldable pub erase_range : SparseArray A → ℕ → ℕ → SparseArray A
  erase_range a first last =
      let b = unstore_range a first last in
      if ltb first last
      then record b { m_data = compact_at first (move_down (last - 1) (last - first) b.m_data) }
      else a

  unfoldable pub erase : SparseArray A → ℕ → SparseArray A
  erase a idx = erase_range a idx (add_key idx 1)

  unfoldable pub pop_back : SparseArray A → SparseArray A
  pop_back a = erase a (sub_key (span_end a) 1)

-- `fresh` is the element of `std::vector<Value>{size_t(1)}`: the number 1 where `Value` is a number,
-- and a default-constructed element where the braces are a size.
module _ {A : Type 0} (default fresh : A) where
  -- What the caller of `ref` does with the reference to the element at `idx` of the first chunk.
  unfoldable pub use_reference : (A → A) → ℕ → List (Chunk A) → List (Chunk A)
  use_reference f idx [] = []
  use_reference f idx (c ∷ cs) =
      record c { items = modify f (sub_key idx (chunk_first_index c)) c.items } ∷ cs

  -- `ref` at the chunk in front of `upper_bound`, with the chunks behind it.
  unfoldable pub ref_chunk : (A → A) → ℕ → Chunk A → List (Chunk A) → List (Chunk A)
  ref_chunk f idx c us =
      if is_in_chunk c idx
      then use_reference f idx (c ∷ us)
      else if idx == chunk_last_index c
      then use_reference f idx (compact_chunks (record c { items = c.items ++ (default ∷ []) }) us)
      else c ∷ use_reference f idx (compact_chunks (record { start = idx; items = fresh ∷ [] }) us)

  -- `ref(idx)`, and then the change `f` of the element that it refers to.
  unfoldable pub ref : (A → A) → SparseArray A → ℕ → SparseArray A
  unfolding is_stored
  ref f a idx = record {
    m_data =
        if is_before idx a.m_data
        then use_reference f idx
            (compact_chunks (record { start = idx; items = fresh ∷ [] }) a.m_data)
        else edit_at idx (ref_chunk f idx) a.m_data;
    m_stored = if is_stored a idx then a.m_stored else add_key a.m_stored 1;
  }

  unfoldable pub push_back : SparseArray A → A → SparseArray A
  push_back a v = ref (λ _. v) a (span_end a)
