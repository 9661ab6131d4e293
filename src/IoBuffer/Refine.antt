-- ===== src/IoBuffer/Refine.antt =====
-- `io_buffer` behaves as the queue of its elements.
use skate.Prelude.{ℕ, ◌+◌, ◌-◌, ◌≤◌, ◌<◌, ◌≡◌, refl, ap, ◌∙◌, min}
use skate.Prelude.{List, [], ◌∷◌, ◌++◌, length, take, drop, arith, ◌^◌}
use skate.Prelude.{
  list_ext, get_elem?-take, get_elem?-drop, get_elem?-outside, append-nil, ◌⊎◌, ◌==◌, ◌||◌, ltb,
  true,
}
use skate.IoBuffer.Vector.{StdVector}
use skate.IoBuffer.Defs.{IoBuffer, free_space, max_size}
use skate.IoBuffer.Defs
use skate.IoBuffer.Read
use skate.IoBuffer.Contents.{contents, IsValid, length-contents}
use skate.IoBuffer.Write.{write_lem, write_from_lem, first_le, realigned_lem}
use skate.IoBuffer.Take.{read_lem, read_into_lem, take_all, drop_all, shrink_lem}
use skate.IoBuffer.Queue.{Op, Reply, Queue, step, run, queue_step, queue_run, IsAllowed, space}
use skate.IoBuffer.Queue.{write, write_from, read, read_into, read_all_into, read_all_swap, clear}
use skate.IoBuffer.Queue.{close, set_max_size}

module _ {A : Type 0} (v : StdVector) where
  -- The queue that a buffer stands for.
  abbrev pub queue_of : IoBuffer A → Queue A
  queue_of b = record { elements = contents b; limit = b.buffer_limit; closed = b.closed }

  pub length-queue : (b : IoBuffer A) → IsValid v b → length (contents b) ≡ b.buffer_size
  length-queue b h = length-contents b (first_le v b h) h.size_in

  space-free_space : (b : IoBuffer A) → IsValid v b → space v (queue_of b) ≡ free_space v b
  unfolding free_space
  space-free_space b h = rw (length-queue b h) refl

  -- A step of the buffer is a step of its queue.
  abbrev Simulates : IoBuffer A → Op A → Reply A × IoBuffer A → Type 0
  Simulates b op (r, b') = ((r, queue_of b') ≡ queue_step v (queue_of b) op) × IsValid v b'

  -- The queue does not wrap round.
  abbrev pub IsContiguous : IoBuffer A → Type 0
  IsContiguous b = b.buffer_first_element + b.buffer_size ≤ length b.items

  -- A write keeps the order if it is refused, or if the storage does not have to grow while the queue
  -- wraps round.
  abbrev pub KeepsOrder : IoBuffer A → Op A → Type 0
  KeepsOrder b (write x) =
      ((free_space v b == 0 || b.closed) ≡ true)
      ⊎ (IsContiguous b ⊎ (b.buffer_size < length b.items))
  KeepsOrder b (write_from xs) =
      ((ltb (free_space v b) (length xs) || b.closed) ≡ true)
      ⊎ (IsContiguous b ⊎ (b.buffer_size + length xs ≤ length b.items))
  KeepsOrder b _ = Unit {0}

  -- All calls of a sequence are allowed and keep the order.
  abbrev pub AllKeepOrder : A → IoBuffer A → List (Op A) → Type 0
  AllKeepOrder d b [] = Unit {0}
  AllKeepOrder d b (op ∷ ops) =
      IsAllowed v op × KeepsOrder b op × AllKeepOrder d (step v d b op).1 ops

  write-step :
      (d : A) (b : IoBuffer A) (x : A)
      → IsValid v b
      → KeepsOrder b (write x)
      → Simulates b (write x) (step v d b (write x))
  unfolding step queue_step
  write-step d b x h k =
      ground (arith, write_lem v b x h, space-free_space b h, realigned_lem v b h)

  write_from-step :
      (d : A) (b : IoBuffer A) (xs : List A)
      → IsValid v b
      → KeepsOrder b (write_from xs)
      → Simulates b (write_from xs) (step v d b (write_from xs))
  unfolding step queue_step
  write_from-step d b xs h k =
      ground (arith, h.size_in, write_from_lem v b xs h, space-free_space b h, realigned_lem v b h)

  read-step : (d : A) (b : IoBuffer A) → IsValid v b → Simulates b read (step v d b read)
  unfolding step queue_step
  read-step d b h = ground (arith, read_lem v d b h)

  take-min :
      (xs : List A) (n : ℕ)
      → (take (min n (length xs)) xs ≡ take n xs) × (drop (min n (length xs)) xs ≡ drop n xs)
  take-min xs n = (
    list_ext _ _ λ i. ground (
      arith,
      get_elem?-take (min n (length xs)) xs i,
      get_elem?-take n xs i,
      get_elem?-outside xs i,
    ),
    list_ext _ _ λ i. ground (
      arith,
      get_elem?-drop (min n (length xs)) xs i,
      get_elem?-drop n xs i,
      get_elem?-outside xs (n + i),
      get_elem?-outside xs (length xs + i),
    ),
  )

  read_into-step :
      (d : A) (b : IoBuffer A) (n : ℕ)
      → IsValid v b
      → Simulates b (read_into n) (step v d b (read_into n))
  unfolding step queue_step
  read_into-step d b n h =
      ground (arith, read_into_lem v n b [] h, take-min (contents b) n, length-queue b h)

  -- With no limit to speak of the whole queue is read.
  read_all_into_lem :
      (b : IoBuffer A) (out : List A)
      → IsValid v b
      → let (n, out', b') = Read.read_all_into v b out in
        (n ≡ b.buffer_size)
        × (out' ≡ out ++ contents b)
        × (contents b' ≡ [])
        × IsValid v b'
        × (b'.buffer_limit ≡ b.buffer_limit)
        × (b'.closed ≡ b.closed)
  unfolding Read.read_all_into
  read_all_into_lem b out h =
      let m : min (2 ^ 64 - 1) b.buffer_size ≡ b.buffer_size =
        omega (arith, v.max_elements_lt, h.size_in, h.bounded) in
      ground (
        arith,
        m,
        read_into_lem v (2 ^ 64 - 1) b out h,
        take_all v (contents b) b.buffer_size,
        drop_all v (contents b) b.buffer_size,
        length-queue b h,
      )

  read_all_into-step :
      (d : A) (b : IoBuffer A) → IsValid v b → Simulates b read_all_into (step v d b read_all_into)
  unfolding step queue_step
  read_all_into-step d b h = ground (arith, read_all_into_lem b [] h, length-queue b h)

  read_all_swap-step :
      (d : A) (b : IoBuffer A) (c : ℕ)
      → IsValid v b
      → Simulates b (read_all_swap c) (step v d b (read_all_swap c))
  unfolding step queue_step Read.read_all_swap
  read_all_swap-step d b c h =
      ground (arith, h.limited, read_all_into_lem b [] h, length-queue b h, append-nil b.items)

  clear-step : (d : A) (b : IoBuffer A) → IsValid v b → Simulates b clear (step v d b clear)
  unfolding step queue_step Read.clear
  clear-step d b h =
      ground (arith, h.bounded, h.limited, shrink_lem v (record b { buffer_size = 0 }))

  -- Every operation returns what the queue returns, leaves the buffer holding what the queue
  -- holds, and keeps the invariant. The operation must be allowed, and a write may not grow the
  -- storage while the queue wraps round, unless it is refused.
  pub step_refines :
      (d : A) (b : IoBuffer A) (op : Op A)
      → IsValid v b
      → IsAllowed v op
      → KeepsOrder b op
      → let (r, b') = step v d b op in
        ((r, queue_of b') ≡ queue_step v (queue_of b) op) × IsValid v b'
  step_refines d b (write x) h a k = write-step d b x h k
  step_refines d b (write_from xs) h a k = write_from-step d b xs h k
  step_refines d b read h a k = read-step d b h
  step_refines d b (read_into n) h a k = read_into-step d b n h
  step_refines d b read_all_into h a k = read_all_into-step d b h
  step_refines d b (read_all_swap c) h a k = read_all_swap-step d b c h
  step_refines d b clear h a k = clear-step d b h
  step_refines d b close h a k =
      unfold step queue_step Read.close in (refl, ground (arith, h.first_in))
  step_refines d b (set_max_size n) h a k =
      unfold step queue_step Read.set_max_size in (refl, ground (arith, h.first_in))

  -- A sequence of calls returns on a valid buffer what it returns on the queue of its elements, as
  -- long as every call is allowed and every write is refused, or finds the queue contiguous, or fits
  -- into the storage there is.
  pub run_refines :
      (d : A) (b : IoBuffer A) (ops : List (Op A))
      → IsValid v b
      → AllKeepOrder d b ops
      → run v d b ops ≡ queue_run v (queue_of b) ops
  unfolding run queue_run
  run_refines d b [] h a = refl
  run_refines d b (op ∷ ops) h (a, k, more) =
      let (e, h') = step_refines d b op h a k in
      ap (λ l. (step v d b op).0 ∷ l) (run_refines d (step v d b op).1 ops h' more)
      ∙ ap (λ s. s.0 ∷ queue_run v s.1 ops) e

  -- A buffer starts as an empty open queue.
  pub create-IsValid :
      (limit : ℕ) → limit ≤ v.max_elements → IsValid v (Defs.create {A = A} v limit)
  unfolding Defs.create
  create-IsValid limit h = ground arith
