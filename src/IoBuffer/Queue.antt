-- ===== src/IoBuffer/Queue.antt =====
-- What `io_buffer` promises: a queue with a limit that can be closed. The operations of a client
-- are a data type, so that a sequence of them can be run on the buffer and on the queue.
use skate.Prelude.{ℕ, ◌-◌, ◌≤◌, min, ◌==◌, ltb, not, ◌||◌, if◌then◌else◌, Bool, true, false}
use skate.Prelude.{List, [], ◌∷◌, ◌++◌, Option, length, take, drop, get_elem?}
use skate.IoBuffer.Vector.{StdVector}
use skate.IoBuffer.Defs.{IoBuffer}
use skate.IoBuffer.Defs
use skate.IoBuffer.Read

pub data Op (A : Type 0) : Type 0 where
  write : A → Op A
  write_from : List A → Op A
  read : Op A
  read_into : ℕ → Op A
  read_all_into : Op A
  read_all_swap : ℕ → Op A
  clear : Op A
  close : Op A
  set_max_size : ℕ → Op A

-- What an operation returns.
pub data Reply (A : Type 0) : Type 0 where
  accepted : Bool → Reply A
  element : Option A → Reply A
  moved : ℕ → List A → Reply A
  done : Reply A

pub record Queue (A : Type 0) : Type 0 where
  pub elements : List A
  pub limit : ℕ
  pub closed : Bool

module _ {A : Type 0} (v : StdVector) where
  -- The operations of the buffer.
  unfoldable pub step : A → IoBuffer A → Op A → Reply A × IoBuffer A
  step d b (write x) = let (b', ok) = Defs.write v b x in (accepted ok, b')
  step d b (write_from xs) = let (b', ok) = Defs.write_from v b xs in (accepted ok, b')
  step d b read = let (o, b') = Read.read v d b in (element o, b')
  step d b (read_into n) = let (k, xs, b') = Read.read_into v n b [] in (moved k xs, b')
  step d b read_all_into = let (k, xs, b') = Read.read_all_into v b [] in (moved k xs, b')
  step d b (read_all_swap c) = let (xs, b') = Read.read_all_swap v b c in (moved (length xs) xs, b')
  step d b clear = (done, Read.clear v b)
  step d b close = (done, Read.close v b)
  step d b (set_max_size n) = (done, Read.set_max_size v b n)

  unfoldable pub run : A → IoBuffer A → List (Op A) → List (Reply A)
  run d b [] = []
  run d b (op ∷ ops) = let (r, b') = step d b op in r ∷ run d b' ops

  abbrev pub space : Queue A → ℕ
  space q =
      let max = if q.limit == 0 then v.max_elements else q.limit in
      if ltb max (length q.elements) then 0 else max - length q.elements

  -- What the queue does.
  unfoldable pub queue_step : Queue A → Op A → Reply A × Queue A
  queue_step q (write x) =
      if space q == 0 || q.closed
      then (accepted false, q)
      else (accepted true, record q { elements = q.elements ++ (x ∷ []) })
  queue_step q (write_from xs) =
      if length xs == 0 || not (ltb (space q) (length xs) || q.closed)
      then (accepted true, record q { elements = q.elements ++ xs })
      else (accepted false, q)
  queue_step q read = (element (get_elem? q.elements 0), record q { elements = drop 1 q.elements })
  queue_step q (read_into n) = (
    moved (min n (length q.elements)) (take n q.elements),
    record q { elements = drop n q.elements },
  )
  queue_step q read_all_into = (moved (length q.elements) q.elements, record q { elements = [] })
  queue_step q (read_all_swap c) =
      (moved (length q.elements) q.elements, record q { elements = [] })
  queue_step q clear = (done, record q { elements = [] })
  queue_step q close = (done, record q { closed = true })
  queue_step q (set_max_size n) = (done, record q { limit = n })

  unfoldable pub queue_run : Queue A → List (Op A) → List (Reply A)
  queue_run q [] = []
  queue_run q (op ∷ ops) = let (r, q') = queue_step q op in r ∷ queue_run q' ops

  -- A client may not set a limit beyond what a vector can hold.
  abbrev pub IsAllowed : Op A → Type 0
  IsAllowed (set_max_size n) = n ≤ v.max_elements
  IsAllowed _ = Unit {0}
