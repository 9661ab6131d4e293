-- ===== src/ThreadBuffer/Reads.antt =====
-- What a turn of a consumer does to the buffer that it shares with others.
use skate.Prelude.{◌-◌, ◌≤◌, ◌≡◌, ◌⊎◌, inl, inr, ap, sym, ◌∙◌, refl, arith, ◌==◌}
use skate.Prelude.{not, ◌&&◌, ◌||◌, Bool, true, false}
use skate.Prelude.{none, length, length-drop, Bool-cases}
use skate.IoBuffer.Vector.{StdVector}
use skate.IoBuffer.Defs.{IoBuffer}
use skate.IoBuffer.Contents.{contents, IsValid}
use skate.IoBuffer.Queue.{Op, step, queue_step, IsAllowed}
use skate.IoBuffer.Refine.{step_refines, length-queue, queue_of, KeepsOrder}
use skate.ThreadBuffer.Defs.{Shared, Call, write_one, write_many, read_one, read_some, read_all}
use skate.ThreadBuffer.Defs.{read_swap, nobody, all_producers}
use skate.ThreadBuffer.Defs.{Turn, turn, read_turn}
use skate.ThreadBuffer.Defs.{producers_available}
use skate.ThreadBuffer.System.{is_write}
use skate.ThreadBuffer.Turns.{is_none, is_hungry}

module _ {A : Type 0} (v : StdVector) where
  -- A turn of a call that reads: it waits on an empty buffer while there may be producers, or it
  -- returns, tells the producers, and leaves less in the buffer if it may take any.
  abbrev pub Reads : Shared A → Call A → Turn A → Type 0
  Reads s c t =
      ((t.reply ≡ none)
        × (t.shared ≡ s)
        × (t.notice ≡ nobody)
        × (s.buffer.buffer_size ≡ 0)
        × (producers_available s ≡ true))
      ⊎ ((is_none t.reply ≡ false)
          × (t.notice ≡ all_producers)
          × IsValid v t.shared.buffer
          × (producers_available t.shared ≡ producers_available s)
          × (t.shared.buffer.buffer_size ≤ s.buffer.buffer_size)
          × (is_hungry c ≡ true → t.shared.buffer.buffer_size ≤ s.buffer.buffer_size - 1))

  -- What the operations of the buffer that read leave.
  left_lem :
      (d : A) (b : IoBuffer A) (op : Op A)
      → IsValid v b
      → IsAllowed v op
      → KeepsOrder v b op
      → let b' = (step v d b op).1 in
        IsValid v b'
        × (b'.buffer_size ≡ length (queue_step v (queue_of v b) op).1.elements)
        × (length (contents b) ≡ b.buffer_size)
  left_lem d b op h a k =
      let (e, w) = step_refines v d b op h a k in
      (w, sym (length-queue v _ w) ∙ ap (λ p. length p.1.elements) e, length-queue v b h)

  -- `n` says how many elements at least an operation takes from a buffer that has them.
  read_turn-Reads :
      (d : A) (s : Shared A) (c : Call A) (op : Op A) (w : Bool)
      → let b' = (step v d s.buffer op).1 in
        IsValid v b'
        → b'.buffer_size ≤ s.buffer.buffer_size
        → (is_hungry c ≡ true → b'.buffer_size ≤ s.buffer.buffer_size - 1)
        → Reads s c (read_turn v d s op w)
  unfolding read_turn producers_available
  read_turn-Reads d s c op w v' l m =
      elim (Bool-cases (
        w
        && s.buffer.buffer_size == 0
        && (not (s.producer_count == 0) || not s.producer_registered))) [
          | inl e ↦ rw e (inl (refl, refl, refl, ground (arith, e), ground (arith, e)))
          | inr e ↦ rw e (inr (refl, refl, v', refl, l, m))
        ]

  pub turn-Reads :
      (d : A) (s : Shared A) (c : Call A)
      → IsValid v s.buffer
      → is_write c ≡ false
      → Reads s c (turn v d s c)
  unfolding turn queue_step
  turn-Reads d s (write_one x w) h k = absurd (cc k)
  turn-Reads d s (write_many xs w) h k = absurd (cc k)
  turn-Reads d s (read_one w) h k =
      let (v', e, n) = left_lem d s.buffer Op.read h tt tt in
      let m = length-drop 1 (contents s.buffer) in
      read_turn-Reads d s (read_one w) Op.read w v' (omega arith) (λ _. omega arith)
  turn-Reads d s (read_some i w) h k =
      let (v', e, n) = left_lem d s.buffer (Op.read_into i) h tt tt in
      let m = length-drop i (contents s.buffer) in
      read_turn-Reads d s (read_some i w) (Op.read_into i) w v' (omega arith)
        (λ q. ground (arith, q, m, e, n))
  turn-Reads d s (read_all w) h k =
      let (v', e, n) = left_lem d s.buffer Op.read_all_into h tt tt in
      read_turn-Reads d s (read_all w) Op.read_all_into w v' (omega arith) (λ _. omega arith)
  turn-Reads d s (read_swap i w) h k =
      let (v', e, n) = left_lem d s.buffer (Op.read_all_swap i) h tt tt in
      read_turn-Reads d s (read_swap i w) (Op.read_all_swap i) w v' (omega arith) (λ _. omega arith)
