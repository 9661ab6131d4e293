-- ===== src/ThreadBuffer/Consumers.antt =====
-- No consumer that shares an `io_threadsafe_buffer` of skate/io/buffer.h sleeps beside elements that
-- nobody is about to read.
use skate.Prelude.{ℕ, ◌-◌, ◌≤◌, ◌<◌, ◌≡◌, ◌⊎◌, inl, inr, ap, sym, ◌∙◌, refl, arith, ◌==◌}
use skate.Prelude.{true, List, [], ◌∷◌, ◌++◌, length}
use skate.Prelude.{some, Bool-cases, All, get_elem?}
use skate.IoBuffer.Vector.{StdVector}
use skate.IoBuffer.Defs.{IoBuffer, create}
use skate.IoBuffer.Contents.{IsValid}
use skate.IoBuffer.Refine.{step_refines, create-IsValid, length-queue}
use skate.IoBuffer.Queue.{Op, step, queue_step}
use skate.IoBuffer.Read
use skate.ThreadBuffer.Defs.{Shared, Call}
use skate.ThreadBuffer.Defs.{producers_available, create_shared}
use skate.ThreadBuffer.Defs.{register_consumer, register_producer, unregister_consumer}
use skate.ThreadBuffer.Defs.{unregister_producer, clear_shared, set_max_size_shared}
use skate.ThreadBuffer.System.{System, is_write, change, take_turn, Step, remove_at}
use skate.ThreadBuffer.System.{begin_call, run_turn, wake_producer, wake_consumer, add_consumer}
use skate.ThreadBuffer.System.{
  add_producer, drop_consumer, drop_producer, clear_buffer, change_limit,
}
use skate.ThreadBuffer.System.{put}
use skate.ThreadBuffer.Turns.{is_hungry}
use skate.ThreadBuffer.Hungry.{hungry, AllServed, hungry-append}
use skate.ThreadBuffer.Hungry.{Served_at, hungry-put_le, All-remove_at, Attended, Waits}
use skate.ThreadBuffer.Hungry.{Served, start, later}
use skate.ThreadBuffer.TakeTurn.{take_write, take_read}

module _ {A : Type 0} (v : StdVector) (d : A) where
  run_turn-Waits :
      (t : System A) (i : ℕ) (c : Call A) (k : ℕ)
      → get_elem? t.ready i ≡ some c
      → (t.consumers ≡ []) ⊎ (k < length t.consumers)
      → AllServed t.ready
      → Waits v d t
      → Waits v d (take_turn v d t i c k)
  run_turn-Waits t i c k e f a h =
      let s = Served_at i t.ready c e a in
      elim (Bool-cases (is_write c)) [
        | inl w ↦ take_write v d t i c k e f w h
        | inr w ↦ take_read v d t i c k e w (ground (arith, s, w)) h
      ]

  -- More calls are ready, and the shared state attends to those that wait as before.
  attended :
      (t : System A) (s' : Shared A) (ready producers consumers : List (Call A))
      → Waits v d t
      → (t.consumers ≡ [] → consumers ≡ [])
      → All (λ c. is_hungry c ≡ true) consumers
      → IsValid v s'.buffer
      → s'.buffer.buffer_size ≤ t.shared.buffer.buffer_size
      → (producers_available t.shared ≡ true → producers_available s' ≡ true)
      → hungry t.ready ≤ hungry ready
      → Waits v d
          (record { shared = s'; ready = ready; producers = producers; consumers = consumers })
  attended t s' ready producers consumers h n a w l p r =
      (w, a, elim h.2 [ inl x ↦ inl (n x) | inr (x, y) ↦ inr (omega arith, p y) ])

  drop_producer-Waits :
      (t : System A) → Waits v d t → Waits v d (change t (unregister_producer t.shared))
  unfolding unregister_producer
  drop_producer-Waits t h = elim (Bool-cases (t.shared.producer_count == 0)) [
    | inl e ↦ rw e h
    | inr e ↦ elim (Bool-cases (t.shared.producer_count - 1 == 0)) [
      | inl e' ↦ rw (e, e') (h.0, tt, inl refl)
      | inr e' ↦
          rw (e, e')
            (attended t (record t.shared { producer_count = t.shared.producer_count - 1 }) t.ready
              t.producers t.consumers h (λ x. x) h.1 h.0 (omega arith)
              (λ _. unfold producers_available in ground (arith, e')) (omega arith))
    ]
  ]

  drop_consumer-Waits :
      (t : System A) → Waits v d t → Waits v d (change t (unregister_consumer t.shared))
  unfolding unregister_consumer
  drop_consumer-Waits t h = elim (Bool-cases (t.shared.consumer_count == 0)) [
    | inl e ↦ rw e h
    | inr e ↦
        let s' = record t.shared { consumer_count = t.shared.consumer_count - 1 } in
        let more = hungry-append t.producers t.ready in
        let keep : producers_available t.shared ≡ true → producers_available s' ≡ true =
          λ q. unfold producers_available in q in
        elim (Bool-cases (t.shared.consumer_count - 1 == 0)) [
          | inl e' ↦
              rw (e, e')
                (attended t s' (t.producers ++ t.ready) [] t.consumers h (λ x. x) h.1 h.0
                  (omega arith) keep (omega arith))
          | inr e' ↦
              rw (e, e')
                (attended t s' t.ready t.producers t.consumers h (λ x. x) h.1 h.0 (omega arith) keep
                  (omega arith))
        ]
  ]

  clear_lem :
      (b : IoBuffer A)
      → IsValid v b
      → IsValid v (Read.clear v b) × ((Read.clear v b).buffer_size ≡ 0)
  unfolding step queue_step
  clear_lem b h =
      let (e, w) = step_refines v d b Op.clear h tt tt in
      (w, sym (length-queue v _ w) ∙ ap (λ p. length p.1.elements) e)

  clear-Waits : (t : System A) → Waits v d t → Waits v d (change t (clear_shared v t.shared))
  unfolding clear_shared
  clear-Waits t h =
      let (w, e) = clear_lem t.shared.buffer h.0 in
      attended t (record t.shared { buffer = Read.clear v t.shared.buffer })
        (t.producers ++ t.ready) [] t.consumers h (λ x. x) h.1 w (omega arith)
        (λ q. unfold producers_available in q) (omega (arith, hungry-append t.producers t.ready))

  set_max_size-Waits :
      (t : System A) (n : ℕ)
      → n ≤ v.max_elements
      → Waits v d t
      → Waits v d (change t (set_max_size_shared v t.shared n))
  unfolding set_max_size_shared Read.set_max_size
  set_max_size-Waits t n l h =
      let s' = record t.shared { buffer = record t.shared.buffer { buffer_limit = n } } in
      let w : IsValid v s'.buffer = record {
        size_in = h.0.size_in;
        first_in = h.0.first_in;
        bounded = h.0.bounded;
        limited = l;
      } in
      attended t s' t.ready t.producers t.consumers h (λ x. x) h.1 w (omega arith)
        (λ q. unfold producers_available in q) (omega arith)

  Step-Waits :
      {t t' : System A}
      → Step v d t t'
      → AllServed t.ready
      → t'.shared.buffer.buffer_limit ≤ v.max_elements
      → Waits v d t
      → Waits v d t'
  unfolding register_consumer register_producer
  Step-Waits {t} (begin_call c) a l h =
      attended t t.shared (c ∷ t.ready) t.producers t.consumers h (λ x. x) h.1 h.0 (omega arith)
        (λ q. q) (ground arith)
  Step-Waits {t} (run_turn i c k e f) a l h = run_turn-Waits t i c k e f a h
  Step-Waits {t} (wake_producer i) a l h =
      attended t t.shared (put (get_elem? t.producers i) t.ready) (remove_at i t.producers)
        t.consumers h (λ x. x) h.1 h.0 (omega arith) (λ q. q)
        (hungry-put_le (get_elem? t.producers i) t.ready)
  Step-Waits {t} (wake_consumer i) a l h =
      attended t t.shared (put (get_elem? t.consumers i) t.ready) t.producers
        (remove_at i t.consumers) h (λ x. rw x refl) (All-remove_at _ i t.consumers h.1) h.0
        (omega arith) (λ q. q) (hungry-put_le (get_elem? t.consumers i) t.ready)
  Step-Waits {t} add_consumer a l h =
      attended t (register_consumer t.shared) t.ready t.producers t.consumers h (λ x. x) h.1 h.0
        (omega arith) (λ q. unfold producers_available in q) (omega arith)
  Step-Waits {t} add_producer a l h =
      attended t (register_producer t.shared) t.ready t.producers t.consumers h (λ x. x) h.1 h.0
        (omega arith) (λ q. unfold producers_available in ground arith) (omega arith)
  Step-Waits {t} drop_consumer a l h = drop_consumer-Waits t h
  Step-Waits {t} drop_producer a l h = drop_producer-Waits t h
  Step-Waits {t} clear_buffer a l h = clear-Waits t h
  Step-Waits {t} (change_limit n) a l h =
      set_max_size-Waits t n (unfold set_max_size_shared Read.set_max_size in l) h

  served : (t : System A) → Served v d t → Waits v d t × AllServed t.ready
  unfolding create_shared create
  served t (start limit l) = ((create-IsValid v limit l, tt, inl refl), tt)
  served t (later {s} r st a l) = let (h, b) = served s r in (Step-Waits st b l h, a)

  -- In every state that is reached, as long as no call waits for elements of which it will take none
  -- and the limits are such that a vector can reach them: if a consumer waits, then there may still be
  -- producers, and there are at most as many elements in the buffer as calls that are ready to read
  -- one. So no consumer sleeps beside an element that nobody is about to read.
  pub Served-Attended : (t : System A) → Served v d t → Attended v d t
  Served-Attended t r = (served t r).0.2
