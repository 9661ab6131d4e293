-- ===== src/ThreadBuffer/Producers.antt =====
-- No producer that shares an `io_threadsafe_buffer` of skate/io/buffer.h sleeps without need.
use skate.Prelude.{ℕ, zero, suc, ◌-◌, ◌≤◌, ◌≡◌, inl, inr, sym, ◌∙◌, refl, arith, ◌==◌}
use skate.Prelude.{if◌then◌else◌, true, false, List, [], ◌∷◌}
use skate.Prelude.{Option, none, some, Bool-cases, All}
use skate.IoBuffer.Vector.{StdVector}
use skate.IoBuffer.Defs.{IoBuffer, create}
use skate.IoBuffer.Contents.{IsValid}
use skate.IoBuffer.Refine.{step_refines, create-IsValid}
use skate.IoBuffer.Queue.{Op, Reply, step}
use skate.IoBuffer.Read
use skate.ThreadBuffer.Defs.{
  Shared, Call, Notice, nobody, one_consumer, all_consumers, all_producers,
}
use skate.ThreadBuffer.Defs.{write_one, write_many, read_one, read_some, read_all, read_swap}
use skate.ThreadBuffer.Defs.{turn, consumers_available, create_shared}
use skate.ThreadBuffer.Defs.{register_consumer, register_producer, unregister_consumer}
use skate.ThreadBuffer.Defs.{unregister_producer, clear_shared, set_max_size_shared}
use skate.ThreadBuffer.System.{System, is_write, wake, finish, change, take_turn, Step, remove_at}
use skate.ThreadBuffer.System.{begin_call, run_turn, wake_producer, wake_consumer, add_consumer}
use skate.ThreadBuffer.System.{
  add_producer, drop_consumer, drop_producer, clear_buffer, change_limit,
}
use skate.ThreadBuffer.System.{Reach, start, later}
use skate.ThreadBuffer.Reads.{turn-Reads}
use skate.ThreadBuffer.Turns.{is_none, must_wait, must_wait-Grows, Grows, turn-Wrote}

module _ {A : Type 0} (v : StdVector) (d : A) where
  abbrev pub Sleeps : System A → Type 0
  Sleeps t = IsValid v t.shared.buffer × All (λ c. must_wait v t.shared c ≡ true) t.producers

  must_wait-available :
      (s : Shared A) (c : Call A) → must_wait v s c ≡ true → consumers_available s ≡ true
  must_wait-available s (write_one x w) h = ground (arith, h)
  must_wait-available s (write_many xs w) h = ground (arith, h)
  must_wait-available s (read_one w) h = absurd (cc h)
  must_wait-available s (read_some n w) h = absurd (cc h)
  must_wait-available s (read_all w) h = absurd (cc h)
  must_wait-available s (read_swap n w) h = absurd (cc h)

  sleeps_on :
      (s s' : Shared A) (n : ℕ) (cs : List (Call A))
      → Grows v s.buffer s'.buffer n
      → (consumers_available s ≡ true → consumers_available s' ≡ true)
      → All (λ c. must_wait v s c ≡ true) cs
      → All (λ c. must_wait v s' c ≡ true) cs
  sleeps_on s s' n [] g e a = tt
  sleeps_on s s' n (c ∷ cs) g e (h, a) =
      let q = must_wait-available s c h in
      (must_wait-Grows v s s' n c g (e q ∙ sym q) h, sleeps_on s s' n cs g e a)

  Sleeps-wake : (n : Notice) (k : ℕ) (t : System A) → Sleeps t → Sleeps (wake n k t)
  Sleeps-wake nobody k t h = h
  Sleeps-wake one_consumer k t h = h
  Sleeps-wake all_consumers k t h = h
  Sleeps-wake all_producers k t h = (h.0, tt)

  Sleeps-finish :
      (r : Option (Reply A)) (c : Call A) (t : System A)
      → is_write c ≡ true
      → (is_none r ≡ true → must_wait v t.shared c ≡ true)
      → Sleeps t
      → Sleeps (finish r c t)
  Sleeps-finish none c t w m h = rw w (h.0, (m refl, h.1))
  Sleeps-finish (some r) c t w m h = h

  finish_shared :
      (r : Option (Reply A)) (c : Call A) (t : System A) → is_none r ≡ false → finish r c t ≡ t
  finish_shared none c t e = absurd (cc e)
  finish_shared (some r) c t e = refl

  take_turn-Sleeps :
      (t : System A) (i : ℕ) (c : Call A) (k : ℕ) → Sleeps t → Sleeps (take_turn v d t i c k)
  take_turn-Sleeps t i c k h = elim (Bool-cases (is_write c)) [
    | inl w ↦
        let (m, e, _, (n, g, _)) = turn-Wrote v d t.shared c h.0 w in
        let r = turn v d t.shared c in
        let rest = remove_at i t.ready in
        Sleeps-wake r.notice k _ (
          Sleeps-finish r.reply c (record t { shared = r.shared; ready = rest }) w
            (λ q. must_wait-Grows v t.shared r.shared n c g e (sym m ∙ q))
            (g.0, sleeps_on t.shared r.shared n t.producers g (λ q. e ∙ q) h.1))
    | inr w ↦ elim (turn-Reads v d t.shared c h.0 w) [
      | inl (a, b, e, _, _) ↦ rw (a, b, e, w) h
      | inr (a, b, e, _, _, _) ↦ rw (b, finish_shared (turn v d t.shared c).reply c _ a) (e, tt)
    ]
  ]

  All-remove_at :
      (P : Call A → Type 0) (i : ℕ) (cs : List (Call A)) → All P cs → All P (remove_at i cs)
  All-remove_at P i [] a = tt
  All-remove_at P zero (c ∷ cs) a = a.1
  All-remove_at P (suc i) (c ∷ cs) a = (a.0, All-remove_at P i cs a.1)

  -- The consumers that are left keep the producers waiting.
  drop_consumer-Sleeps :
      (t : System A) → Sleeps t → Sleeps (change t (unregister_consumer t.shared))
  unfolding unregister_consumer
  drop_consumer-Sleeps t h = elim (Bool-cases (t.shared.consumer_count == 0)) [
    | inl e ↦ rw e h
    | inr e ↦ elim (Bool-cases (t.shared.consumer_count - 1 == 0)) [
      | inl e' ↦ rw (e, e') (h.0, tt)
      | inr e' ↦
          let s' = record t.shared { consumer_count = t.shared.consumer_count - 1 } in
          rw (e, e')
            (
              h.0,
              sleeps_on t.shared s' 0 t.producers (h.0, refl, refl, omega arith)
                  (λ _. unfold consumers_available in ground (arith, e')) h.1,
            )
    ]
  ]

  drop_producer-Sleeps :
      (t : System A) → Sleeps t → Sleeps (change t (unregister_producer t.shared))
  unfolding unregister_producer
  drop_producer-Sleeps t h = elim (Bool-cases (t.shared.producer_count == 0)) [
    | inl e ↦ rw e h
    | inr e ↦
        let s' = record t.shared { producer_count = t.shared.producer_count - 1 } in
        let n = if t.shared.producer_count - 1 == 0 then all_consumers else nobody in
        rw e (
          Sleeps-wake n 0 (record t { shared = s' })
            (
              h.0,
              sleeps_on t.shared s' 0 t.producers (h.0, refl, refl, omega arith)
                  (λ q. unfold consumers_available in q) h.1,
            ))
  ]

  clear-IsValid : (b : IoBuffer A) → IsValid v b → IsValid v (Read.clear v b)
  unfolding step
  clear-IsValid b h = (step_refines v d b Op.clear h tt tt).1

  set_max_size-Sleeps :
      (t : System A) (n : ℕ)
      → (change t (set_max_size_shared v t.shared n)).shared.buffer.buffer_limit
        ≡ t.shared.buffer.buffer_limit
      → Sleeps t
      → Sleeps (change t (set_max_size_shared v t.shared n))
  unfolding set_max_size_shared Read.set_max_size
  set_max_size-Sleeps t n l h =
      let s' = record t.shared { buffer = record t.shared.buffer { buffer_limit = n } } in
      let w : IsValid v s'.buffer = record {
        size_in = h.0.size_in;
        first_in = h.0.first_in;
        bounded = h.0.bounded;
        limited = omega (arith, l, h.0.limited);
      } in
      (
        w,
        sleeps_on t.shared s' 0 t.producers (w, l, refl, omega arith)
            (λ q. unfold consumers_available in q) h.1,
      )

  -- Every step but a change of the limit keeps the invariant.
  Step-Sleeps :
      {t t' : System A}
      → Step v d t t'
      → t'.shared.buffer.buffer_limit ≡ t.shared.buffer.buffer_limit
      → Sleeps t
      → Sleeps t'
  unfolding register_consumer register_producer
  Step-Sleeps (begin_call c) l h = h
  Step-Sleeps {t} (run_turn i c k e f) l h = take_turn-Sleeps t i c k h
  Step-Sleeps {t} (wake_producer i) l h = (h.0, All-remove_at _ i t.producers h.1)
  Step-Sleeps (wake_consumer i) l h = h
  Step-Sleeps {t} add_consumer l h = (
    h.0,
    sleeps_on t.shared (register_consumer t.shared) 0 t.producers (h.0, refl, refl, omega arith)
        (λ _. unfold consumers_available in ground arith) h.1,
  )
  Step-Sleeps {t} add_producer l h = (
    h.0,
    sleeps_on t.shared (register_producer t.shared) 0 t.producers (h.0, refl, refl, omega arith)
        (λ q. unfold consumers_available in q) h.1,
  )
  Step-Sleeps {t} drop_consumer l h = drop_consumer-Sleeps t h
  Step-Sleeps {t} drop_producer l h = drop_producer-Sleeps t h
  Step-Sleeps {t} clear_buffer l h = unfold clear_shared in (clear-IsValid t.shared.buffer h.0, tt)
  Step-Sleeps {t} (change_limit n) l h = set_max_size-Sleeps t n l h

  reached :
      (limit : ℕ) (t : System A)
      → limit ≤ v.max_elements
      → Reach v d limit t
      → Sleeps t × (t.shared.buffer.buffer_limit ≡ limit)
  unfolding create_shared create
  reached limit t k start = ((create-IsValid v limit k, tt), refl)
  reached limit t k (later {s} r st l) =
      let (h, e) = reached limit s k r in (Step-Sleeps st (l ∙ sym e) h, l)

  -- While nobody changes the limit, which a vector can reach, a producer that waits has to wait: in
  -- every state that is reached there is no space for what it writes, its sequence is not longer than
  -- the limit, and there may still be consumers. So no wake-up is lost.
  pub Reach-Sleeps :
      (limit : ℕ) (t : System A)
      → limit ≤ v.max_elements
      → Reach v d limit t
      → All (λ c. must_wait v t.shared c ≡ true) t.producers
  Reach-Sleeps limit t k r = (reached limit t k r).0.1
