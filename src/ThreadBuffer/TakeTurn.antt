-- ===== src/ThreadBuffer/TakeTurn.antt =====
-- What a turn of a thread leaves for the consumers of an `io_threadsafe_buffer` of
-- skate/io/buffer.h that wait.
use skate.Prelude.{ℕ, ◌≤◌, ◌<◌, ◌≡◌, ◌⊎◌, inl, inr, ◌∙◌, refl, arith}
use skate.Prelude.{true, false, List, [], ◌∷◌, length}
use skate.Prelude.{Option, none, some, get_elem?}
use skate.IoBuffer.Vector.{StdVector}
use skate.IoBuffer.Queue.{Reply}
use skate.ThreadBuffer.Defs.{Shared, Call, Notice, nobody, one_consumer, all_consumers}
use skate.ThreadBuffer.Defs.{turn, producers_available}
use skate.ThreadBuffer.System.{System, is_write, wake, finish, take_turn, remove_at}
use skate.ThreadBuffer.Reads.{turn-Reads}
use skate.ThreadBuffer.Turns.{is_none, is_hungry, Grows, turn-Wrote}
use skate.ThreadBuffer.Hungry.{hungry, hungry-append, write_not_hungry, hungry-remove_at}
use skate.ThreadBuffer.Hungry.{hungry-put, All-remove_at, Waits}

module _ {A : Type 0} (v : StdVector) (d : A) where
  -- A notice to consumers that a write sends.
  wrote_lem :
      (t : System A) (s' : Shared A) (n k : ℕ) (notice : Notice) (ready producers : List (Call A))
      → Waits v d t
      → hungry ready ≡ hungry t.ready
      → Grows v t.shared.buffer s'.buffer n
      → producers_available s' ≡ producers_available t.shared
      → (t.consumers ≡ []) ⊎ (k < length t.consumers)
      → ((notice ≡ nobody) × (n ≡ 0))
        ⊎ ((notice ≡ one_consumer) × (n ≤ 1))
        ⊎ (notice ≡ all_consumers)
      → Waits v d (
          wake notice k
            (record { shared = s'; ready = ready; producers = producers; consumers = t.consumers }))
  wrote_lem t s' n k notice ready producers h e g p f (inl (q, z)) =
      rw q (g.0, h.1, elim h.2 [ inl x ↦ inl x | inr (x, y) ↦ inr (omega (arith, g.3), p ∙ y) ])
  wrote_lem t s' n k notice ready producers h e g p f (inr (inl (q, z))) = rw q (
    g.0,
    All-remove_at _ k t.consumers h.1,
    elim f [
      | inl x ↦ inl (rw x refl)
      | inr l ↦ elim h.2 [
        | inl x ↦ inl (rw x refl)
        | inr (x, y) ↦ inr (omega (arith, g.3, hungry-put k t.consumers ready h.1 l), p ∙ y)
      ]
    ],
  )
  wrote_lem t s' n k notice ready producers h e g p f (inr (inr q)) = rw q (g.0, tt, inl refl)

  -- What a writer leaves behind it before it notifies: it may wait among the producers.
  finish_write :
      (r : Option (Reply A)) (c : Call A) (t : System A)
      → is_write c ≡ true
      → (ps : List (Call A)) × (finish r c t ≡ record t { producers = ps })
  finish_write none c t w = (c ∷ t.producers, rw w refl)
  finish_write (some r) c t w = (t.producers, refl)

  pub take_write :
      (t : System A) (i : ℕ) (c : Call A) (k : ℕ)
      → get_elem? t.ready i ≡ some c
      → (t.consumers ≡ []) ⊎ (k < length t.consumers)
      → is_write c ≡ true
      → Waits v d t
      → Waits v d (take_turn v d t i c k)
  take_write t i c k e f w h =
      let (_, _, p, (n, g, q)) = turn-Wrote v d t.shared c h.0 w in
      let r = turn v d t.shared c in
      let s1 = record t { shared = r.shared; ready = remove_at i t.ready } in
      let (ps, x) = finish_write r.reply c s1 w in
      let count : hungry (remove_at i t.ready) ≡ hungry t.ready =
        ground (arith, hungry-remove_at i t.ready c e, write_not_hungry c w) in
      rw x (
        wrote_lem t r.shared n k r.notice (remove_at i t.ready) ps h count g p f (elim q [
          | inl y ↦ inl y
          | inr y ↦ elim y [ inl z ↦ inr (inl z) | inr z ↦ inr (inr z.0) ]
        ]))

  finish_reply :
      (r : Option (Reply A)) (c : Call A) (t : System A) → is_none r ≡ false → finish r c t ≡ t
  finish_reply none c t e = absurd (cc e)
  finish_reply (some r) c t e = refl

  pub take_read :
      (t : System A) (i : ℕ) (c : Call A) (k : ℕ)
      → get_elem? t.ready i ≡ some c
      → is_write c ≡ false
      → is_hungry c ≡ true
      → Waits v d t
      → Waits v d (take_turn v d t i c k)
  take_read t i c k e w u h = elim (turn-Reads v d t.shared c h.0 w) [
    | inl (a, b, n, z, y) ↦ rw (a, b, n, w) (h.0, (u, h.1), inr (omega (arith, z), y))
    | inr (a, n, g, p, _, less) ↦
        let r = turn v d t.shared c in
        let rest = remove_at i t.ready in
        let count = hungry-remove_at i t.ready c e in
        rw (n, finish_reply r.reply c _ a)
          (
            g,
            h.1,
            elim h.2 [
              | inl x ↦ inl x
              | inr (x, y) ↦
                  inr (ground (arith, hungry-append t.producers rest, count, u, less u, x), p ∙ y)
            ],
          )
  ]
