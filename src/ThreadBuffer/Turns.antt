-- ===== src/ThreadBuffer/Turns.antt =====
-- What a turn of a thread does to the buffer that it shares with others.
use skate.Prelude.{ℕ, ◌+◌, ◌≤◌, ◌≡◌, ◌⊎◌, inl, inr, ap, refl, arith, ◌==◌}
use skate.Prelude.{ltb, not, ◌&&◌, ◌||◌, if◌then◌else◌, Bool, true, false, List, [], ◌∷◌}
use skate.Prelude.{Option, none, some, length, length-append, Bool-cases}
use skate.IoBuffer.Vector.{StdVector}
use skate.IoBuffer.Defs.{IoBuffer, max_size, free_space, capacity}
use skate.IoBuffer.Contents.{contents, IsValid}
use skate.IoBuffer.Write.{write_lem, write_from_lem, realigned, length-realigned}
use skate.IoBuffer.Refine.{length-queue}
use skate.IoBuffer.Defs
use skate.ThreadBuffer.Defs.{Shared, Call, write_one, write_many, read_one, read_some, read_all}
use skate.ThreadBuffer.Defs.{read_swap, nobody, one_consumer, all_consumers}
use skate.ThreadBuffer.Defs.{Turn, turn, write_one_turn, write_many_turn}
use skate.ThreadBuffer.Defs.{consumers_available, producers_available}
use skate.ThreadBuffer.System.{is_write}

module _ {A : Type 0} where
  abbrev pub is_none : Option A → Bool
  is_none none = true
  is_none (some x) = false

  -- A call that reads and may take an element.
  abbrev pub is_hungry : Call A → Bool
  is_hungry (write_one x w) = false
  is_hungry (write_many xs w) = false
  is_hungry (read_one w) = true
  is_hungry (read_some n w) = ltb 0 n
  is_hungry (read_all w) = true
  is_hungry (read_swap c w) = true

module _ {A : Type 0} (v : StdVector) where
  -- The buffer after a write.
  abbrev pub Grows : IoBuffer A → IoBuffer A → ℕ → Type 0
  Grows b b' n =
      IsValid v b'
      × (b'.buffer_limit ≡ b.buffer_limit)
      × (b'.closed ≡ b.closed)
      × (b'.buffer_size ≡ b.buffer_size + n)

  write-Grows :
      (b : IoBuffer A) (x : A)
      → IsValid v b
      → let (b', ok) = Defs.write v b x in Grows b b' (if ok then 1 else 0)
  write-Grows b x h =
      let b' = (Defs.write v b x).0 in
      let (_, c, w, l, k) = write_lem v b x h in
      (
        w,
        l,
        k,
        ground (
          arith,
          length-queue v b' w,
          length-queue v b h,
          ap length c,
          length-realigned v b h,
          length-append (realigned v b) (x ∷ []),
          length-append (contents b) (x ∷ []),
        ),
      )

  write_from-Grows :
      (b : IoBuffer A) (xs : List A)
      → IsValid v b
      → let (b', ok) = Defs.write_from v b xs in Grows b b' (if ok then length xs else 0)
  write_from-Grows b xs h =
      let b' = (Defs.write_from v b xs).0 in
      let (_, c, w, l, k) = write_from_lem v b xs h in
      (
        w,
        l,
        k,
        ground (
          arith,
          length-queue v b' w,
          length-queue v b h,
          ap length c,
          length-realigned v b h,
          length-append (realigned v b) xs,
          length-append (contents b) xs,
        ),
      )

  -- Whether a call that writes has to wait.
  abbrev pub must_wait : Shared A → Call A → Bool
  must_wait s (write_one x w) =
      (free_space v s.buffer == 0 || s.buffer.closed) && w && consumers_available s
  must_wait s (write_many xs w) =
      not (length xs == 0 || not (ltb (free_space v s.buffer) (length xs) || s.buffer.closed))
      && w
      && consumers_available s
      && not (ltb (max_size v s.buffer) (length xs))
  must_wait s _ = false

  space_shrinks :
      (b b' : IoBuffer A) (n : ℕ)
      → Grows b b' n
      → (free_space v b' ≤ free_space v b) × (max_size v b' ≡ max_size v b)
  unfolding free_space max_size
  space_shrinks b b' n (_, l, _, k) = ground (arith, l, k)

  -- What has to wait has to wait as well when the buffer has grown.
  pub must_wait-Grows :
      (s s' : Shared A) (n : ℕ) (c : Call A)
      → Grows s.buffer s'.buffer n
      → consumers_available s' ≡ consumers_available s
      → must_wait s c ≡ true
      → must_wait s' c ≡ true
  must_wait-Grows s s' n (write_one x w) g e h =
      ground (arith, space_shrinks s.buffer s'.buffer n g, g.2, e, h)
  must_wait-Grows s s' n (write_many xs w) g e h =
      ground (arith, space_shrinks s.buffer s'.buffer n g, g.2, e, h)
  must_wait-Grows s s' n (read_one w) g e h = absurd (cc h)
  must_wait-Grows s s' n (read_some m w) g e h = absurd (cc h)
  must_wait-Grows s s' n (read_all w) g e h = absurd (cc h)
  must_wait-Grows s s' n (read_swap m w) g e h = absurd (cc h)

  -- The turn of a call that writes.
  abbrev pub Wrote : Shared A → Call A → Turn A → Type 0
  Wrote s c t =
      (is_none t.reply ≡ must_wait s c)
      × (consumers_available t.shared ≡ consumers_available s)
      × (producers_available t.shared ≡ producers_available s)
      × ((n : ℕ) × Grows s.buffer t.shared.buffer n
          × (((t.notice ≡ nobody) × (n ≡ 0))
              ⊎ ((t.notice ≡ one_consumer) × (n ≤ 1))
              ⊎ ((t.notice ≡ all_consumers) × (is_none t.reply ≡ false))))

  write_one-Wrote :
      (d : A) (s : Shared A) (x : A) (w : Bool)
      → IsValid v s.buffer
      → Wrote s (write_one x w) (turn v d s (write_one x w))
  unfolding turn write_one_turn consumers_available producers_available
  write_one-Wrote d s x w h =
      let ok = (write_lem v s.buffer x h).0 in
      let g = write-Grows s.buffer x h in
      elim (Bool-cases (Defs.write v s.buffer x).1) [
        | inl e ↦
            rw e
              (ground (arith, ok, e), refl, refl, (1, (rw e at g), inr (inl (refl, omega arith))))
        | inr e ↦ elim (Bool-cases w) [
          | inr y ↦
              rw (e, y)
                (ground (arith), refl, refl, (0, (rw e at g), inr (inl (refl, omega arith))))
          | inl y ↦ elim (Bool-cases (not (s.consumer_count == 0) || not s.consumer_registered)) [
            | inr z ↦ rw (e, y, z) (ground (arith), z, refl, (0, (rw e at g), inl (refl, refl)))
            | inl z ↦
                rw (e, y, z) (ground (arith, ok, e), z, refl, (0, (rw e at g), inl (refl, refl)))
          ]
        ]
      ]

  write_many-Wrote :
      (d : A) (s : Shared A) (xs : List A) (w : Bool)
      → IsValid v s.buffer
      → Wrote s (write_many xs w) (turn v d s (write_many xs w))
  unfolding turn write_many_turn consumers_available producers_available
  write_many-Wrote d s xs w h =
      let ok = (write_from_lem v s.buffer xs h).0 in
      let g = write_from-Grows s.buffer xs h in
      elim (Bool-cases (Defs.write_from v s.buffer xs).1) [
        | inl e ↦
            rw e
              (ground (arith, ok, e), refl, refl, (length xs, (rw e at g), inr (inr (refl, refl))))
        | inr e ↦ elim (Bool-cases w) [
          | inr y ↦ rw (e, y) (ground (arith), refl, refl, (0, (rw e at g), inr (inr (refl, refl))))
          | inl y ↦
              let m = (space_shrinks s.buffer _ 0 (rw e at g)).1 in
              elim (Bool-cases (
                not (not (s.consumer_count == 0) || not s.consumer_registered)
                || ltb (max_size v s.buffer) (length xs))) [
                  | inl z ↦
                      rw (e, y, m, z)
                        (ground (arith, z), refl, refl, (0, (rw e at g), inl (refl, refl)))
                  | inr z ↦
                      rw (e, y, m, z)
                        (ground (arith, ok, e, z), refl, refl, (0, (rw e at g), inl (refl, refl)))
                ]
        ]
      ]

  pub turn-Wrote :
      (d : A) (s : Shared A) (c : Call A)
      → IsValid v s.buffer
      → is_write c ≡ true
      → Wrote s c (turn v d s c)
  turn-Wrote d s (write_one x w) h k = write_one-Wrote d s x w h
  turn-Wrote d s (write_many xs w) h k = write_many-Wrote d s xs w h
  turn-Wrote d s (read_one w) h k = absurd (cc k)
  turn-Wrote d s (read_some i w) h k = absurd (cc k)
  turn-Wrote d s (read_all w) h k = absurd (cc k)
  turn-Wrote d s (read_swap i w) h k = absurd (cc k)
