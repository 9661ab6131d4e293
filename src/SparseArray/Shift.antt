-- ===== src/SparseArray/Shift.antt =====
-- How `erase` of skate/containers/sparse_array.h moves chunks down and compacts them.
use skate.Prelude.{ℕ, suc, ◌+◌, ◌-◌, ◌≤◌, ◌<◌, ◌≡◌, refl, ap, arith, ◌==◌}
use skate.Prelude.{ltb, inl, inr, ◌⊎◌, Bool-cases, max, length-append, get_elem?-append}
use skate.Prelude.{if◌then◌else◌, true, false, List, [], ◌∷◌, none, length}
use skate.SparseArray.Chunk.{Chunk, compact_chunks, sub_key}
use skate.SparseArray.Invariant.{find, total, Spaced, Spaced-bound, Spaced-lower, find_below}
use skate.SparseArray.Invariant.{sub_key_lem, chunk_last_index_lem}
use skate.SparseArray.Lookup.{is_some_inside}
use skate.SparseArray.Defs.{move_down, compact_at}

module _ {A : Type 0} where
  -- A chunk is compacted with the chunks behind it, which may touch it.
  compact_chunks_lem :
      (lo : ℕ) (c : Chunk A) (us : List (Chunk A))
      → Spaced lo (c ∷ [])
      → Spaced (c.start + length c.items) us
      → Spaced lo (compact_chunks c us)
        × (total (compact_chunks c us) ≡ length c.items + total us)
        × ((i : ℕ) → find (compact_chunks c us) i ≡ find (c ∷ us) i)
  unfolding compact_chunks
  compact_chunks_lem lo c [] h k = (h, refl, λ i. refl)
  compact_chunks_lem lo c (u ∷ us) h k =
      let past = (chunk_last_index_lem lo c [] h).0 in
      elim (Bool-cases (c.start + length c.items == u.start)) [
        | inl e ↦
            let n = length-append c.items u.items in
            rw (past, e)
              (
                (h.0, omega (arith, h.1), Spaced-lower _ _ us k.2 (ground (arith, e, n))),
                omega arith,
                λ i. ground (arith, e, n, get_elem?-append c.items u.items (i - c.start)),
              )
        | inr e ↦ rw (past, e) ((h.0, h.1, (ground (arith, e, k.0), k.1, k.2)), refl, λ i. refl)
      ]

module _ {A : Type 0} (first last : ℕ) (order : first < last) where
  abbrev pub moved : List (Chunk A) → List (Chunk A)
  moved cs = move_down (last - 1) (last - first) cs

  moved_lem :
      (lo : ℕ) (cs : List (Chunk A))
      → Spaced lo cs
      → last ≤ lo
      → Spaced (lo - (last - first)) (moved cs)
        × (total (moved cs) ≡ total cs)
        × ((i : ℕ) → find (moved cs) i ≡ find cs (i + (last - first)))
  unfolding move_down
  moved_lem lo [] h k = (omega arith, refl, λ i. refl)
  moved_lem lo (c ∷ cs) h k =
      let next = suc (c.start + length c.items) in
      let (sp, t, g) = moved_lem next cs h.2 (omega (arith, h.0)) in
      let down : sub_key c.start (last - first) ≡ c.start - (last - first) =
        sub_key_lem c.start (last - first) (omega (arith, h.0))
          (omega (arith, Spaced-bound next cs h.2)) in
      let l : ltb (last - 1) c.start ≡ true = ground (arith, h.0) in
      rw (l, down)
        (
          (omega (arith, h.0), h.1, Spaced-lower _ _ _ sp (omega (arith, h.0))),
          omega arith,
          λ i. ground (arith, g i, h.0),
        )

  -- Behind `first` nothing is compacted.
  compact_at_idle :
      (c : Chunk A) (cs : List (Chunk A))
      → first ≤ c.start + length c.items
      → Spaced (suc (c.start + length c.items)) cs
      → compact_at first (c ∷ cs) ≡ c ∷ cs
  unfolding compact_at
  compact_at_idle c [] k h = refl
  compact_at_idle c (u ∷ us) k h =
      let e : (u.start == first) ≡ false = ground (arith, h.0) in
      rw e (ap (λ l. c ∷ l) (compact_at_idle u us (omega (arith, h.0)) h.2))

  -- A chunk that holds nothing between lies on one side.
  side_lem :
      (lo : ℕ) (c : Chunk A) (cs : List (Chunk A))
      → Spaced lo (c ∷ cs)
      → ((i : ℕ) → first ≤ i → i < last → find (c ∷ cs) i ≡ none)
      → (last ≤ c.start) ⊎ (c.start + length c.items ≤ first)
  side_lem lo c cs h n =
      let p = max c.start first in
      ground (arith, n p, is_some_inside c.items (p - c.start), h.1, order)

  abbrev pub Erased : ℕ → List (Chunk A) → List (Chunk A) → Type 0
  Erased lo cs r =
      Spaced lo r
      × (total r ≡ total cs)
      × ((i : ℕ) → find r i ≡ (if ltb i first then find cs i else find cs (i + (last - first))))

  idle_lem : (cs : List (Chunk A)) → Spaced first cs → compact_at first cs ≡ cs
  unfolding compact_at
  idle_lem [] h = refl
  idle_lem (c ∷ cs) h = compact_at_idle c cs (omega (arith, h.0)) h.2

  moved_kept : (c : Chunk A) (cs : List (Chunk A)) → c.start < last → moved (c ∷ cs) ≡ c ∷ moved cs
  unfolding move_down
  moved_kept c cs h = let s : ltb (last - 1) c.start ≡ false = ground (arith, h) in rw s refl

  -- A chunk in front of `first` meets those that have been moved.
  meet_lem :
      (lo : ℕ) (c : Chunk A) (cs : List (Chunk A))
      → Spaced lo (c ∷ [])
      → c.start + length c.items ≤ first
      → Spaced first cs
      → Spaced lo (compact_at first (c ∷ cs))
        × (total (compact_at first (c ∷ cs)) ≡ length c.items + total cs)
        × ((i : ℕ) → find (compact_at first (c ∷ cs)) i ≡ find (c ∷ cs) i)
  unfolding compact_at
  meet_lem lo c [] h k s = (h, refl, λ i. refl)
  meet_lem lo c (u ∷ us) h k s = elim (Bool-cases (u.start == first)) [
    | inl e ↦ rw e (compact_chunks_lem lo c (u ∷ us) h (omega (arith, s.0), s.1, s.2))
    | inr e ↦
        rw (e, compact_at_idle u us (omega (arith, s.0)) s.2)
          ((h.0, h.1, (ground (arith, e, s.0, k), s.1, s.2)), refl, λ i. refl)
  ]

  -- A chunk in front of `first`, with those behind it.
  front_lem :
      (lo : ℕ) (c : Chunk A) (cs : List (Chunk A))
      → Spaced lo (c ∷ cs)
      → c.start + length c.items ≤ first
      → ((i : ℕ) → first ≤ i → i < last → find (c ∷ cs) i ≡ none)
      → Erased lo (c ∷ cs) (compact_at first (c ∷ moved cs))
  unfolding compact_at
  front_lem lo c [] h k n = unfold move_down in (h, refl, λ i. ground (arith, order))
  front_lem lo c (u ∷ us) h k n =
      let next = suc (c.start + length c.items) in
      let quiet : (i : ℕ) → first ≤ i → i < last → find (u ∷ us) i ≡ none =
        λ i x y. ground (arith, n i x y, k) in
      elim (side_lem next u us h.2 quiet) [
        | inl l ↦
            let (sp, t, g) = moved_lem last (u ∷ us) (l, h.2.1, h.2.2) (omega arith) in
            let below = λ (j : ℕ). find_below last (u ∷ us) j (l, h.2.1, h.2.2) in
            let (sp', t', g') =
              meet_lem lo c (moved (u ∷ us))
                (h.0, h.1, omega (arith, Spaced-bound next (u ∷ us) h.2)) k
                (Spaced-lower _ _ _ sp (omega arith)) in
            (
              sp',
              omega arith,
              λ i. ground (arith, g' i, g i, k, below i, below (i + (last - first))),
            )
        | inr l ↦
            let e : (u.start == first) ≡ false = ground (arith, h.2.1, l) in
            let (sp, t, g) = front_lem next u us h.2 l quiet in
            rw (moved_kept u us (omega (arith, h.2.1)), e)
              ((h.0, h.1, sp), omega arith, λ i. ground (arith, g i, k))
      ]

  -- The chunks without the indices between, if they hold nothing there.
  pub erased_lem :
      (cs : List (Chunk A))
      → Spaced 0 cs
      → ((i : ℕ) → first ≤ i → i < last → find cs i ≡ none)
      → Erased 0 cs (compact_at first (moved cs))
  unfolding compact_at
  erased_lem [] h n = unfold move_down in (h, refl, λ i. ground arith)
  erased_lem (c ∷ cs) h n = elim (side_lem 0 c cs h n) [
    | inr l ↦ rw (moved_kept c cs (omega (arith, h.1))) (front_lem 0 c cs h l n)
    | inl l ↦
        let (sp, t, g) = moved_lem last (c ∷ cs) (l, h.1, h.2) (omega arith) in
        let below = λ (j : ℕ). find_below last (c ∷ cs) j (l, h.1, h.2) in
        rw (idle_lem (moved (c ∷ cs)) (Spaced-lower _ _ _ sp (omega arith))) (
          Spaced-lower _ _ _ sp (omega arith),
          t,
          λ i. ground (arith, g i, below i, below (i + (last - first))),
        )
  ]
