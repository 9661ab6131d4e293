-- ===== src/SparseArray/Range.antt =====
-- `unstore(first, last)` of skate/containers/sparse_array.h.
use skate.Prelude.{ℕ, zero, suc, ◌+◌, ◌-◌, ◌≤◌, ◌<◌, ◌≡◌, refl, sym, arith, ◌&&◌}
use skate.Prelude.{ltb, not, inl, inr, Bool-cases, Option-cases, min, max, subst}
use skate.Prelude.{true, false, Option, none, some, length}
use skate.SparseArray.Chunk.{Chunk, key_limit, lower_chunk}
use skate.SparseArray.Invariant.{find, IsValid}
use skate.SparseArray.Lookup.{is_some}
use skate.SparseArray.Local.{find-lower_none, lower_chunk-Lower}
use skate.SparseArray.Turn.{Low, Cleared, resize_below_lem, remove_chunk_lem}
use skate.SparseArray.Push.{span_lem}
use skate.SparseArray.Unstore.{unstore_lem, length-unstore}
use skate.SparseArray.Defs.{
  SparseArray, runs, unstore, unstore_loop, unstore_turn, resize_below, remove_chunk, unstore_range,
  span_end, span_begin,
}

module _ {A : Type 0} (d : A) (first e : ℕ) where
  module _ (again : ℕ → SparseArray A → SparseArray A) (last : ℕ) (a : SparseArray A) where
    turn_stop :
        (o : Option (Chunk A)) → ltb first last ≡ false → unstore_turn d again first last o a ≡ a
    turn_stop none l = refl
    turn_stop (some c) l = rw l refl

    turn_resize :
        (c : Chunk A)
        → ltb first last ≡ true
        → ltb c.start first ≡ true
        → unstore_turn d again first last (some c) a ≡ resize_below d first last c a
    turn_resize c l m = rw (l, m) refl

    turn_remove :
        (c : Chunk A)
        → ltb first last ≡ true
        → ltb c.start first ≡ false
        → unstore_turn d again first last (some c) a ≡ again c.start (remove_chunk d last c a)
    turn_remove c l m = rw (l, m) refl

  unstore_loop_lem :
      (fuel last : ℕ) (a : SparseArray A)
      → IsValid a
      → last < key_limit
      → find a.m_data last ≡ none
      → Low d first e a.m_data
      → length a.m_data < fuel
      → Cleared d first e last
          (not (is_some (find a.m_data first)) && ltb first last)
          a.m_data
          (unstore_loop d fuel first last a)
  unfolding unstore_loop
  unstore_loop_lem zero last a h k n low f = absurd (omega arith)
  unstore_loop_lem (suc fuel) last a h k n low f =
      let again : ℕ → SparseArray A → SparseArray A = λ l b. unstore_loop d fuel first l b in
      let R : SparseArray A → Type 0 =
        Cleared d first e last (not (is_some (find a.m_data first)) && ltb first last) a.m_data in
      elim (Bool-cases (ltb first last)) [
        | inr l ↦
            subst R (sym (turn_stop again last a (lower_chunk last a.m_data) l))
              (h, λ i. ground (arith, l))
        | inl l ↦ elim (Option-cases (lower_chunk last a.m_data)) [
          | inl o ↦
              let none_to_last : (i : ℕ) → i ≤ last → find a.m_data i ≡ none =
                λ i l'. find-lower_none last a.m_data i o h.spaced k l' in
              rw o (h, λ i. ground (arith, l, none_to_last i, low.2, none_to_last (e - 1)))
          | inr (c, o) ↦ elim (Bool-cases (ltb c.start first)) [
            | inl m ↦ rw o (
                subst R (sym (turn_resize again last a c l m))
                  (resize_below_lem d first e last a h k n low c o l m))
            | inr m ↦ rw o (
                subst R (sym (turn_remove again last a c l m)) (
                  remove_chunk_lem d first e last a h k n low c o l m _ (λ v n' low' len.
                    unstore_loop_lem fuel c.start _ v
                      (omega (arith, (lower_chunk-Lower last c a.m_data h.spaced k o).1)) n' low'
                      (omega arith))))
          ]
        ]
      ]

module _ {A : Type 0} (d : A) (first e last : ℕ) (a : SparseArray A) (h : IsValid a) where
  -- The first call of `unstore` leaves what the loop needs.
  rest_lem :
      (from e' to : ℕ)
      → from ≤ to
      → to < key_limit
      → Low d from e' a.m_data
      → Cleared d from e'
          (suc to)
          (not (is_some (find a.m_data from)) && ltb from to)
          a.m_data
          (unstore_loop d (suc (length a.m_data) + 1) from to (unstore a to))
  rest_lem from e' to l k low =
      let (v, _, g) = unstore_lem to a h k in
      let b = unstore a to in
      let low' : Low d from e' b.m_data = (
        low.0,
        (λ i x y. ground (arith, g i, low.1 i x y)),
        elim low.2 [
          | inl (x, y) ↦ inl (x, λ i z. ground (arith, g i, y i z))
          | inr (x, y) ↦ inr (x, ground (arith, g (e' - 1), x, y, l, low.0))
        ],
      ) in
      let (w, r) =
        unstore_loop_lem d from e' (suc (length a.m_data) + 1) to b v k (ground (arith, g to)) low'
          (omega (arith, length-unstore to a)) in
      (w, λ i. ground (arith, r i, g i, g from, l))

  -- `unstore(first, last)` on a valid array leaves it valid and without elements from `first` to
  -- `last`, and keeps the others. But where `first` itself is free and at least two indices are left
  -- of the range in front of the end, the gap below `first`, back to the next element, is filled
  -- with default-constructed elements. `e` is the index behind that element, or `first` if there
  -- is none.
  pub unstore_range_lem :
      Low d first e a.m_data
      → Cleared d first e last
          (not (is_some (find a.m_data first)) && ltb (suc first) (min last (span_end a)))
          a.m_data
          (unstore_range d a first last)
  unfolding unstore_range runs
  unstore_range_lem low =
      let (below, above, k, _) = span_lem a h in
      let from = max first (span_begin a) in
      let to = min last (span_end a) in
      elim (Bool-cases (ltb from to)) [
        | inr l ↦ rw l (h, λ i. ground (arith, below i, above i, below (e - 1), low.2, low.0, l))
        | inl l ↦ elim (Bool-cases (ltb first (span_begin a))) [
          | inl m ↦
              let e' : e ≡ first = ground (arith, m, low.2, below (e - 1), low.0) in
              let (w, r) = rest_lem from from (to - 1) (ground (arith, l)) (omega arith) (
                omega arith,
                (λ i x y. absurd (omega arith)),
                inl (refl, λ i x. below i (ground (arith, m, x))),
              ) in
              rw l (w, λ i. ground (arith, r i, below i, above i, l, m, e'))
          | inr m ↦
              let q : from ≡ first = ground (arith, m) in
              let (w, r) = rest_lem first e (to - 1) (ground (arith, l, m)) (omega arith) low in
              rw (l, q) (w, λ i. ground (arith, r i, above i, l, m, low.0))
        ]
      ]
