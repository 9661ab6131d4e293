-- ===== src/SparseArray/Erase.antt =====
-- `erase` and `pop_back` of skate/containers/sparse_array.h.
use skate.Prelude.{ℕ, zero, suc, ◌+◌, ◌-◌, ◌≤◌, ◌<◌, ◌≡◌, refl, sym, ◌∙◌, arith, ◌==◌, ◌&&◌}
use skate.Prelude.{leb, ltb, not, inl, inr, Bool-cases, Option-cases, min}
use skate.Prelude.{if◌then◌else◌, true, false, List, none, some}
use skate.SparseArray.Chunk.{Chunk, key_limit, sub_key, add_key}
use skate.SparseArray.Invariant.{find, IsValid}
use skate.SparseArray.Lookup.{is_some}
use skate.SparseArray.Turn.{Low}
use skate.SparseArray.Range.{unstore_range_lem}
use skate.SparseArray.Shift.{erased_lem}
use skate.SparseArray.Push.{span_lem, push_back_lem}
use skate.SparseArray.Defs.{SparseArray, erase_range, erase, pop_back, push_back, span_end}

module _ {A : Type 0} (d : A) where
  -- There is always an index behind the last element below `first`, or none is below it.
  Low-exists : (first : ℕ) (cs : List (Chunk A)) → (e : ℕ) × Low d first e cs
  Low-exists first cs = go first (omega arith) (λ i l m. absurd (omega arith))
    where
      go :
          (k : ℕ)
          → k ≤ first
          → ((i : ℕ) → k ≤ i → i < first → find cs i ≡ none)
          → (e : ℕ) × Low d first e cs
      go zero l n = (
        first,
        (omega arith, (λ i x y. absurd (omega arith)), inl (refl, λ i x. n i (omega arith) x)),
      )
      go (suc k) l n = elim (Bool-cases (is_some (find cs k))) [
        | inl s ↦ (suc k, (l, n, inr (omega arith, ground (arith, s))))
        | inr s ↦ go k (omega arith) (λ i x y. elim (Bool-cases (i == k)) [
          | inl q ↦ ground (arith, q, s, Option-cases (find cs k))
          | inr q ↦ n i (ground (arith, q)) y
        ])
      ]

  -- `erase(first, last)` of a range that is not empty keeps a valid array valid, keeps what is
  -- below `first` and moves what is from `last` on down by the length of the range. But the gap below
  -- `first` is filled with default-constructed elements where `unstore(first, last)` does so.
  pub erase_range_lem :
      (a : SparseArray A) (first e last : ℕ)
      → IsValid a
      → Low d first e a.m_data
      → first < last
      → let b = erase_range d a first last in
        IsValid b
        × ((i : ℕ)
            → find b.m_data i ≡ (
                if ltb i first
                then (if leb e i
                      && (not (is_some (find a.m_data first))
                          && ltb (suc first) (min last (span_end a)))
                    then some d
                    else find a.m_data i)
                else find a.m_data (i + (last - first))))
  unfolding erase_range
  erase_range_lem a first e last h low o =
      let (v, g) = unstore_range_lem d first e last a h low in
      let l : ltb first last ≡ true = ground (arith, o) in
      let (sp, t, r) = erased_lem first last o _ v.spaced (λ i x y. ground (arith, g i, x, y)) in
      rw l (
        record { spaced = sp; counted = v.counted ∙ sym t },
        λ i. ground (arith, r i, g i, g (i + (last - first)), o, low.0),
      )

  -- `erase` of an index below the last two keys keeps a valid array valid, keeps what is below
  -- the index, and moves what is above it down by one.
  pub erase_lem :
      (a : SparseArray A) (idx : ℕ)
      → IsValid a
      → idx + 1 < key_limit
      → let b = erase d a idx in
        IsValid b
        × ((i : ℕ)
            → find b.m_data i ≡ (if ltb i idx then find a.m_data i else find a.m_data (suc i)))
  unfolding erase
  erase_lem a idx h k =
      let (e, low) = Low-exists idx a.m_data in
      let next : add_key idx 1 ≡ suc idx = omega arith in
      let (v, g) = erase_range_lem a idx e (suc idx) h low (omega arith) in
      rw next (v, λ i. let q : i + (suc idx - idx) ≡ suc i = omega arith in ground (arith, g i, q))

  erase_range_nothing :
      (a : SparseArray A) (first last : ℕ) → ltb first last ≡ false → erase_range d a first last ≡ a
  unfolding erase_range
  erase_range_nothing a first last l = rw l refl

  -- `pop_back` keeps a valid array valid and removes its last element, if there is one.
  pub pop_back_lem :
      (a : SparseArray A)
      → IsValid a
      → let b = pop_back d a in
        IsValid b
        × ((i : ℕ) → find b.m_data i ≡ (if suc i == span_end a then none else find a.m_data i))
  unfolding pop_back erase
  pop_back_lem a h =
      let (_, above, k, _) = span_lem a h in
      elim (Bool-cases (ltb 0 (span_end a))) [
        | inl l ↦
            let before : sub_key (span_end a) 1 ≡ span_end a - 1 = ground (arith, l, k) in
            let (v, g) = erase_lem a (span_end a - 1) h (omega (arith, k)) in
            rw before (v, λ i. ground (arith, g i, above i, above (suc i), l))
        | inr l ↦
            let none_left =
              erase_range_nothing a (sub_key (span_end a) 1) (add_key (sub_key (span_end a) 1) 1)
                (ground (arith, l)) in
            rw none_left (h, λ i. ground (arith, l, above i))
      ]

  -- `pop_back` undoes `push_back`, as far as the elements can tell.
  pub pop_back-push_back :
      (fresh : A) (a : SparseArray A) (x : A) (i : ℕ)
      → IsValid a
      → span_end a + 1 < key_limit
      → find (pop_back d (push_back d fresh a x)).m_data i ≡ find a.m_data i
  pop_back-push_back fresh a x i h k =
      let (v, _, e, g) = push_back_lem d fresh a x h k in
      let (_, g') = pop_back_lem (push_back d fresh a x) v in
      ground (arith, g' i, g i, e, (span_lem a h).1 i)
