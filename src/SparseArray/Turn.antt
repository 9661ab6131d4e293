-- ===== src/SparseArray/Turn.antt =====
-- A turn of the loop of `unstore(first, last)` of skate/containers/sparse_array.h.
use skate.Prelude.{ℕ, suc, ◌+◌, ◌-◌, ◌≤◌, ◌<◌, ◌≡◌, arith, ◌&&◌}
use skate.Prelude.{leb, ltb, not, inl, inr, ◌⊎◌, Bool-cases}
use skate.Prelude.{if◌then◌else◌, Bool, true, false, List, [], ◌∷◌, none, some, length}
use skate.SparseArray.Chunk.{Chunk, key_limit, lower_chunk, sub_key}
use skate.SparseArray.Invariant.{find, total-lt, IsValid}
use skate.SparseArray.Invariant.{chunk_last_index_lem, sub_key_lem}
use skate.SparseArray.Lookup.{is_some, is_some_inside}
use skate.SparseArray.Local.{lower_chunk-Local, lower_chunk-Lower}
use skate.SparseArray.Defs.{SparseArray, resize, resize_below, remove_chunk}
use skate.SparseArray.Resize.{resized, resized_lem, removed_lem}

module _ {A : Type 0} (d : A) (first e : ℕ) where
  -- Below `first`, elements are stored as far as `e`, which is `first` where there are none.
  abbrev pub Low : List (Chunk A) → Type 0
  Low cs =
      (e ≤ first)
      × ((i : ℕ) → e ≤ i → i < first → find cs i ≡ none)
      × (((e ≡ first) × ((i : ℕ) → i < first → find cs i ≡ none))
          ⊎ ((0 < e) × (is_some (find cs (e - 1)) ≡ true)))

  -- The map without the elements from `first` to `last`, with the gap below `first` filled or not.
  abbrev pub Cleared : ℕ → Bool → List (Chunk A) → SparseArray A → Type 0
  Cleared last filled cs b =
      IsValid b
      × ((i : ℕ)
          → find b.m_data i ≡ (
              if leb first i && ltb i last
              then none
              else if leb e i && ltb i first && filled
              then some d
              else find cs i))

  module _ (last : ℕ) (a : SparseArray A) (h : IsValid a) (k : last < key_limit)
      (n : find a.m_data last ≡ none) (low : Low a.m_data) where
    abbrev pub fills : Bool
    fills = not (is_some (find a.m_data first)) && ltb first last

    module _ (c : Chunk A) (found : lower_chunk last a.m_data ≡ some c) where
      -- The chunk ends at `last` or before it.
      fits_lem : c.start + length c.items ≤ last
      fits_lem =
          let (_, s, v, g) = lower_chunk-Lower last c a.m_data h.spaced k found in
          ground (arith, n, g last s, is_some_inside c.items (last - c.start))

      start_stored : is_some (find a.m_data c.start) ≡ true
      start_stored =
          let (_, s, v, g) = lower_chunk-Lower last c a.m_data h.spaced k found in
          ground (arith, s, g c.start, is_some_inside c.items 0, v.1)

      start_below : ltb c.start first ≡ true → c.start < e
      start_below m = ground (arith, m, low.1 c.start, start_stored)

      end_beyond : ltb first last ≡ true → ltb c.start first ≡ true → e ≤ c.start + length c.items
      end_beyond l m =
          let (_, s, v, g) = lower_chunk-Lower last c a.m_data h.spaced k found in
          elim low.2 [
            | inl (q, none_below) ↦ absurd (ground (arith, m, none_below c.start, start_stored))
            | inr (p, q) ↦ ground (arith, start_below m, low.0, l, g (e - 1), q)
          ]

      -- The gap below `first` begins at the end of the chunk, or there is none.
      gap_lem :
          ltb first last ≡ true
          → ltb c.start first ≡ true
          → ((fills ≡ true) × (e < first) × (e ≡ c.start + length c.items))
            ⊎ ((e ≡ first) × (c.start < first) × (first ≤ c.start + length c.items))
      gap_lem l m =
          let (_, s, v, g) = lower_chunk-Lower last c a.m_data h.spaced k found in
          let b = end_beyond l m in
          elim (Bool-cases (ltb e first)) [
            | inl y ↦
                let z : e ≡ c.start + length c.items = ground (
                  arith,
                  y,
                  b,
                  start_below m,
                  l,
                  g e,
                  low.1 e,
                  is_some_inside c.items (e - c.start),
                ) in
                inl (ground (arith, l, m, g first, z, y), ground (arith, y), z)
            | inr y ↦ inr (ground (arith, y, low.0), ground (arith, m), ground (arith, y, low.0, b))
          ]

      pub resize_below_lem :
          ltb first last ≡ true
          → ltb c.start first ≡ true
          → Cleared last fills a.m_data (resize_below d first last c a)
      resize_below_lem l m =
          let (_, s, v, g) = lower_chunk-Lower last c a.m_data h.spaced k found in
          let keep = sub_key_lem first c.start (ground (arith, m)) (ground (arith, l)) in
          let past = (chunk_last_index_lem 0 c [] v).0 in
          let full = total-lt 0 a.m_data h.spaced in
          let (sp, t, len, r) =
            lower_chunk-Local last c
              (λ x us. record x { items = resize d x.items (sub_key first x.start) } ∷ us)
              (resized last c d (first - c.start)) (first - c.start) (length c.items) 0
              (λ lo us h' b _. rw keep (
                resized_lem last c d (first - c.start) lo us (ground (arith, m))
                  (ground (arith, l, m)) h' b (omega (arith, fits_lem))))
              a.m_data h.spaced k found in
          let now = total-lt 0 _ sp in
          (
            record { spaced = sp; counted = rw past (ground (arith, h.counted, l, m)) },
            λ i. elim (gap_lem l m) [
              | inl (x, y, z) ↦ rw (x) (ground (arith, r i, l, m, n, fits_lem, g i, y, z))
              | inr (x, y, z) ↦ rw x (ground (arith, r i, l, m, n, fits_lem, g i, y, z))
            ],
          )

      pub remove_chunk_lem :
          ltb first last ≡ true
          → ltb c.start first ≡ false
          → (b : SparseArray A)
          → (IsValid (remove_chunk d last c a)
              → find (remove_chunk d last c a).m_data c.start ≡ none
              → Low (remove_chunk d last c a).m_data
              → suc (length (remove_chunk d last c a).m_data) ≡ length a.m_data
              → Cleared c.start
                  (not (is_some (find (remove_chunk d last c a).m_data first)) && ltb first c.start)
                  (remove_chunk d last c a).m_data
                  b)
          → Cleared last fills a.m_data b
      remove_chunk_lem l m b again =
          let (_, s, v, g) = lower_chunk-Lower last c a.m_data h.spaced k found in
          let (sp, t, len, r) =
            lower_chunk-Local last c (λ _ us. us) (λ _. none) 0 (length c.items) 1
              (λ lo us h' b _. removed_lem last c lo us h' b (omega (arith, fits_lem))) a.m_data
              h.spaced k found in
          let full = total-lt 0 a.m_data h.spaced in
          let v' : IsValid (remove_chunk d last c a) = record {
            spaced = sp;
            counted = omega (arith, h.counted);
          } in
          let (w, q) =
            again v' (ground (arith, r c.start, s))
              (
                low.0,
                (λ i x y. ground (arith, r i, low.1 i x y)),
                elim low.2 [
                  | inl (x, y) ↦ inl (x, λ i z. ground (arith, r i, y i z))
                  | inr (x, y) ↦ inr (x, ground (arith, r (e - 1), y, m, low.0))
                ],
              )
              (omega arith) in
          (
            w,
            λ i. ground (
              arith,
              q i,
              r i,
              r first,
              l,
              m,
              n,
              fits_lem,
              g i,
              g first,
              is_some_inside c.items (first - c.start),
              v.1,
            ),
          )
