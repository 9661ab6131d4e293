-- ===== src/SparseArray/Tests.antt =====
-- Examples for the sparse array.
use skate.Prelude.{ℕ, suc, ◌+◌, ◌≡◌, refl, arith, ◌==◌, ltb, leb, ◌&&◌, inr}
use skate.Prelude.{if◌then◌else◌, true, List, [], ◌∷◌, none, some}
use skate.SparseArray.Chunk.{chunk_last_index}
use skate.SparseArray.Invariant.{find, IsValid}
use skate.SparseArray.Refine.{Call, assign, erase, calls, at-calls}
use skate.SparseArray.Refine
use skate.SparseArray.Store.{ref_lem}
use skate.SparseArray.Unstore.{unstore_lem}
use skate.SparseArray.Push.{push_back_lem}
use skate.SparseArray.Turn.{Low}
use skate.SparseArray.Range.{unstore_range_lem}
use skate.SparseArray.Erase.{erase_range_lem, pop_back-push_back}
use skate.SparseArray.Defs.{SparseArray, new, ref, unstore, unstore_range, erase_range, at}
use skate.SparseArray.Defs.{push_back, pop_back, span_end, last_end}

-- The elements 7 and 8 from index 2 on, and 9 at index 6.
abbrev sample : SparseArray ℕ
sample = record {
  m_data = record { start = 2; items = 7 ∷ 8 ∷ [] } ∷ record { start = 6; items = 9 ∷ [] } ∷ [];
  m_stored = 3;
}

sample-IsValid : IsValid sample
sample-IsValid = record { spaced = omega arith; counted = refl }

-- The gap below index 5 begins at 4.
sample-Low : Low 0 5 4 sample.m_data
sample-Low = (omega arith, (λ i x y. ground arith), inr (omega arith, refl))

abbrev some_calls : List (Call ℕ)
some_calls = assign 5 3 ∷ assign 6 4 ∷ erase 2 ∷ Refine.unstore 9 ∷ []

at-calls_example : at 0 (calls 0 1 new some_calls) 5 ≡ 4
at-calls_example =
    at-calls 0 1 some_calls 5 (omega arith, (omega arith, (omega arith, (omega arith, tt))))
      (omega arith)

ref_lem_example :
    let b = ref 0 1 (λ _. 5) sample 4 in
    IsValid b
    × (b.m_stored ≡ 4)
    × ((i : ℕ) → find b.m_data i ≡ (if i == 4 then some 5 else find sample.m_data i))
ref_lem_example = ref_lem 0 1 (λ _. 5) 4 sample sample-IsValid (omega arith)

unstore_lem_example :
    let b = unstore sample 2 in
    IsValid b
    × (b.m_stored ≡ 2)
    × ((i : ℕ) → find b.m_data i ≡ (if i == 2 then none else find sample.m_data i))
unstore_lem_example = unstore_lem 2 sample sample-IsValid (omega arith)

span_end-sample : span_end sample ≡ 7
unfolding span_end last_end chunk_last_index
span_end-sample = refl

push_back_lem_example :
    let b = push_back 0 1 sample 5 in
    IsValid b
    × (b.m_stored ≡ 4)
    × (span_end b ≡ suc (span_end sample))
    × ((i : ℕ) → find b.m_data i ≡ (if i == span_end sample then some 5 else find sample.m_data i))
push_back_lem_example = push_back_lem 0 1 sample 5 sample-IsValid (omega (arith, span_end-sample))

unstore_range_lem_example :
    let b = unstore_range 0 sample 5 7 in
    IsValid b
    × ((i : ℕ)
        → find b.m_data i ≡ (
            if leb 5 i && ltb i 7
            then none
            else if leb 4 i && ltb i 5 && true
            then some 0
            else find sample.m_data i))
unfolding span_end last_end chunk_last_index
unstore_range_lem_example = unstore_range_lem 0 5 4 7 sample sample-IsValid sample-Low

erase_range_lem_example :
    let b = erase_range 0 sample 5 7 in
    IsValid b
    × ((i : ℕ)
        → find b.m_data i ≡ (
            if ltb i 5
            then (if leb 4 i && true then some 0 else find sample.m_data i)
            else find sample.m_data (i + 2)))
unfolding span_end last_end chunk_last_index
erase_range_lem_example = erase_range_lem 0 sample 5 4 7 sample-IsValid sample-Low (omega arith)

pop_back-push_back_example : find (pop_back 0 (push_back 0 1 sample 5)).m_data 6 ≡ some 9
pop_back-push_back_example =
    pop_back-push_back 0 1 sample 5 6 sample-IsValid (omega (arith, span_end-sample))
