-- ===== src/SparseArray/Refine.antt =====
-- `sparse_array` of skate/containers/sparse_array.h is a map from indices to elements.
use skate.Prelude.{ℕ, suc, ◌+◌, ◌<◌, ◌≡◌, refl, ap, fun_ext, ◌∙◌, ◌==◌, ltb, arith}
use skate.Prelude.{if◌then◌else◌, List, [], ◌∷◌, Option, none, some}
use skate.SparseArray.Chunk.{key_limit}
use skate.SparseArray.Invariant.{find, IsValid}
use skate.SparseArray.Lookup.{value_or, at-find}
use skate.SparseArray.Store.{ref_lem}
use skate.SparseArray.Unstore.{unstore_lem}
use skate.SparseArray.Erase.{erase_lem}
use skate.SparseArray.Defs.{SparseArray, new, clear, ref, at}
use skate.SparseArray.Defs

-- The calls that change one index, and `clear`: `array[idx] = x` is an assignment through `ref`.
pub data Call (A : Type 0) : Type 0 where
  assign : ℕ → A → Call A
  unstore : ℕ → Call A
  erase : ℕ → Call A
  clear_all : Call A

module _ {A : Type 0} (default fresh : A) where
  unfoldable pub call : SparseArray A → Call A → SparseArray A
  call a (assign idx x) = ref default fresh (λ _. x) a idx
  call a (unstore idx) = Defs.unstore a idx
  call a (erase idx) = Defs.erase default a idx
  call a clear_all = clear a

  abbrev pub calls : SparseArray A → List (Call A) → SparseArray A
  calls a [] = a
  calls a (c ∷ cs) = calls (call a c) cs

module _ {A : Type 0} where
  -- What a call does to a map.
  abbrev pub update : (ℕ → Option A) → Call A → ℕ → Option A
  update m (assign idx x) i = if i == idx then some x else m i
  update m (unstore idx) i = if i == idx then none else m i
  update m (erase idx) i = if ltb i idx then m i else m (suc i)
  update m clear_all i = none

  abbrev pub updates : (ℕ → Option A) → List (Call A) → ℕ → Option A
  updates m [] i = m i
  updates m (c ∷ cs) i = updates (update m c) cs i

  -- The index is below the last two keys.
  abbrev pub IsInRange : Call A → Type 0
  IsInRange (assign idx x) = idx + 1 < key_limit
  IsInRange (unstore idx) = idx + 1 < key_limit
  IsInRange (erase idx) = idx + 1 < key_limit
  IsInRange clear_all = Unit {0}

  abbrev pub AllInRange : List (Call A) → Type 0
  AllInRange [] = Unit {0}
  AllInRange (c ∷ cs) = IsInRange c × AllInRange cs

module _ {A : Type 0} (default fresh : A) where
  call_refines :
      (a : SparseArray A) (c : Call A)
      → IsValid a
      → IsInRange c
      → let b = call default fresh a c in
        IsValid b × ((i : ℕ) → find b.m_data i ≡ update (find a.m_data) c i)
  unfolding call
  call_refines a (assign idx x) h k =
      let (v, _, g) = ref_lem default fresh (λ _. x) idx a h k in (v, g)
  call_refines a (unstore idx) h k = let (v, _, g) = unstore_lem idx a h (omega arith) in (v, g)
  call_refines a (erase idx) h k = erase_lem default a idx h k
  call_refines a clear_all h k =
      unfold Defs.clear in (record { spaced = omega arith; counted = refl }, λ i. refl)

  calls_refines :
      (a : SparseArray A) (cs : List (Call A))
      → IsValid a
      → AllInRange cs
      → let b = calls default fresh a cs in
        IsValid b × ((i : ℕ) → find b.m_data i ≡ updates (find a.m_data) cs i)
  calls_refines a [] h k = (h, λ i. refl)
  calls_refines a (c ∷ cs) h (k, ks) =
      let (v, g) = call_refines a c h k in
      let (w, r) = calls_refines (call default fresh a c) cs v ks in
      (w, λ i. r i ∙ ap (λ m. updates m cs i) (fun_ext g))

  -- After any sequence of assignments `array[idx] = x` and calls of `unstore(idx)`, `erase(idx)` and
  -- `clear()`, with indices below the last two keys, a new array returns for each index what the map
  -- returns that these calls stand for, and a default-constructed element where it has none.
  pub at-calls :
      (cs : List (Call A)) (idx : ℕ)
      → AllInRange cs
      → idx < key_limit
      → at default (calls default fresh new cs) idx ≡ value_or default (updates (λ _. none) cs idx)
  unfolding new
  at-calls cs idx k l =
      let (v, g) = calls_refines new cs (record { spaced = omega arith; counted = refl }) k in
      (at-find default (calls default fresh new cs) idx v l).0 ∙ ap (value_or default) (g idx)
