-- ===== src/Json/Returns.antt =====
-- `read_json` of skate/io/adapters/json.h returns on every input.
use skate.Prelude.{ℕ, zero, suc, ◌≤◌, ◌<◌, ◌≡◌, refl, arith, ◌==◌}
use skate.Prelude.{Bool-cases, inl, inr, Option, some, List, [], ◌∷◌, length}
use skate.Results.{ResultType, success, failure, InputResult, ParsingResult}
use skate.Utf.Encode.{CharSize, utf_encode}
use skate.Json.ReadString.{skip_whitespace, starts_with_char, Round, finished, char, read_round}
use skate.Json.ReadString.{read_loop, read_quoted, read_json_string}
use skate.Json.Advance.{Advances, read_round-Advances, skip_whitespace_le}

-- A step on `n` characters returns, and leaves no more than those.
abbrev pub Ends : {O : Type 0} → ℕ → Option (ParsingResult (List ℕ) O) → Type 0
Ends {O} n x = (r : ParsingResult (List ℕ) O) × (x ≡ some r) × (length r.input ≤ n)

-- And it reads some of them, if it succeeds.
abbrev pub Reads : {O : Type 0} → ℕ → Option (ParsingResult (List ℕ) O) → Type 0
Reads {O} n x =
    (r : ParsingResult (List ℕ) O) × (x ≡ some r)
    × (length r.input ≤ n)
    × (r.result ≡ success → length r.input < n)

-- The same of a step that always returns.
abbrev pub Takes : ℕ → InputResult (List ℕ) → Type 0
Takes n r = (length r.input ≤ n) × (r.result ≡ success → length r.input < n)

module _ {O : Type 0} where
  pub Ends-Reads : (n m : ℕ) (x : Option (ParsingResult (List ℕ) O)) → n < m → Ends n x → Reads m x
  Ends-Reads n m x h (r, e, l) = (r, e, omega arith, λ s. omega arith)

  pub Ends-le : (n m : ℕ) (x : Option (ParsingResult (List ℕ) O)) → n ≤ m → Ends n x → Ends m x
  Ends-le n m x h (r, e, l) = (r, e, omega arith)

  pub Reads-Ends : (n : ℕ) (x : Option (ParsingResult (List ℕ) O)) → Reads n x → Ends n x
  Reads-Ends n x (r, e, l, s) = (r, e, l)

pub starts_with_char-Takes :
    (first : List ℕ) (c : ℕ) → Takes (length first) (starts_with_char first c)
unfolding starts_with_char
starts_with_char-Takes [] c = (omega arith, λ s. cc s)
starts_with_char-Takes (x ∷ first) c = elim (Bool-cases (x == c)) [
  | inl e ↦ rw e (omega arith, λ s. omega arith)
  | inr e ↦ rw e (omega arith, λ s. cc s)
]

module _ (beyond : ℕ → ℕ) (d : CharSize) where
  abbrev Looped : ℕ → Type 0
  Looped fuel =
      (src s : List ℕ) (r : ResultType)
      → length src ≤ fuel
      → Ends (length src) (read_loop beyond d fuel src s r)

  abbrev loop_at : ℕ → List ℕ → Round → Option (ParsingResult (List ℕ) (List ℕ))
  loop_at fuel s round = elim round [
    | finished first r ↦ some (record { input = first; output = s; result = r })
    | char first u ↦
        read_loop beyond d fuel first (utf_encode d u s).output (utf_encode d u s).result
  ]

  loop_round :
      (fuel : ℕ) (src s : List ℕ) (round : Round)
      → Advances src round
      → length src ≤ fuel
      → Looped fuel
      → Ends (suc (length src)) (loop_at fuel s round)
  loop_round fuel src s (finished first r) a h g = (_, refl, a)
  loop_round fuel src s (char first u) a h g =
      Ends-le (length first) (suc (length src)) _ (omega arith)
        (g first (utf_encode d u s).output (utf_encode d u s).result (omega arith))

  loop_Ends : (fuel : ℕ) → Looped fuel
  unfolding read_loop
  loop_Ends fuel [] s r h = (_, refl, omega arith)
  loop_Ends fuel (x ∷ xs) s failure h = (_, refl, omega arith)
  loop_Ends zero (x ∷ xs) s success h = absurd (omega arith)
  loop_Ends (suc fuel) (x ∷ xs) s success h =
      loop_round fuel xs s (read_round beyond (x ∷ xs)) (read_round-Advances beyond x xs)
        (omega arith) (loop_Ends fuel)

  quoted_Reads :
      (n : ℕ) (first s : List ℕ) (r : ResultType)
      → Takes n (record { input = first; result = r })
      → Reads n (read_quoted beyond d (record { input = first; result = r }) s)
  unfolding read_quoted
  quoted_Reads n first s failure (a, b) = (_, refl, a, λ e. cc e)
  quoted_Reads n first s success (a, b) =
      Ends-Reads (length first) n _ (b refl)
        (loop_Ends (length first) first [] success (omega arith))

  -- `read_json` of a string returns on any input: it leaves no more than the input, and less if it
  -- succeeds.
  pub read_json_string-Reads :
      (first s : List ℕ) → Reads (length first) (read_json_string beyond d first s)
  unfolding read_json_string
  read_json_string-Reads first s =
      let r = starts_with_char (skip_whitespace first) 0x22 in
      let (a, b) = starts_with_char-Takes (skip_whitespace first) 0x22 in
      let l = skip_whitespace_le first in
      quoted_Reads (length first) r.input s r.result (omega arith, λ e. omega (arith, b e))
