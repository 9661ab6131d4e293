-- ===== src/Json/ReturnsScalar.antt =====
-- `read_json` of words and numbers of skate/io/adapters/json.h, and the steps of the readers of arrays
-- and objects: what they leave of the input.
use skate.Prelude.{ℕ, suc, ◌≤◌, ◌<◌, ◌≡◌, refl, ap, arith, ◌==◌, if◌then◌else◌}
use skate.Prelude.{
  Bool-cases, inl, inr, Bool, true, false, Option, some, List, [], ◌∷◌, ◌++◌, length, codes,
}
use skate.Results.{ResultType, success, failure, ParsingResult}
use skate.Utf.Encode.{CharSize}
use skate.Number.Decode.{ℤ, int_decode}
use skate.Number.Decode
use skate.Number.Floating.{FloatLibrary}
use skate.Json.Value.{Value, int64}
use skate.Json.Value.{ReadOptions, nesting_limit_reached}
use skate.Json.ReadString.{skip_whitespace, starts_with}
use skate.Json.ReadScalar.{
  read_null, bool_result, read_word, read_bool, copy_number, has_fraction, if_whole,
}
use skate.Json.ReadScalar.{
  read_floating, integer_result, decode_number, read_number, as_uint64, int64_ref, uint64_ref,
}
use skate.Json.ReadScalar.{open_bracket, Next, stop, item, next_item}
use skate.Json.ReadValue.{then_read, as_string}
use skate.Json.Advance.{skip_whitespace_le, starts_with_le}
use skate.Json.Returns.{Ends, Reads, Takes, starts_with_char-Takes}

starts_with-Takes :
    (x c : ℕ) (first s : List ℕ) → Takes (suc (length first)) (starts_with (x ∷ first) (c ∷ s))
unfolding starts_with
starts_with-Takes x c first s =
    let l = starts_with_le first s in
    elim (Bool-cases (x == c)) [
      | inl e ↦ rw e (omega arith, λ r. omega arith)
      | inr e ↦ rw e (omega arith, λ r. cc r)
    ]

copy_number_le : (first temp : List ℕ) → length (copy_number temp first).1 ≤ length first
unfolding copy_number
copy_number_le [] temp = omega arith
copy_number_le (c ∷ first) temp = ground (arith, copy_number_le first (temp ++ (c ∷ [])))

-- `starts_with` of a word, behind white space.
word_Takes : (l s : List ℕ) (c n : ℕ) → length l ≤ n → 0 < n → Takes n (starts_with l (c ∷ s))
unfolding starts_with
word_Takes [] s c n h z = (omega arith, λ e. omega arith)
word_Takes (x ∷ l) s c n h z =
    let (a, b) = starts_with-Takes x c l s in (omega arith, λ e. omega (arith, b e))

module _ {S D : Type 0} where
  pub null_Reads :
      (n : ℕ) (s : List ℕ) → length s ≤ n → 0 < n → Reads n (some (read_null {S = S} {D = D} s))
  unfolding read_null
  null_Reads n s h z =
      let l = skip_whitespace_le s in
      let (a, b) = word_Takes (skip_whitespace s) (codes "ull") b'n' n (omega arith) z in
      (_, refl, a, b)

  word_Reads :
      (n : ℕ) (l : List ℕ) → length l ≤ n → 0 < n → Reads n (some (read_word {S = S} {D = D} l))
  unfolding read_word bool_result
  word_Reads n [] h z = let (a, b) = word_Takes [] (codes "alse") b'f' n h z in (_, refl, a, b)
  word_Reads n (c ∷ l) h z = elim (Bool-cases (c == b't')) [
    | inl e ↦ rw e (
      _,
      refl,
      omega (arith, starts_with_le l (codes "rue")),
      λ r. omega (arith, starts_with_le l (codes "rue")),
    )
    | inr e ↦ let (a, b) = word_Takes (c ∷ l) (codes "alse") b'f' n h z in rw e (_, refl, a, b)
  ]

  pub bool_Reads :
      (n : ℕ) (s : List ℕ) → length s ≤ n → 0 < n → Reads n (some (read_bool {S = S} {D = D} s))
  unfolding read_bool
  bool_Reads n s h z = word_Reads n (skip_whitespace s) (omega (arith, skip_whitespace_le s)) z

module _ (beyond : ℕ → ℕ) (f : FloatLibrary) {S : Type 0} where
  integer_input :
      (of : ℤ → Value S f.Double) (temp first : List ℕ) (r : ParsingResult (List ℕ) ℤ)
      → (integer_result beyond f of temp first r).input ≡ first
  unfolding integer_result read_floating
  integer_input of temp first r =
      elim (if_whole r.input r.result)
        as (λ k.
          (elim k as (λ t. ParsingResult (List ℕ) (Value S f.Double)) [
            | success ↦ record { input = first; output = of r.output; result = success }
            | failure ↦ read_floating beyond f {S = S} temp first f.zero_value
          ]).input
          ≡ first) [ success ↦ refl | failure ↦ refl ]

  decode_number_input :
      (negative : Bool) (j : Value S f.Double) (temp first : List ℕ)
      → (decode_number beyond f negative j (temp, first)).input ≡ first
  unfolding decode_number read_floating
  decode_number_input negative j temp first = elim (Bool-cases (has_fraction temp)) [
    | inl e ↦ rw e refl
    | inr e ↦
        rw e
          (elim negative
            as (λ b.
              (if b
                then integer_result beyond f int64 temp first
                    (int_decode beyond Decode.int64 10 temp (int64_ref beyond f j))
                else integer_result beyond f (as_uint64 beyond f) temp first
                    (int_decode beyond Decode.uint64 10 temp (uint64_ref beyond f j))).input
              ≡ first) [
                | true ↦ integer_input int64 temp first _
                | false ↦ integer_input (as_uint64 beyond f) temp first _
              ])
  ]

  pub number_Reads :
      (s : List ℕ) (j : Value S f.Double) (n : ℕ)
      → length s ≤ n
      → 0 < n
      → Reads n (some (read_number beyond f s j))
  unfolding read_number
  number_Reads [] j n h z = (_, refl, omega arith, λ e. cc e)
  number_Reads (c ∷ s) j n h z =
      let p = copy_number (c ∷ []) s in
      let e = ap length (decode_number_input (c == b'-') j p.0 p.1) in
      let l = copy_number_le s (c ∷ []) in (_, refl, omega arith, λ r. omega arith)

-- What follows a step returns, if the step does.
pub then_Ends :
    {O P : Type 0} (n m : ℕ) (x : Option (ParsingResult (List ℕ) O))
    (fail : List ℕ → ParsingResult (List ℕ) P)
    (next : List ℕ → O → Option (ParsingResult (List ℕ) P))
    → Reads m x
    → m ≤ n
    → ((rest : List ℕ) → (fail rest).input ≡ rest)
    → ((rest : List ℕ) (v : O) → length rest < m → Ends n (next rest v))
    → Ends n (then_read x fail next)
then_Ends {O} {P} n m x fail next (r, e, l, s) h g k = rw e (by_result r.result s)
  where
    by_result :
        (t : ResultType)
        → (t ≡ success → length r.input < m)
        → Ends n (elim t [ success ↦ next r.input r.output | failure ↦ some (fail r.input) ])
    by_result success s = k r.input r.output (s refl)
    by_result failure s = (_, refl, omega (arith, ap length (g r.input)))

pub as_string-Reads :
    (beyond : ℕ → ℕ) (f : FloatLibrary) (d : CharSize) (n m : ℕ)
    (x : Option (ParsingResult (List ℕ) (List ℕ)))
    → n ≤ m
    → Reads n x
    → Reads m (as_string beyond f d x)
unfolding as_string
as_string-Reads beyond f d n m x h (r, e, l, s) =
    rw e (_, refl, omega arith, λ t. omega (arith, s t))

pub open_bracket-Takes :
    (o : ReadOptions) (bracket : ℕ) (l : List ℕ) → Takes (length l) (open_bracket o bracket l)
unfolding open_bracket
open_bracket-Takes o bracket l =
    let w = skip_whitespace_le l in
    let (a, b) = starts_with_char-Takes (skip_whitespace l) bracket in
    elim (Bool-cases (nesting_limit_reached o)) [
      | inl e ↦ rw e (omega arith, λ r. cc r)
      | inr e ↦ rw e (omega arith, λ r. omega (arith, b r))
    ]

abbrev pub next_input : Next → List ℕ
next_input (stop rest r) = rest
next_input (item here) = here

pub next_item_le :
    (bracket : ℕ) (more : Bool) (l : List ℕ)
    → length (next_input (next_item bracket more l)) ≤ length l
unfolding next_item
next_item_le bracket more [] = omega arith
next_item_le bracket true (c ∷ l) = ground arith
next_item_le bracket false (c ∷ l) = ground arith
