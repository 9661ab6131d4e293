-- ===== src/Json/ReadScalar.antt =====
-- The parts of `read_json` of a value of skate/io/adapters/json.h that hold no values: `null`,
-- booleans, numbers, and the steps of the loops over arrays and objects.
use skate.Prelude.{ℕ, ◌==◌, ◌||◌, if◌then◌else◌, Bool, true, false}
use skate.Prelude.{List, [], ◌∷◌, ◌++◌, codes}
use skate.Results.{ResultType, success, failure, InputResult, ParsingResult}
use skate.Ascii.Case.{isfpdigit, isdigit}
use skate.Number.Decode.{ℤ, pos, int_decode}
use skate.Number.Decode
use skate.Number.Floating.{FloatLibrary, fp_decode}
use skate.Json.ReadString.{skip_whitespace, starts_with, starts_with_char}
use skate.Json.Value.{Value, null, boolean, floating, int64, uint64}
use skate.Json.Value.{ReadOptions, nesting_limit_reached}

-- The `switch` over the first character.
pub data Kind : Type 0 where
  unknown text list map boolean_word null_word numeric : Kind

unfoldable pub kind_of_char : ℕ → Kind
unfolding isdigit
kind_of_char c =
    if c == 0x22
    then text
    else if c == b'['
    then list
    else if c == b'{'
    then map
    else if c == b't' || c == b'f'
    then boolean_word
    else if c == b'n'
    then null_word
    else if isdigit c || c == b'-'
    then numeric
    else unknown

unfoldable pub kind_of : List ℕ → Kind
unfolding kind_of_char
kind_of [] = unknown
kind_of (c ∷ first) = kind_of_char c

module _ {S D : Type 0} where
  unfoldable pub read_null : List ℕ → ParsingResult (List ℕ) (Value S D)
  read_null first =
      let r = starts_with (skip_whitespace first) (codes "null") in
      record { input = r.input; output = null; result = r.result }

  unfoldable pub bool_result : Bool → InputResult (List ℕ) → ParsingResult (List ℕ) (Value S D)
  bool_result b r = record { input = r.input; output = boolean b; result = r.result }

  unfoldable pub read_word : List ℕ → ParsingResult (List ℕ) (Value S D)
  read_word [] = bool_result false (starts_with [] (codes "false"))
  read_word (c ∷ first) =
      if c == b't'
      then bool_result true (starts_with first (codes "rue"))
      else bool_result false (starts_with (c ∷ first) (codes "false"))

  unfoldable pub read_bool : List ℕ → ParsingResult (List ℕ) (Value S D)
  read_bool first = read_word (skip_whitespace first)

-- The `do` loop over a number: what it copies, and what is left.
unfoldable pub copy_number : List ℕ → List ℕ → List ℕ × List ℕ
copy_number temp [] = (temp, [])
copy_number temp (c ∷ first) =
    let rest = copy_number (temp ++ (c ∷ [])) first in
    if isfpdigit c then rest else (temp, c ∷ first)

unfoldable pub has_fraction : List ℕ → Bool
has_fraction [] = false
has_fraction (c ∷ temp) = (c == b'.' || c == b'e' || c == b'E') || has_fraction temp

-- `result.input == tlast ? result.result : failure`.
unfoldable pub if_whole : List ℕ → ResultType → ResultType
if_whole [] r = r
if_whole (c ∷ rest) r = failure

module _ (beyond : ℕ → ℕ) (f : FloatLibrary) {S : Type 0} where
  -- What the references hold before they are read into.
  unfoldable pub number_ref : Value S f.Double → f.Double
  number_ref (floating d) = d
  number_ref _ = f.zero_value

  unfoldable pub int64_ref : Value S f.Double → ℤ
  int64_ref (int64 i) = i
  int64_ref _ = pos 0

  unfoldable pub uint64_ref : Value S f.Double → ℤ
  uint64_ref (uint64 n) = pos n
  uint64_ref _ = pos 0

  -- `fp_decode` of the text.
  unfoldable pub read_floating :
      List ℕ → List ℕ → f.Double → ParsingResult (List ℕ) (Value S f.Double)
  read_floating temp first v =
      let r = fp_decode f temp v in
      record { input = first; output = floating r.output; result = if_whole r.input r.result }

  unfoldable pub as_uint64 : ℤ → Value S f.Double
  as_uint64 (pos n) = uint64 n
  as_uint64 i = int64 i

  -- The integer, if it is the whole text, and otherwise the text as a floating point number.
  unfoldable pub integer_result :
      (ℤ → Value S f.Double)
      → List ℕ
      → List ℕ
      → ParsingResult (List ℕ) ℤ
      → ParsingResult (List ℕ) (Value S f.Double)
  integer_result of temp first r = elim (if_whole r.input r.result) [
    | success ↦ record { input = first; output = of r.output; result = success }
    | failure ↦ read_floating temp first f.zero_value
  ]

  unfoldable pub decode_number :
      Bool → Value S f.Double → List ℕ × List ℕ → ParsingResult (List ℕ) (Value S f.Double)
  decode_number negative j (temp, first) =
      if has_fraction temp
      then read_floating temp first (number_ref j)
      else if negative
      then integer_result int64 temp first (int_decode beyond Decode.int64 10 temp (int64_ref j))
      else integer_result as_uint64 temp first
          (int_decode beyond Decode.uint64 10 temp (uint64_ref j))

  unfoldable pub read_number : List ℕ → Value S f.Double → ParsingResult (List ℕ) (Value S f.Double)
  read_number [] j = record { input = []; output = j; result = failure }
  read_number (c ∷ first) j = decode_number (c == b'-') j (copy_number (c ∷ []) first)

-- The bracket that opens an array or object, under the limit of nesting.
unfoldable pub open_bracket : ReadOptions → ℕ → List ℕ → InputResult (List ℕ)
open_bracket o bracket first =
    if nesting_limit_reached o
    then record { input = first; result = failure }
    else starts_with_char (skip_whitespace first) bracket

-- The beginning of a round of the loops: the loop ends, or an element follows.
pub data Next : Type 0 where
  stop : List ℕ → ResultType → Next
  item : List ℕ → Next

unfoldable pub next_item : ℕ → Bool → List ℕ → Next
next_item bracket has_element [] = stop [] failure
next_item bracket has_element (c ∷ first) =
    if c == bracket
    then stop first success
    else if has_element
    then (if c == b',' then item first else stop (c ∷ first) failure)
    else item (c ∷ first)
