-- ===== src/Number/Floating.antt =====
-- `fp_decode` and `fp_encode` of skate/io/adapters/core.h. The floating point type and what the C
-- library does with its text are parameters.
use skate.Prelude.{ℕ, ◌==◌, ◌||◌, ◌&&◌, not, if◌then◌else◌, Bool, true, false, Option, none, some}
use skate.Prelude.{List, [], ◌∷◌, ◌++◌, codes}
use skate.Results.{success, failure, InputResult, OutputResult, ParsingResult}
use skate.Ascii.Case.{tolower, isdigit}

-- `istarts_with` of a text, which takes the end of the input for a match as `starts_with` does.
unfoldable pub istarts_with : List ℕ → List ℕ → InputResult (List ℕ)
istarts_with [] s = record { input = []; result = success }
istarts_with (x ∷ first) [] = record { input = x ∷ first; result = success }
istarts_with (x ∷ first) (c ∷ s) =
    let rest = istarts_with first s in
    if tolower x == tolower c then rest else record { input = x ∷ first; result = failure }

-- The floating point type, with `strtod`, which also says whether it has read the whole text, and
-- `snprintf`, which may fail.
pub record FloatLibrary : Type 1 where
  pub Double : Type 0
  pub zero_value : Double
  pub strtod : List ℕ → Double × Bool
  pub snprintf : Double → Option (List ℕ)
  pub quiet_NaN : Bool → Double
  pub infinity : Bool → Double
  pub isinf : Double → Bool
  pub isnan : Double → Bool
  pub signbit : Double → Bool

-- A loop that copies digits to the end of `temp`: the digits, and what follows them.
unfoldable pub copy_while_digit : List ℕ → List ℕ → List ℕ × List ℕ
copy_while_digit temp [] = (temp, [])
copy_while_digit temp (c ∷ first) =
    let rest = copy_while_digit (temp ++ (c ∷ [])) first in
    if isdigit c then rest else (temp, c ∷ first)

-- The decimal point and what follows it, which is dropped at the end of the input.
unfoldable pub read_point : List ℕ × List ℕ → List ℕ × List ℕ
read_point (temp, []) = (temp, [])
read_point (temp, c ∷ []) = if c == b'.' then (temp, []) else (temp, c ∷ [])
read_point (temp, c ∷ x ∷ first) =
    if c == b'.' then copy_while_digit (temp ++ (b'.' ∷ [])) (x ∷ first) else (temp, c ∷ x ∷ first)

-- What the number ends in: a failure, or a text for `strtod`.
pub data NumberText : Type 0 where
  broken : List ℕ → NumberText
  complete : List ℕ → List ℕ → NumberText

unfoldable pub exponent_digits : List ℕ → List ℕ → NumberText
exponent_digits temp [] = broken []
exponent_digits temp (c ∷ first) =
    let (temp', rest) = copy_while_digit temp (c ∷ first) in
    if not (isdigit c) then broken (c ∷ first) else complete temp' rest

unfoldable pub read_exponent : List ℕ × List ℕ → NumberText
read_exponent (temp, []) = complete temp []
read_exponent (temp, c ∷ []) =
    if c == b'e' || c == b'E' then complete temp [] else complete temp (c ∷ [])
read_exponent (temp, c ∷ x ∷ first) =
    if c == b'e' || c == b'E'
    then (if x == b'+' || x == b'-'
        then exponent_digits (temp ++ (b'e' ∷ x ∷ [])) first
        else exponent_digits (temp ++ (b'e' ∷ [])) (x ∷ first))
    else complete temp (c ∷ x ∷ first)

module _ (f : FloatLibrary) where
  open f use {Double, strtod, snprintf, quiet_NaN, infinity, isinf, isnan, signbit}

  unfoldable pub named : Double → Double → InputResult (List ℕ) → ParsingResult (List ℕ) Double
  named value v r = elim r.result [
    | success ↦ record { input = r.input; output = value; result = success }
    | failure ↦ record { input = r.input; output = v; result = failure }
  ]

  unfoldable pub convert : Double → NumberText → ParsingResult (List ℕ) Double
  convert v (broken first) = record { input = first; output = v; result = failure }
  convert v (complete temp first) =
      if (strtod temp).1
      then record { input = first; output = (strtod temp).0; result = success }
      else record { input = first; output = v; result = failure }

  unfoldable pub decode_unsigned : Bool → List ℕ → List ℕ → Double → ParsingResult (List ℕ) Double
  decode_unsigned negative temp [] v = record { input = []; output = v; result = failure }
  decode_unsigned negative temp (c ∷ first) v =
      if not (isdigit c) && not (c == b'.')
      then (if c == b'n' || c == b'N'
          then named (quiet_NaN negative) v (istarts_with first (codes "an"))
          else if c == b'i' || c == b'I'
          then named (infinity negative) v (istarts_with first (codes "nfinity"))
          else record { input = c ∷ first; output = v; result = failure })
      else convert v (read_exponent (read_point (copy_while_digit temp (c ∷ first))))

  -- `v` is what the variable holds before; the output is what it holds after.
  unfoldable pub fp_decode : List ℕ → Double → ParsingResult (List ℕ) Double
  fp_decode [] v = record { input = []; output = v; result = failure }
  fp_decode (c ∷ first) v =
      if c == b'-'
      then decode_unsigned true (b'-' ∷ []) first v
      else decode_unsigned false [] (c ∷ first) v

  unfoldable pub print : Double → List ℕ → OutputResult (List ℕ)
  print v out = elim (snprintf v) [
    | none ↦ record { output = out; result = failure }
    | some chars ↦ record { output = out ++ chars; result = success }
  ]

  unfoldable pub fp_encode : Double → List ℕ → Bool → Bool → OutputResult (List ℕ)
  fp_encode v out allow_inf allow_nan =
      if isinf v
      then (if not allow_inf then record { output = out; result = failure } else record {
        output = (if signbit v then out ++ (b'-' ∷ []) else out) ++ codes "Infinity";
        result = success;
      })
      else if isnan v
      then (if not allow_nan
          then record { output = out; result = failure }
          else record { output = out ++ codes "NaN"; result = success })
      else print v out
