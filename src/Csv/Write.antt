-- ===== src/Csv/Write.antt =====
-- `write_csv` of skate/io/adapters/csv.h: scalars, rows, documents and objects. `none` stands for a
-- call that does not return, or that writes outside its buffer.
use skate.Prelude.{
  ℕ, if◌then◌else◌, Bool, true, false, Option, none, some, List, [], ◌∷◌, ◌++◌, map, length, codes,
}
use skate.Results.{ResultType, success, failure, OutputResult, ParsingResult}
use skate.Utf.Unicode.{Unicode}
use skate.Utf.Encode.{CharSize}
use skate.Utf.Decode.{utf_decode_next, utf_decode_range, push_back}
use skate.Number.Decode.{ℤ, IntType}
use skate.Number.Encode.{int_encode}
use skate.Number.Floating.{FloatLibrary, fp_encode}
use skate.Csv.Options.{
  BoolType, bool_numeric, lower_true_false, title_true_false, upper_true_false, letter_tf,
}
use skate.Csv.Options.{
  lower_yes_no, title_yes_no, upper_yes_no, letter_yn, lower_on_off, title_on_off, upper_on_off,
}
use skate.Csv.Options.{CsvOptions, default_options, of_char, write_line_ending, csv_escape}
use skate.Csv.Options.{csv_requires_escaping}

abbrev pub Written : Type 0
Written = Option (OutputResult (List Unicode))

unfoldable pub bool_text : BoolType → Bool → List ℕ
bool_text bool_numeric b = if b then codes "1" else codes "0"
bool_text lower_true_false b = if b then codes "true" else codes "false"
bool_text title_true_false b = if b then codes "True" else codes "False"
bool_text upper_true_false b = if b then codes "TRUE" else codes "FALSE"
bool_text letter_tf b = if b then codes "T" else codes "F"
bool_text lower_yes_no b = if b then codes "yes" else codes "no"
bool_text title_yes_no b = if b then codes "Yes" else codes "No"
bool_text upper_yes_no b = if b then codes "YES" else codes "NO"
bool_text letter_yn b = if b then codes "Y" else codes "N"
bool_text lower_on_off b = if b then codes "on" else codes "off"
bool_text title_on_off b = if b then codes "On" else codes "Off"
bool_text upper_on_off b = if b then codes "ON" else codes "OFF"

-- Characters written after `out`.
unfoldable pub add_chars : List Unicode → Option (OutputResult (List ℕ)) → Written
add_chars out none = none
add_chars out (some r) = some (record { output = out ++ map of_char r.output; result = r.result })

-- What `utf_auto_decode` gives, as the result of a writer.
unfoldable pub decoded : Option (ParsingResult (List ℕ) (List Unicode)) → Written
decoded none = none
decoded (some t) = some (record { output = t.output; result = t.result })

unfoldable pub close_quote : ResultType → List Unicode → OutputResult (List Unicode)
close_quote success out = record { output = out ++ (of_char 0x22 ∷ []); result = success }
close_quote failure out = record { output = out; result = failure }

unfoldable pub quoted_result : Option (ParsingResult (List ℕ) (List Unicode)) → Written
quoted_result none = none
quoted_result (some t) = some (close_quote t.result t.output)

-- A string with units of the size `c`. The test for escaping is made with the default options.
unfoldable pub write_string : CharSize → CsvOptions → List ℕ → List Unicode → Written
write_string c o v out = elim (csv_requires_escaping c default_options (length v) v) [
  | none ↦ none
  | some quotes ↦
      if quotes
      then quoted_result (
          utf_decode_range (utf_decode_next c) (csv_escape o) (length v) v
            (out ++ (of_char 0x22 ∷ [])))
      else decoded (utf_decode_range (utf_decode_next c) push_back (length v) v out)
]

-- The scalars, with the type `D` of floating point numbers.
pub data Scalar (D : Type 0) : Type 0 where
  nothing : Scalar D
  boolean : Bool → Scalar D
  integer : IntType → ℤ → Scalar D
  floating : D → Scalar D
  string : List ℕ → Scalar D

-- What follows a step that succeeded.
abbrev pub then_write : Written → (List Unicode → Written) → Written
then_write none next = none
then_write (some r) next = elim r.result [ success ↦ next r.output | failure ↦ some r ]

unfoldable pub end_line : CsvOptions → List Unicode → Written
end_line o out = some (record { output = write_line_ending o out; result = success })

-- The separator before all scalars but the first.
unfoldable pub separate : CsvOptions → Bool → List Unicode → List Unicode
separate o first out = if first then out else out ++ (o.separator ∷ [])

module _ (f : FloatLibrary) (c : CharSize) (o : CsvOptions) where
  unfoldable pub write_scalar : Scalar f.Double → List Unicode → Written
  write_scalar nothing out = some (record { output = out; result = success })
  write_scalar (boolean b) out =
      some (record { output = out ++ map of_char (bool_text o.bool_fmt b); result = success })
  write_scalar (integer t v) out = add_chars out (int_encode t v [] 10)
  write_scalar (floating d) out = add_chars out (some (fp_encode f d [] true true))
  write_scalar (string s) out = write_string c o s out

  -- The loop over a row, with whether the next scalar is the first, and the end of the line.
  unfoldable pub write_scalars : Bool → List (Scalar f.Double) → List Unicode → Written
  write_scalars first [] out = end_line o out
  write_scalars first (v ∷ row) out =
      then_write (write_scalar v (separate o first out)) (write_scalars false row)

  -- An array of scalars.
  unfoldable pub write_row : List (Scalar f.Double) → List Unicode → Written
  write_row row out = write_scalars true row out

  -- An array of arrays.
  unfoldable pub write_document : List (List (Scalar f.Double)) → List Unicode → Written
  write_document [] out = some (record { output = out; result = success })
  write_document (row ∷ rows) out = then_write (write_row row out) (write_document rows)

  abbrev keys_of : List (Scalar f.Double × Scalar f.Double) → List (Scalar f.Double)
  keys_of [] = []
  keys_of ((k, v) ∷ m) = k ∷ keys_of m

  abbrev values_of : List (Scalar f.Double × Scalar f.Double) → List (Scalar f.Double)
  values_of [] = []
  values_of ((k, v) ∷ m) = v ∷ values_of m

  -- An object of scalars: a line of keys and a line of values.
  unfoldable pub write_object : List (Scalar f.Double × Scalar f.Double) → List Unicode → Written
  unfolding write_row
  write_object m out = then_write (write_row (keys_of m) out) (write_row (values_of m))
