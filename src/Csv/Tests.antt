-- ===== src/Csv/Tests.antt =====
-- The theorems on comma-separated values at concrete fields.
use skate.Prelude.{ℕ, ◌≡◌, refl, arith, ◌++◌, List, [], ◌∷◌, some, none, true, false}
use skate.Results.{success, OutputResult}
use skate.Utf.Unicode.{Unicode}
use skate.Utf.Encode.{one, two, utf_encode_all}
use skate.Number.Floating.{FloatLibrary}
use skate.Csv.Options.{
  CsvOptions, default_options, of_char, csv_requires_escaping, is_special, starts_blank,
}
use skate.Csv.Write.{write_row}
use skate.Csv.Reader.{read_row}
use skate.Csv.RoundTrip.{strings, read_row-write_row}
use skate.Csv.Faults.{write_row_ambiguous, csv_requires_escaping_stuck}

-- Whole numbers for the floating point type.
abbrev whole_floats : FloatLibrary
whole_floats = record {
  Double = ℕ;
  zero_value = 0;
  strtod = λ s. (0, true);
  snprintf = λ x. none;
  quiet_NaN = λ b. 0;
  infinity = λ b. 0;
  isinf = λ x. false;
  isnan = λ x. false;
  signbit = λ x. false;
}

-- A letter and a comma, and a letter.
abbrev with_comma : List Unicode
with_comma = of_char b'a' ∷ of_char b',' ∷ []

abbrev letter : List Unicode
letter = of_char b'b' ∷ []

-- A semicolon for the separator.
abbrev semicolons : CsvOptions
semicolons = record default_options { separator = of_char b';' }

read_row-write_row_example :
    (w : OutputResult (List Unicode)) × (write_row whole_floats two default_options
        (strings two (with_comma ∷ letter ∷ []))
        []
      ≡ some w)
    × (w.result ≡ success)
    × (read_row (w.output ++ letter) ≡ some (with_comma ∷ letter ∷ [], letter))
read_row-write_row_example =
    read_row-write_row whole_floats two default_options with_comma (letter ∷ []) letter refl refl
      (ground arith)

write_row_ambiguous_example :
    write_row whole_floats one semicolons
      (strings one ((of_char b'a' ∷ of_char b';' ∷ letter) ∷ []))
      []
    ≡ write_row whole_floats one semicolons (strings one ((of_char b'a' ∷ []) ∷ letter ∷ [])) []
unfolding is_special starts_blank
write_row_ambiguous_example =
    write_row_ambiguous whole_floats one semicolons (of_char b'a') [] letter [] (ground arith)
      (ground arith) (ground arith) refl refl refl

csv_requires_escaping_stuck_example :
    csv_requires_escaping one default_options 1000
      ((utf_encode_all one letter []).output ++ (0x80 ∷ []))
    ≡ none
unfolding is_special starts_blank
csv_requires_escaping_stuck_example =
    csv_requires_escaping_stuck 1000 (of_char b'b') [] 0x80 [] (ground arith) refl (omega arith)
      (omega arith)
