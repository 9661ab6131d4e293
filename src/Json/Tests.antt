-- ===== src/Json/Tests.antt =====
-- The theorems on JSON strings at concrete characters.
use skate.Prelude.{ℕ, ◌≡◌, arith, List, [], ◌∷◌, ◌++◌, some}
use skate.Results.{OutputResult, success, failure}
use skate.Utf.Unicode.{Unicode}
use skate.Utf.Encode.{one, two, utf_encode_all}
use skate.Json.Escape.{write_json_string}
use skate.Json.ReadString.{read_json_string}
use skate.Json.RoundTrip.{
  read_json_string-write_json_string, read_json_string_vertical_tab, escape_forms,
}
use skate.Prelude.{◌≤◌, ◌<◌, ◌-◌, none, true, false, codes, length, refl}
use skate.Results.{ParsingResult}
use skate.Number.Decode.{pos, negsuc}
use skate.Number.Floating.{FloatLibrary}
use skate.Json.Value.{Value, null, boolean, int64, array, object, no_values, element}
use skate.Json.Value.{no_members, member, WriteOptions, ReadOptions}
use skate.Json.WriteValue.{to_json}
use skate.Json.ReadValue.{from_json}
use skate.Json.Text.{value_of, normal, depth}
use skate.Json.ValueRoundTrip.{from_json-to_json}
use skate.Json.ReturnsValue.{from_json_returns}
use skate.Json.CutWords.{from_json_cut_word}
use skate.Json.Invariant.{IsOrdered}
use skate.Json.Sound.{from_json-IsOrdered}

abbrev beyond : ℕ → ℕ
beyond i = 0

-- A letter, a quotation mark and a character outside the first plane.
abbrev text : List Unicode
text = record { cp = b'A' } ∷ record { cp = 0x22 } ∷ record { cp = 0x1F600 } ∷ []

read_json_string-write_json_string_example :
    (w : OutputResult (List ℕ)) × (write_json_string two (utf_encode_all two text []).output []
      ≡ some w)
    × (w.result ≡ success)
    × (read_json_string beyond one (w.output ++ (b',' ∷ [])) (9 ∷ [])
        ≡ some (record {
          input = b',' ∷ [];
          output = (utf_encode_all one text []).output;
          result = success;
        }))
read_json_string-write_json_string_example =
    read_json_string-write_json_string beyond two one text (9 ∷ []) (b',' ∷ []) (ground arith)
      (ground arith)

read_json_string_vertical_tab_example :
    (w : OutputResult (List ℕ)) × (write_json_string one
        (utf_encode_all one (text ++ (record { cp = 0x0B } ∷ text)) []).output
        []
      ≡ some w)
    × (w.result ≡ success)
    × (read_json_string beyond one (w.output ++ []) []
        ≡ some (record {
          input = escape_forms text ++ (0x22 ∷ []);
          output = (utf_encode_all one text []).output;
          result = failure;
        }))
read_json_string_vertical_tab_example =
    read_json_string_vertical_tab beyond one one text text [] [] (ground arith) (ground arith)
      (ground arith)

-- Whole numbers for the floating point type.
abbrev floats : FloatLibrary
floats = record {
  Double = ℕ;
  zero_value = 0;
  strtod = λ s. (0, true);
  snprintf = λ x. none;
  quiet_NaN = λ b. 0;
  infinity = λ b. 0;
  isinf = λ x. false;
  isnan = λ x. false;
  signbit = λ x. false;
}

abbrev tree : Value (List Unicode) ℕ
tree = object (
    member text (array (element (int64 (pos 7)) (element (int64 (negsuc 1)) no_values))) no_members)

abbrev write_options : WriteOptions
write_options = record { current_indentation = 0; indent = 2 }

abbrev read_options : ReadOptions
read_options = record { max_nesting = 512; current_nesting = 0 }

from_json-to_json_example :
    (t : OutputResult (List ℕ)) × (to_json floats two write_options (value_of two tree) ≡ some t)
    × (t.result ≡ success)
    × (from_json beyond floats one read_options t.output
        ≡ some (record { input = []; output = value_of one (normal tree); result = success }))
unfolding depth
from_json-to_json_example =
    from_json-to_json beyond floats two one write_options read_options tree (ground arith)
      (ground arith) (omega arith) (omega arith)

from_json_returns_example :
    (r : ParsingResult (List ℕ) (Value (List ℕ) ℕ)) × (from_json beyond floats one read_options
        (codes "[1, {")
      ≡ some r)
    × (length r.input ≤ 5)
    × (r.result ≡ success → length r.input < 5)
from_json_returns_example = from_json_returns beyond floats one read_options (codes "[1, {")

from_json_cut_word_example :
    from_json beyond floats one read_options (codes "tr")
    ≡ some (record { input = []; output = boolean true; result = success })
from_json_cut_word_example =
    from_json_cut_word beyond floats one (some true) read_options b't' (codes "r") (codes "ue") refl

from_json-IsOrdered_example :
    IsOrdered {D = ℕ} null × (success ≡ success → depth {S = List ℕ} {D = ℕ} null ≤ 512 - 0)
from_json-IsOrdered_example =
    from_json-IsOrdered beyond floats one read_options (codes "n")
      (record { input = []; output = null; result = success }) (omega arith)
      (from_json_cut_word beyond floats one none read_options b'n' [] (codes "ull") refl)
