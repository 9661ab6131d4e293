-- ===== src/Csv/Options.antt =====
-- The options, the escaping and its test, of skate/io/adapters/csv.h. The output iterator takes
-- characters, since it is an encoder.
use skate.Prelude.{ℕ, zero, suc, ◌==◌, ◌||◌, if◌then◌else◌, Bool, true, false, Option, none, some}
use skate.Prelude.{List, [], ◌∷◌, ◌++◌}
use skate.Utf.Unicode.{Unicode}
use skate.Utf.Encode.{CharSize}
use skate.Utf.Decode.{utf_decode_next}

-- `csv_bool_type`.
pub data BoolType : Type 0 where
  bool_numeric lower_true_false title_true_false upper_true_false letter_tf lower_yes_no : BoolType
  title_yes_no upper_yes_no letter_yn lower_on_off title_on_off upper_on_off : BoolType

pub record CsvOptions : Type 0 where
  pub separator : Unicode
  pub quote : Unicode
  pub crlf_line_endings : Bool
  pub bool_fmt : BoolType

abbrev pub default_options : CsvOptions
default_options = record {
  separator = record { cp = b',' };
  quote = record { cp = 0x22 };
  crlf_line_endings = false;
  bool_fmt = bool_numeric;
}

-- A character that a `char` is converted to.
abbrev pub of_char : ℕ → Unicode
of_char c = record { cp = c }

unfoldable pub write_line_ending : CsvOptions → List Unicode → List Unicode
write_line_ending o out =
    (if o.crlf_line_endings then out ++ (of_char 13 ∷ []) else out) ++ (of_char 10 ∷ [])

-- `operator==` of two characters.
abbrev pub same_character : Unicode → Unicode → Bool
same_character u v = u.cp == v.cp

-- `csv_escape` of a character.
unfoldable pub csv_escape : CsvOptions → List Unicode → Unicode → List Unicode
csv_escape o out u = (if same_character u o.quote then out ++ (u ∷ []) else out) ++ (u ∷ [])

-- `csv_escape` of a range.
unfoldable pub csv_escape_all : CsvOptions → List Unicode → List Unicode → List Unicode
csv_escape_all o out [] = out
csv_escape_all o out (u ∷ us) = csv_escape_all o (csv_escape o out u) us

-- The characters that a field is quoted for.
unfoldable pub is_special : CsvOptions → Unicode → Bool
is_special o u =
    u.cp == 13 || u.cp == 10 || same_character u o.separator || same_character u o.quote

-- The loop of `csv_requires_escaping`; `none` means that it has not returned in `fuel` rounds.
unfoldable pub any_special : CharSize → CsvOptions → ℕ → List ℕ → Option Bool
any_special c o fuel [] = some false
any_special c o zero (x ∷ xs) = none
any_special c o (suc fuel) (x ∷ xs) =
    let r = utf_decode_next c (x ∷ xs) in
    let rest = any_special c o fuel r.input in if is_special o r.character then some true else rest

-- The first unit is compared with a space and a tab.
unfoldable pub starts_blank : List ℕ → Bool
starts_blank [] = false
starts_blank (x ∷ xs) = x == b' ' || x == 9

unfoldable pub csv_requires_escaping : CharSize → CsvOptions → ℕ → List ℕ → Option Bool
csv_requires_escaping c o fuel first =
    if starts_blank first then some true else any_special c o fuel first
