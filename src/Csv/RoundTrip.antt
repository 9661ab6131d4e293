-- ===== src/Csv/RoundTrip.antt =====
-- A row of strings that `write_csv` of skate/io/adapters/csv.h writes, and the reader of RFC 4180.
use skate.Prelude.{◌≡◌, refl, sym, ap, ◌∙◌, arith, ◌==◌, ◌||◌, if◌then◌else◌, Bool-cases, inl, inr}
use skate.Prelude.{Bool, true, false, some, List, [], ◌∷◌, ◌++◌, append-nil, append_assoc, All}
use skate.Results.{success, OutputResult}
use skate.Utf.Unicode.{Unicode}
use skate.Utf.Encode.{CharSize, utf_encode_all}
use skate.Utf.Utf8.RoundTrip.{IsAccepted}
use skate.Number.Floating.{FloatLibrary}
use skate.Csv.Options.{CsvOptions, of_char, write_line_ending, is_special}
use skate.Csv.Write.{Scalar, string, end_line, separate, write_scalar, write_scalars, write_row}
use skate.Csv.Reader.{start, plain, inside, closing, move, scan, read_row}
use skate.Csv.Text.{has_special, escaped, quotes, quoted_field, field_text, write_string-text}

abbrev pub line_text : CsvOptions → List Unicode
line_text o = (if o.crlf_line_endings then of_char 13 ∷ [] else []) ++ (of_char 10 ∷ [])

abbrev pub separator_text : CsvOptions → Bool → List Unicode
separator_text o true = []
separator_text o false = o.separator ∷ []

-- The text of the fields of a row, with whether the next is the first.
abbrev pub fields_text : CharSize → CsvOptions → Bool → List (List Unicode) → List Unicode
fields_text c o first [] = line_text o
fields_text c o first (us ∷ row) =
    separator_text o first ++ (field_text c o us ++ fields_text c o false row)

-- Strings with units of the size `c`, as scalars.
abbrev pub strings : {D : Type 0} → CharSize → List (List Unicode) → List (Scalar D)
strings c [] = []
strings c (us ∷ row) = string (utf_encode_all c us []).output ∷ strings c row

line_text-end : (o : CsvOptions) (out : List Unicode) → write_line_ending o out ≡ out ++ line_text o
unfolding write_line_ending
line_text-end o out = ground (arith, append_assoc out (of_char 13 ∷ []) (of_char 10 ∷ []))

separate-text :
    (o : CsvOptions) (first : Bool) (out : List Unicode)
    → separate o first out ≡ out ++ separator_text o first
unfolding separate
separate-text o true out = sym (append-nil out)
separate-text o false out = refl

module _ (f : FloatLibrary) (c : CharSize) (o : CsvOptions) where
  write_scalars-text :
      (row : List (List Unicode)) (first : Bool) (out : List Unicode)
      → All (λ us. All (λ u. IsAccepted u.cp) us) row
      → write_scalars f c o first (strings c row) out
        ≡ some (record { output = out ++ fields_text c o first row; result = success })
  unfolding write_scalars end_line write_scalar
  write_scalars-text [] first out h =
      ap (λ l. some (record { output = l; result = success })) (line_text-end o out)
  write_scalars-text (us ∷ row) first out (hu, h) =
      rw (separate-text o first out, write_string-text c o us (out ++ separator_text o first) hu)
        (write_scalars-text row false ((out ++ separator_text o first) ++ field_text c o us) h
          ∙ ap (λ l. some (record { output = l; result = success })) (simp append_assoc))

  pub write_row-text :
      (row : List (List Unicode)) (out : List Unicode)
      → All (λ us. All (λ u. IsAccepted u.cp) us) row
      → write_row f c o (strings c row) out
        ≡ some (record { output = out ++ fields_text c o true row; result = success })
  unfolding write_row
  write_row-text row out h = write_scalars-text row true out h

-- A character that ends a field.
abbrev IsEnd : Unicode → Type 0
IsEnd u = ((u.cp == b',') || (u.cp == 10 || u.cp == 13)) ≡ true

abbrev EndsField : List Unicode → Type 0
EndsField [] = ⊥
EndsField (u ∷ us) = IsEnd u

scan_plain :
    (us field t : List Unicode) (row : List (List Unicode))
    → has_special us ≡ false
    → scan plain field row (us ++ t) ≡ scan plain (field ++ us) row t
unfolding scan move is_special
scan_plain [] field t row h = ap (λ l. scan plain l row t) (sym (append-nil field))
scan_plain (u ∷ us) field t row h =
    ground (arith, scan_plain us (field ++ (u ∷ [])) t row, append_assoc field (u ∷ []) us)

scan_inside :
    (o : CsvOptions) (us field t : List Unicode) (row : List (List Unicode))
    → o.quote ≡ of_char 0x22
    → scan inside field row (escaped o us ++ t) ≡ scan inside (field ++ us) row t
unfolding scan move
scan_inside o [] field t row q = ap (λ l. scan inside l row t) (sym (append-nil field))
scan_inside o (u ∷ us) field t row q = ground (
  arith,
  scan_inside o us (field ++ (u ∷ [])) t row q,
  append_assoc field (u ∷ []) us,
  ap (λ v. v.cp) q,
)

scan-closing :
    (field t : List Unicode) (row : List (List Unicode))
    → EndsField t
    → scan closing field row t ≡ scan plain field row t
unfolding scan move
scan-closing field [] row e = absurd e
scan-closing field (u ∷ t) row e = ground arith

scan-start :
    (t : List Unicode) (row : List (List Unicode))
    → EndsField t
    → scan start [] row t ≡ scan plain [] row t
unfolding scan move
scan-start [] row e = absurd e
scan-start (u ∷ t) row e = ground arith

start_plain :
    (us t : List Unicode) (row : List (List Unicode))
    → has_special us ≡ false
    → EndsField t
    → scan start [] row (us ++ t) ≡ scan plain us row t
unfolding scan move is_special
start_plain [] t row h e = scan-start t row e
start_plain (u ∷ us) t row h e = ground (arith, scan_plain us (u ∷ []) t row)

start_quote :
    (t field : List Unicode) (row : List (List Unicode))
    → scan start field row (of_char 0x22 ∷ t) ≡ scan inside [] row t
unfolding scan move
start_quote t field row = refl

inside_quote :
    (t field : List Unicode) (row : List (List Unicode))
    → scan inside field row (of_char 0x22 ∷ t) ≡ scan closing field row t
unfolding scan move
inside_quote t field row = refl

pub no_special : (b h : Bool) → (b || h) ≡ false → h ≡ false
no_special true h e = cc e
no_special false h e = e

module _ (c : CharSize) (o : CsvOptions) where
  -- A field is read whatever ends it.
  scan-field_text :
      (us t : List Unicode) (row : List (List Unicode))
      → o.quote ≡ of_char 0x22
      → EndsField t
      → scan start [] row (field_text c o us ++ t) ≡ scan plain us row t
  scan-field_text us t row q e = elim (Bool-cases (quotes c us)) [
    | inr n ↦
        ap (λ b. scan start [] row ((if b then quoted_field o us else us) ++ t)) n
        ∙ start_plain us t row (no_special _ (has_special us) n) e
    | inl y ↦
        ap (λ b. scan start [] row ((if b then quoted_field o us else us) ++ t)) y
        ∙ start_quote _ [] row
        ∙ ap (scan inside [] row) (append_assoc (escaped o us) (of_char 0x22 ∷ []) t)
        ∙ scan_inside o us [] (of_char 0x22 ∷ t) row q
        ∙ inside_quote t us row
        ∙ scan-closing us t row e
  ]

  fields_text_end :
      (row : List (List Unicode)) (rest : List Unicode)
      → o.separator ≡ of_char b','
      → EndsField (fields_text c o false row ++ rest)
  fields_text_end [] rest s = ground arith
  fields_text_end (us ∷ row) rest s = ground (arith, ap (λ v. v.cp) s)

  plain_line :
      (us rest : List Unicode) (row : List (List Unicode))
      → scan plain us row (line_text o ++ rest) ≡ some (row ++ (us ∷ []), rest)
  unfolding scan move
  plain_line us rest row =
      elim o.crlf_line_endings
        as (λ b.
          scan plain us row (((if b then of_char 13 ∷ [] else []) ++ (of_char 10 ∷ [])) ++ rest)
          ≡ some (row ++ (us ∷ []), rest)) [ true ↦ refl | false ↦ refl ]

  plain_separator :
      (us t : List Unicode) (row : List (List Unicode))
      → o.separator ≡ of_char b','
      → scan plain us row (o.separator ∷ t) ≡ scan start [] (row ++ (us ∷ [])) t
  unfolding scan move
  plain_separator us t row s = rw s refl

  scan-fields_text :
      (more : List (List Unicode)) (us rest : List Unicode) (row : List (List Unicode))
      → o.separator ≡ of_char b','
      → o.quote ≡ of_char 0x22
      → scan plain us row (fields_text c o false more ++ rest) ≡ some (row ++ (us ∷ more), rest)
  scan-fields_text [] us rest row s q = plain_line us rest row
  scan-fields_text (v ∷ more) us rest row s q =
      let after = fields_text c o false more ++ rest in
      plain_separator us _ row s
      ∙ ap (scan start [] (row ++ (us ∷ [])))
          (append_assoc (field_text c o v) (fields_text c o false more) rest)
      ∙ scan-field_text v after (row ++ (us ∷ [])) q (fields_text_end more rest s)
      ∙ scan-fields_text more v rest (row ++ (us ∷ [])) s q
      ∙ ap (λ l. some (l, rest)) (append_assoc row (us ∷ []) (v ∷ more))

-- A row of strings, one at least, made of characters that every encoding carries, is written, and
-- what was written, whatever follows it, is read back by the rules of RFC 4180: the same fields, up
-- to the line ending. The separator is a comma and the quote a quotation mark; the line ending is
-- of either kind.
pub read_row-write_row :
    (f : FloatLibrary) (c : CharSize) (o : CsvOptions) (us : List Unicode)
    (more : List (List Unicode)) (rest : List Unicode)
    → o.separator ≡ of_char b','
    → o.quote ≡ of_char 0x22
    → All (λ vs. All (λ u. IsAccepted u.cp) vs) (us ∷ more)
    → (w : OutputResult (List Unicode)) × (write_row f c o (strings c (us ∷ more)) [] ≡ some w)
      × (w.result ≡ success)
      × (read_row (w.output ++ rest) ≡ some (us ∷ more, rest))
read_row-write_row f c o us more rest s q h = (
  record { output = fields_text c o true (us ∷ more); result = success },
  write_row-text f c o (us ∷ more) [] h,
  refl,
  ap (scan start [] []) (append_assoc (field_text c o us) (fields_text c o false more) rest)
      ∙ scan-field_text c o us (fields_text c o false more ++ rest) [] q
          (fields_text_end c o more rest s)
      ∙ scan-fields_text c o more us rest [] s q,
)
