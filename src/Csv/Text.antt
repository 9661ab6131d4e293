-- ===== src/Csv/Text.antt =====
-- What `write_csv` of skate/io/adapters/csv.h writes for strings.
use skate.Prelude.{ℕ, zero, suc, ◌≤◌, ◌<◌, ◌≡◌, refl, sym, ap, ◌∙◌, arith, ◌||◌, if◌then◌else◌}
use skate.Prelude.{
  Bool, true, false, Option, none, some, List, [], ◌∷◌, ◌++◌, append-nil, append_assoc, All, length,
  length-append,
}
use skate.Results.{success}
use skate.Utf.Unicode.{Unicode}
use skate.Utf.Encode.{CharSize, utf_encode_all}
use skate.Utf.Decode.{utf_decode_next, utf_decode_range, push_back}
use skate.Utf.Utf8.RoundTrip.{IsAccepted}
use skate.Utf.Codecs.{codec_of}
use skate.Utf.Ranges.{write_all, write_all-push_back, forms, utf_encode_all-forms}
use skate.Utf.Strings.{decode_forms, accepted-All}
use skate.Csv.Options.{CsvOptions, default_options, of_char, csv_escape, is_special}
use skate.Csv.Options.{any_special, starts_blank, csv_requires_escaping, same_character}
use skate.Csv.Write.{Written, write_string, quoted_result, close_quote, decoded}

-- A string with a special character in it.
abbrev pub has_special : List Unicode → Bool
has_special [] = false
has_special (u ∷ us) = if is_special default_options u then true else has_special us

-- The characters between quotation marks.
abbrev pub escaped : CsvOptions → List Unicode → List Unicode
escaped o [] = []
escaped o (u ∷ us) = (if same_character u o.quote then u ∷ u ∷ [] else u ∷ []) ++ escaped o us

-- Whether the field is quoted, and its text.
abbrev pub quotes : CharSize → List Unicode → Bool
quotes c us = starts_blank (forms c (codec_of c) us) || has_special us

abbrev pub quoted_field : CsvOptions → List Unicode → List Unicode
quoted_field o us = of_char 0x22 ∷ (escaped o us ++ (of_char 0x22 ∷ []))

abbrev pub field_text : CharSize → CsvOptions → List Unicode → List Unicode
field_text c o us = if quotes c us then quoted_field o us else us

write_all-csv_escape :
    (o : CsvOptions) (us out : List Unicode) → write_all (csv_escape o) out us ≡ out ++ escaped o us
unfolding csv_escape
write_all-csv_escape o [] out = sym (append-nil out)
write_all-csv_escape o (u ∷ us) out = ground (
  arith,
  write_all-csv_escape o us (out ++ (u ∷ [])),
  write_all-csv_escape o us ((out ++ (u ∷ [])) ++ (u ∷ [])),
  append_assoc out (u ∷ []) (escaped o us),
  append_assoc (out ++ (u ∷ [])) (u ∷ []) (escaped o us),
  append_assoc out (u ∷ []) (u ∷ escaped o us),
)

module _ (c : CharSize) where
  abbrev coded : List Unicode → List ℕ
  coded us = forms c (codec_of c) us

  -- A round of the loop.
  pub any_special_step :
      (fuel : ℕ) (src rest : List ℕ) (u : Unicode)
      → 0 < length src
      → utf_decode_next c src ≡ record { input = rest; character = u }
      → any_special c default_options (suc fuel) src ≡ (
          if is_special default_options u
          then some true
          else any_special c default_options fuel rest)
  unfolding any_special
  any_special_step fuel [] rest u h e = absurd (omega arith)
  any_special_step fuel (x ∷ xs) rest u h e = rw e refl

  any_special-forms :
      (us : List Unicode) (fuel : ℕ)
      → length (coded us) ≤ fuel
      → All (codec_of c).Accepts us
      → any_special c default_options fuel (coded us) ≡ some (has_special us)
  any_special-forms [] fuel h a = unfold any_special in refl
  any_special-forms (u ∷ us) zero h a =
      absurd
        (omega (arith, (codec_of c).nonempty u, length-append ((codec_of c).form u) (coded us)))
  any_special-forms (u ∷ us) (suc fuel) h (hu, a) =
      let k = codec_of c in
      let l = length-append (k.form u) (coded us) in
      let n = k.nonempty u in
      any_special_step fuel (k.form u ++ coded us) (coded us) u (omega arith)
        (k.reads u (coded us) hu)
      ∙ ap (λ b. if is_special default_options u then some true else b)
          (any_special-forms us fuel (omega arith) a)
      ∙ ground arith

  requires_escaping-forms :
      (us : List Unicode)
      → All (codec_of c).Accepts us
      → csv_requires_escaping c default_options (length (coded us)) (coded us)
        ≡ some (starts_blank (coded us) || has_special us)
  unfolding csv_requires_escaping
  requires_escaping-forms us a =
      ap (λ b. if starts_blank (coded us) then some true else b)
        (any_special-forms us (length (coded us)) (omega arith) a)
      ∙ ground arith

  field_of :
      (o : CsvOptions) (us out : List Unicode) (b : Bool)
      → All (codec_of c).Accepts us
      → (if b
          then quoted_result (
              utf_decode_range
                (utf_decode_next c)
                (csv_escape o)
                (length (coded us))
                (coded us)
                (out ++ (of_char 0x22 ∷ [])))
          else decoded
              (utf_decode_range (utf_decode_next c) push_back (length (coded us)) (coded us) out))
        ≡ some (record { output = out ++ (if b then quoted_field o us else us); result = success })
  unfolding decoded quoted_result close_quote
  field_of o us out true a =
      ap quoted_result (
        decode_forms c (codec_of c) (csv_escape o) us (length (coded us))
          (out ++ (of_char 0x22 ∷ [])) (omega arith) a)
      ∙ ap (λ l. some (record { output = l ++ (of_char 0x22 ∷ []); result = success }))
          (write_all-csv_escape o us (out ++ (of_char 0x22 ∷ [])))
      ∙ ap (λ l. some (record { output = l; result = success })) (simp append_assoc)
  field_of o us out false a =
      ap decoded (decode_forms c (codec_of c) push_back us (length (coded us)) out (omega arith) a)
      ∙ ap (λ l. some (record { output = l; result = success })) (write_all-push_back out us)

  abbrev choose : CsvOptions → List Unicode → List Unicode → Option Bool → Written
  choose o us out q = elim q [
    | none ↦ none
    | some b ↦
        if b
        then quoted_result (
            utf_decode_range (utf_decode_next c) (csv_escape o) (length (coded us)) (coded us)
              (out ++ (of_char 0x22 ∷ [])))
        else decoded
            (utf_decode_range (utf_decode_next c) push_back (length (coded us)) (coded us) out)
  ]

  write_coded :
      (o : CsvOptions) (us out : List Unicode)
      → All (codec_of c).Accepts us
      → write_string c o (coded us) out
        ≡ some (record { output = out ++ field_text c o us; result = success })
  unfolding write_string
  write_coded o us out a =
      ap (choose o us out) (requires_escaping-forms us a) ∙ field_of o us out (quotes c us) a

  -- `write_csv` of a string of characters that every encoding carries appends its text: quoted, if
  -- it starts with a blank or has a special character in it.
  pub write_string-text :
      (o : CsvOptions) (us out : List Unicode)
      → All (λ u. IsAccepted u.cp) us
      → write_string c o (utf_encode_all c us []).output out
        ≡ some (record { output = out ++ field_text c o us; result = success })
  write_string-text o us out h =
      let a = accepted-All c us h in
      ap (λ r. write_string c o r.output out) (utf_encode_all-forms c (codec_of c) us [] a)
      ∙ write_coded o us out a
