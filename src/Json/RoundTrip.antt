-- ===== src/Json/RoundTrip.antt =====
-- A string through `write_json` and `read_json` of skate/io/adapters/json.h.
use skate.Prelude.{ℕ, zero, suc, ◌+◌, ◌-◌, ◌≤◌, ◌<◌, ◌≡◌, ◌≢◌, refl, sym, ap, ◌∙◌, arith}
use skate.Prelude.{
  List, [], ◌∷◌, ◌++◌, append-nil, append_assoc, length-append, length, All, All-append, some,
}
use skate.Results.{ResultType, success, failure, OutputResult, merge_results}
use skate.Utf.Unicode.{Unicode}
use skate.Utf.Encode.{CharSize, utf_encode_all}
use skate.Utf.Utf8.RoundTrip.{IsAccepted}
use skate.Utf.Codecs.{codec_of, accepted_everywhere}
use skate.Utf.Ranges.{write_all, forms, utf_encode_all-forms}
use skate.Utf.Strings.{decode_forms, accepted-All}
use skate.Json.Escape.{escape_assign, escape_result, write_json_string, write_result, close_string}
use skate.Json.ReadString.{finished, char, read_round, read_loop, read_quoted, read_json_string}
use skate.Json.ReadString.{starts_with_char, skip_whitespace}
use skate.Json.Form.{escape_form, json_escape-form}
use skate.Json.Rounds.{read_round-escape_form, read_round_vertical_tab, read_round_quote}

abbrev pub escape_forms : List Unicode → List ℕ
escape_forms [] = []
escape_forms (u ∷ us) = escape_form u.cp ++ escape_forms us

escape_form_nonempty : (v : ℕ) → 0 < length (escape_form v)
escape_form_nonempty v = ground arith

abbrev pub quoted : List Unicode → List ℕ
quoted us = 0x22 ∷ (escape_forms us ++ (0x22 ∷ []))

escape_assign-form :
    (u : Unicode) (out : List ℕ)
    → u.cp ≤ 0x10ffff
    → escape_assign (record { out = out; result = success }) u
      ≡ record { out = out ++ escape_form u.cp; result = success }
unfolding escape_assign escape_result
escape_assign-form u out h = rw (json_escape-form u out h)

write_all-escape_assign :
    (us : List Unicode) (out : List ℕ)
    → All (λ u. IsAccepted u.cp) us
    → write_all escape_assign (record { out = out; result = success }) us
      ≡ record { out = out ++ escape_forms us; result = success }
write_all-escape_assign [] out h = ground (arith, append-nil out)
write_all-escape_assign (u ∷ us) out (hu, h) =
    ap (λ it. write_all escape_assign it us) (escape_assign-form u out (omega arith))
    ∙ write_all-escape_assign us (out ++ escape_form u.cp) h
    ∙ ap (λ o. record { out = o; result = success })
        (append_assoc out (escape_form u.cp) (escape_forms us))

-- `write_json` of an encoded string writes the quoted forms of its characters.
pub write_json_string-quoted :
    (c : CharSize) (us : List Unicode) (out : List ℕ)
    → All (λ u. IsAccepted u.cp) us
    → write_json_string c (utf_encode_all c us []).output out
      ≡ some (record { output = out ++ quoted us; result = success })
unfolding write_json_string write_result close_string merge_results
write_json_string-quoted c us out h =
    rw (utf_encode_all-forms c (codec_of c) us [] (accepted-All c us h)) (
      ground (
        arith,
        decode_forms c (codec_of c) escape_assign us (length (forms c (codec_of c) us))
            (record { out = out ++ (0x22 ∷ []); result = success }) (omega arith)
            (accepted-All c us h),
        write_all-escape_assign us (out ++ (0x22 ∷ [])) h,
        append_assoc (out ++ (0x22 ∷ [])) (escape_forms us) (0x22 ∷ []),
        append_assoc out (0x22 ∷ []) (escape_forms us ++ (0x22 ∷ [])),
      ))

module _ (beyond : ℕ → ℕ) (d : CharSize) where
  loop_step :
      (fuel : ℕ) (src rest s : List ℕ) (u : Unicode)
      → 0 < length src
      → read_round beyond src ≡ char rest u
      → (codec_of d).Accepts u
      → read_loop beyond d (suc fuel) src s success
        ≡ read_loop beyond d fuel rest (s ++ (codec_of d).form u) success
  unfolding read_loop
  loop_step fuel [] rest s u h e a = absurd (omega arith)
  loop_step fuel (x ∷ xs) rest s u h e a = ground (arith, e, (codec_of d).encodes u s a)

  -- The loop over the forms of characters that are not vertical tabs, whatever follows them.
  read_loop-escape_forms :
      (us : List Unicode) (all fuel : ℕ) (tail s : List ℕ)
      → all ≡ length us + fuel
      → All (λ u. IsAccepted u.cp) us
      → All (λ u. u.cp ≢ 0x0B) us
      → read_loop beyond d all (escape_forms us ++ tail) s success
        ≡ read_loop beyond d fuel tail (s ++ forms d (codec_of d) us) success
  read_loop-escape_forms [] all fuel tail s e h n =
      ap (λ f. read_loop beyond d f tail s success) (omega arith)
      ∙ ap (λ o. read_loop beyond d fuel tail o success) (sym (append-nil s))
  read_loop-escape_forms (u ∷ us) zero fuel tail s e h n = absurd (omega arith)
  read_loop-escape_forms (u ∷ us) (suc all) fuel tail s e (hu, h) (nu, n) =
      ap (λ l. read_loop beyond d (suc all) l s success)
        (append_assoc (escape_form u.cp) (escape_forms us) tail)
      ∙ loop_step all (escape_form u.cp ++ (escape_forms us ++ tail)) _ s u
          (omega (
            arith,
            escape_form_nonempty u.cp,
            length-append (escape_form u.cp) (escape_forms us ++ tail),
          ))
          (read_round-escape_form beyond u.cp (escape_forms us ++ tail) hu.1 nu)
          (accepted_everywhere d u hu)
      ∙ read_loop-escape_forms us all fuel tail (s ++ (codec_of d).form u) (omega arith) h n
      ∙ ap (λ o. read_loop beyond d fuel tail o success)
          (append_assoc s ((codec_of d).form u) (forms d (codec_of d) us))

  enough :
      (us : List Unicode) (tail : List ℕ)
      → length us + length tail ≤ length (escape_forms us ++ tail)
  enough [] tail = omega arith
  enough (u ∷ us) tail = omega (
    arith,
    enough us tail,
    escape_form_nonempty u.cp,
    length-append (escape_form u.cp) (escape_forms us),
    length-append (escape_forms us) tail,
    length-append (escape_form u.cp ++ escape_forms us) tail,
  )

  loop_finished :
      (fuel x : ℕ) (src s rest : List ℕ) (r : ResultType)
      → read_round beyond (x ∷ src) ≡ finished rest r
      → read_loop beyond d (suc fuel) (x ∷ src) s success
        ≡ some (record { input = rest; output = s; result = r })
  unfolding read_loop
  loop_finished fuel x src s rest r e = ground (arith, e)

  -- `read_json` of the forms of characters up to something that ends the loop.
  read_json_string-forms :
      (us : List Unicode) (x : ℕ) (tail rest old : List ℕ) (r : ResultType)
      → All (λ u. IsAccepted u.cp) us
      → All (λ u. u.cp ≢ 0x0B) us
      → read_round beyond (x ∷ tail) ≡ finished rest r
      → read_json_string beyond d (0x22 ∷ (escape_forms us ++ (x ∷ tail))) old
        ≡ some (record { input = rest; output = forms d (codec_of d) us; result = r })
  unfolding read_json_string read_quoted starts_with_char skip_whitespace
  read_json_string-forms us x tail rest old r h n e =
      let left = length (escape_forms us ++ (x ∷ tail)) - length us - 1 in
      read_loop-escape_forms us (length (escape_forms us ++ (x ∷ tail))) (suc left) (x ∷ tail) []
        (omega (arith, enough us (x ∷ tail))) h n
      ∙ loop_finished left x tail (forms d (codec_of d) us) rest r e

  -- `read_json` of a quoted text, whatever follows it.
  pub read_json_string-quoted :
      (us : List Unicode) (rest old : List ℕ)
      → All (λ u. IsAccepted u.cp) us
      → All (λ u. u.cp ≢ 0x0B) us
      → read_json_string beyond d (quoted us ++ rest) old
        ≡ some (record { input = rest; output = (utf_encode_all d us []).output; result = success })
  read_json_string-quoted us rest old h n =
      ap (λ l. read_json_string beyond d (0x22 ∷ l) old)
        (append_assoc (escape_forms us) (0x22 ∷ []) rest)
      ∙ read_json_string-forms us 0x22 rest rest old success h n (read_round_quote beyond rest)
      ∙ ap (λ o. some (record { input = rest; output = o; result = success }))
          (sym
            (ap (λ o. o.output) (utf_encode_all-forms d (codec_of d) us [] (accepted-All d us h))))

-- A string of characters that every encoding carries is written by `write_json`, and `read_json`
-- of what was written, whatever follows it, gives the same characters in the encoding of the
-- string that it reads into, and stops behind the closing quotation mark. No character may be a
-- vertical tab.
pub read_json_string-write_json_string :
    (beyond : ℕ → ℕ) (c d : CharSize) (us : List Unicode) (old rest : List ℕ)
    → All (λ u. IsAccepted u.cp) us
    → All (λ u. u.cp ≢ 0x0B) us
    → (w : OutputResult (List ℕ)) × (write_json_string c (utf_encode_all c us []).output []
        ≡ some w)
      × (w.result ≡ success)
      × (read_json_string beyond d (w.output ++ rest) old
          ≡ some
              (record { input = rest; output = (utf_encode_all d us []).output; result = success }))
read_json_string-write_json_string beyond c d us old rest h n = (
  record { output = quoted us; result = success },
  write_json_string-quoted c us [] h,
  refl,
  read_json_string-quoted beyond d us rest old h n,
)

escape_forms-append :
    (us vs : List Unicode) → escape_forms (us ++ vs) ≡ escape_forms us ++ escape_forms vs
escape_forms-append [] vs = refl
escape_forms-append (u ∷ us) vs =
    ap (λ l. escape_form u.cp ++ l) (escape_forms-append us vs)
    ∙ sym (append_assoc (escape_form u.cp) (escape_forms us) (escape_forms vs))

tail_of :
    (us vs : List Unicode) (rest : List ℕ)
    → (escape_forms (us ++ (record { cp = 0x0B } ∷ vs)) ++ (0x22 ∷ [])) ++ rest
      ≡ escape_forms us ++ (0x5C ∷ b'v' ∷ (escape_forms vs ++ (0x22 ∷ rest)))
tail_of us vs rest =
    let vt : Unicode = record { cp = 0x0B } in
    append_assoc (escape_forms (us ++ (vt ∷ vs))) (0x22 ∷ []) rest
    ∙ ap (λ l. l ++ (0x22 ∷ rest)) (escape_forms-append us (vt ∷ vs))
    ∙ append_assoc (escape_forms us) (escape_forms (vt ∷ vs)) (0x22 ∷ rest)

-- A string with a vertical tab is written by `write_json` as well, and `read_json` of what was
-- written fails: the characters before the first vertical tab are read, and no more.
pub read_json_string_vertical_tab :
    (beyond : ℕ → ℕ) (c d : CharSize) (us vs : List Unicode) (old rest : List ℕ)
    → All (λ u. IsAccepted u.cp) us
    → All (λ u. IsAccepted u.cp) vs
    → All (λ u. u.cp ≢ 0x0B) us
    → (w : OutputResult (List ℕ)) × (write_json_string c
          (utf_encode_all c (us ++ (record { cp = 0x0B } ∷ vs)) []).output
          []
        ≡ some w)
      × (w.result ≡ success)
      × (read_json_string beyond d (w.output ++ rest) old
          ≡ some (record {
            input = escape_forms vs ++ (0x22 ∷ rest);
            output = (utf_encode_all d us []).output;
            result = failure;
          }))
read_json_string_vertical_tab beyond c d us vs old rest h k n = (
  record { output = quoted (us ++ (record { cp = 0x0B } ∷ vs)); result = success },
  write_json_string-quoted c (us ++ (record { cp = 0x0B } ∷ vs)) []
      (All-append (λ u. IsAccepted u.cp) us (record { cp = 0x0B } ∷ vs) h (ground arith, k)),
  refl,
  ap (λ l. read_json_string beyond d (0x22 ∷ l) old) (tail_of us vs rest)
      ∙ read_json_string-forms beyond d us 0x5C (b'v' ∷ (escape_forms vs ++ (0x22 ∷ rest)))
          (escape_forms vs ++ (0x22 ∷ rest)) old failure h n
          (read_round_vertical_tab beyond (escape_forms vs ++ (0x22 ∷ rest)))
      ∙ ap
          (λ o.
            some
              (record { input = escape_forms vs ++ (0x22 ∷ rest); output = o; result = failure }))
          (sym
            (ap (λ o. o.output) (utf_encode_all-forms d (codec_of d) us [] (accepted-All d us h)))),
)
