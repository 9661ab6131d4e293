-- ===== src/Csv/Faults.antt =====
-- Where `write_csv` of skate/io/adapters/csv.h goes wrong: a separator of its own, and strings that
-- cannot be decoded.
use skate.Prelude.{ℕ, zero, suc, ◌≤◌, ◌<◌, ◌≡◌, refl, sym, ap, ◌∙◌, arith, ◌||◌, if◌then◌else◌}
use skate.Prelude.{
  Bool, true, false, Option, none, some, List, [], ◌∷◌, ◌++◌, append_assoc, All, All-append, length,
  length-append,
}
use skate.Prelude.Bits.{u8}
use skate.Results.{success}
use skate.Utf.Unicode.{Unicode, unicode, utf_error}
use skate.Utf.Encode.{CharSize, one, utf_encode_all}
use skate.Utf.Decode.{utf8_decode_next, utf8_decode_start, utf8_byte_count_for_starting_byte}
use skate.Utf.Utf8.Assemble.{byte_count-announced}
use skate.Utf.Utf8.RoundTrip.{IsAccepted}
use skate.Utf.Codecs.{codec_of, accepted_everywhere}
use skate.Utf.Ranges.{forms, utf_encode_all-forms}
use skate.Utf.Strings.{accepted-All}
use skate.Number.Floating.{FloatLibrary}
use skate.Csv.Options.{CsvOptions, default_options, is_special, any_special, starts_blank}
use skate.Csv.Options.{csv_requires_escaping}
use skate.Csv.Write.{write_row}
use skate.Csv.Text.{any_special_step, has_special, quotes, field_text}
use skate.Csv.RoundTrip.{no_special, fields_text, strings, write_row-text}

has_special-append :
    (us vs : List Unicode) → has_special (us ++ vs) ≡ (has_special us || has_special vs)
has_special-append [] vs = refl
has_special-append (u ∷ us) vs = ground (arith, has_special-append us vs)

starts_blank-append :
    (l m n : List ℕ) → 0 < length l → starts_blank (l ++ m) ≡ starts_blank (l ++ n)
unfolding starts_blank
starts_blank-append [] m n h = absurd (omega arith)
starts_blank-append (x ∷ l) m n h = refl

module _ (c : CharSize) where
  -- Two fields that are not quoted, joined by another character.
  quotes-join :
      (u s : Unicode) (us vs : List Unicode)
      → quotes c (u ∷ us) ≡ false
      → quotes c vs ≡ false
      → is_special default_options s ≡ false
      → quotes c ((u ∷ us) ++ (s ∷ vs)) ≡ false
  quotes-join u s us vs h k n =
      let form = (codec_of c).form u in
      let b =
        starts_blank-append form (forms c (codec_of c) (us ++ (s ∷ vs))) (forms c (codec_of c) us)
          ((codec_of c).nonempty u) in
      ground (arith, b, has_special-append us (s ∷ vs))

  not_quoted : (o : CsvOptions) (us : List Unicode) → quotes c us ≡ false → field_text c o us ≡ us
  not_quoted o us h = rw h refl

-- With a separator other than the comma, a string with the separator in it is not quoted: a row of
-- that one string is written like a row of its two parts. All characters are such that every
-- encoding carries them. The parts start with no blank and hold no comma, quotation mark or line
-- ending, the first is not empty, and the separator is none of these characters either.
pub write_row_ambiguous :
    (f : FloatLibrary) (c : CharSize) (o : CsvOptions) (u : Unicode) (us vs out : List Unicode)
    → All (λ v. IsAccepted v.cp) (u ∷ us)
    → All (λ v. IsAccepted v.cp) vs
    → IsAccepted o.separator.cp
    → is_special default_options o.separator ≡ false
    → quotes c (u ∷ us) ≡ false
    → quotes c vs ≡ false
    → write_row f c o (strings c (((u ∷ us) ++ (o.separator ∷ vs)) ∷ [])) out
      ≡ write_row f c o (strings c ((u ∷ us) ∷ vs ∷ [])) out
write_row_ambiguous f c o u us vs out hu hv hs n q r =
    let s = o.separator in
    let joined = (u ∷ us) ++ (s ∷ vs) in
    write_row-text f c o (joined ∷ []) out
      (All-append (λ v. IsAccepted v.cp) (u ∷ us) (s ∷ vs) hu (hs, hv), tt)
    ∙ ap (λ l. some (record { output = out ++ l; result = success })) same
    ∙ sym (write_row-text f c o ((u ∷ us) ∷ vs ∷ []) out (hu, (hv, tt)))
  where
    same :
        fields_text c o true (((u ∷ us) ++ (o.separator ∷ vs)) ∷ [])
        ≡ fields_text c o true ((u ∷ us) ∷ vs ∷ [])
    same =
        rw
          (
            not_quoted c o ((u ∷ us) ++ (o.separator ∷ vs))
                (quotes-join c u o.separator us vs q r n),
            not_quoted c o (u ∷ us) q,
            not_quoted c o vs r,
          )
          (simp append_assoc)

continuation_count : (x : ℕ) → 0x80 ≤ x → x < 0xC0 → utf8_byte_count_for_starting_byte (u8 x) ≡ 0
continuation_count x h l = ground (arith, byte_count-announced (u8 x))

-- A byte that continues a character is not read where one should start.
stuck_decode :
    (x : ℕ) (rest : List ℕ)
    → 0x80 ≤ x
    → x < 0xC0
    → utf8_decode_next (x ∷ rest)
      ≡ record { input = x ∷ rest; character = record { cp = utf_error } }
unfolding utf8_decode_next utf8_decode_start unicode
stuck_decode x rest h l = ap (λ n. utf8_decode_start n x (u8 x) rest) (continuation_count x h l)

-- The loop does not move on there.
stuck_loop :
    (fuel x : ℕ) (rest : List ℕ)
    → 0x80 ≤ x
    → x < 0xC0
    → any_special one default_options fuel (x ∷ rest) ≡ none
unfolding any_special is_special
stuck_loop zero x rest h l = refl
stuck_loop (suc fuel) x rest h l = rw (stuck_decode x rest h l) (stuck_loop fuel x rest h l)

any_special_zero : (l : List ℕ) → 0 < length l → any_special one default_options 0 l ≡ none
unfolding any_special
any_special_zero [] h = absurd (omega arith)
any_special_zero (x ∷ l) h = refl

any_special-stuck :
    (fuel : ℕ) (us : List Unicode) (x : ℕ) (rest : List ℕ)
    → All (λ u. IsAccepted u.cp) us
    → has_special us ≡ false
    → 0x80 ≤ x
    → x < 0xC0
    → any_special one default_options fuel (forms one (codec_of one) us ++ (x ∷ rest)) ≡ none
any_special-stuck fuel [] x rest a n h l = stuck_loop fuel x rest h l
any_special-stuck zero (u ∷ us) x rest a n h l =
    let k = codec_of one in
    any_special_zero (forms one k (u ∷ us) ++ (x ∷ rest))
      (omega (arith, length-append (forms one k (u ∷ us)) (x ∷ rest)))
any_special-stuck (suc fuel) (u ∷ us) x rest (hu, a) n h l =
    let k = codec_of one in
    let more = forms one k us ++ (x ∷ rest) in
    let i = any_special-stuck fuel us x rest a in
    ap (any_special one default_options (suc fuel))
      (append_assoc (k.form u) (forms one k us) (x ∷ rest))
    ∙ any_special_step one fuel (k.form u ++ more) more u
        (omega (arith, k.nonempty u, length-append (k.form u) more))
        (k.reads u more (accepted_everywhere one u hu))
    ∙ ground (arith, i)

no_blank : (b h : Bool) → (b || h) ≡ false → b ≡ false
no_blank true h e = cc e
no_blank false h e = refl

choose_stuck :
    (b : Bool) (r : Option Bool) → b ≡ false → r ≡ none → (if b then some true else r) ≡ none
choose_stuck b r h e = rw (h, e) refl

-- `csv_requires_escaping` of UTF-8 text, with the default options, does not return, however long it
-- runs, if a byte that continues a character, from 0x80 to 0xBF, stands where a character should
-- start, and there are characters before it that every encoding carries, which start with no blank
-- and of which none is a comma, a quotation mark or a line ending.
pub csv_requires_escaping_stuck :
    (fuel : ℕ) (u : Unicode) (us : List Unicode) (x : ℕ) (rest : List ℕ)
    → All (λ v. IsAccepted v.cp) (u ∷ us)
    → quotes one (u ∷ us) ≡ false
    → 0x80 ≤ x
    → x < 0xC0
    → csv_requires_escaping one default_options fuel
        ((utf_encode_all one (u ∷ us) []).output ++ (x ∷ rest))
      ≡ none
unfolding csv_requires_escaping
csv_requires_escaping_stuck fuel u us x rest a n h l =
    let k = codec_of one in
    let src = forms one k (u ∷ us) ++ (x ∷ rest) in
    let e = utf_encode_all-forms one k (u ∷ us) [] (accepted-All one (u ∷ us) a) in
    let s = any_special-stuck fuel (u ∷ us) x rest a in
    let p = append_assoc (k.form u) (forms one k us) (x ∷ rest) in
    let b =
      ap starts_blank p
      ∙ starts_blank-append (k.form u) (forms one k us ++ (x ∷ rest)) (forms one k us)
          (k.nonempty u) in
    ap (λ r. csv_requires_escaping one default_options fuel (r.output ++ (x ∷ rest))) e
    ∙ choose_stuck (starts_blank src) (any_special one default_options fuel src)
        (b ∙ no_blank _ (has_special (u ∷ us)) n) (s (no_special _ (has_special (u ∷ us)) n) h l)
