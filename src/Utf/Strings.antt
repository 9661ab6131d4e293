-- ===== src/Utf/Strings.antt =====
-- Whole strings through `utf_encode`, `utf_decode` and `utf_transcode`, in every encoding.
use skate.Prelude.{ℕ, zero, suc, ◌≤◌, ◌<◌, ◌≡◌, refl, sym, ap, ◌∙◌, true}
use skate.Prelude.{List, [], ◌∷◌, ◌++◌, arith, All, length, some}
use skate.Prelude.{append-nil, length-append, ◌==◌, if◌then◌else◌}
use mathlib.Core.Path.{◌≡⟨◌⟩◌, ◌∎}
use skate.Results.{success, ParsingResult}
use skate.Utf.Unicode.{Unicode, utf_error, is_valid, IsScalar}
use skate.Utf.Encode.{CharSize, one, two, four, utf_encode, utf_encode_all, assign}
use skate.Utf.Decode.{utf_decode_next, utf_decode_range, utf_decode, utf_transcode, push_back}
use skate.Utf.Decode.{utf8_decode_next, utf32_decode_next}
use skate.Utf.Codec.{Codec}
use skate.Utf.Codecs.{codec_of, accepted_everywhere}
use skate.Utf.Utf8.Form.{utf8_encode-form}
use skate.Utf.Utf8.RoundTrip.{IsAccepted, utf8_decode_next-form}
use skate.Utf.Utf16.{utf16_encode-form, utf16_decode_next-form}
use skate.Utf.Utf32.{utf32_encode-form, utf32_decode_next-form}
use skate.Utf.Ranges.{write_all, write_all-push_back, forms, IsDecodeOf, utf_encode_all-forms}
use skate.Utf.Ranges.{utf_decode_range-IsDecodeOf, write_all-assign}

-- `utf_decode` returns on every input of code units. It appends the characters of the longest
-- prefix that can be read, and succeeds exactly when that prefix is the whole input; otherwise it
-- stops where the next character cannot be read.
pub utf_decode-IsDecodeOf :
    (c : CharSize) (src : List ℕ) (out : List Unicode)
    → All (codec_of c).IsUnit src
    → (r : ParsingResult (List ℕ) (List Unicode)) × (utf_decode c src out ≡ some r)
      × IsDecodeOf c (codec_of c) push_back src out r
unfolding utf_decode
utf_decode-IsDecodeOf c src out h =
    utf_decode_range-IsDecodeOf c (codec_of c) push_back (length src) src out (omega arith) h

module _ (c : CharSize) (k : Codec c) {O : Type 0} (put : O → Unicode → O) where
  decode_step :
      (fuel : ℕ) (src rest : List ℕ) (u : Unicode) (out : O)
      → 0 < length src
      → utf_decode_next c src ≡ record { input = rest; character = u }
      → is_valid u ≡ true
      → utf_decode_range (utf_decode_next c) put (suc fuel) src out
        ≡ utf_decode_range (utf_decode_next c) put fuel rest (put out u)
  unfolding utf_decode_range
  decode_step fuel [] rest u out h e ok = absurd (omega arith)
  decode_step fuel (x ∷ xs) rest u out h e ok = rw (e, ok)

  pub decode_forms :
      (us : List Unicode) (fuel : ℕ) (out : O)
      → length (forms c k us) ≤ fuel
      → All k.Accepts us
      → utf_decode_range (utf_decode_next c) put fuel (forms c k us) out
        ≡ some (record { input = []; output = write_all put out us; result = success })
  decode_forms [] fuel out h a = unfold utf_decode_range in refl
  decode_forms (u ∷ us) zero out h a =
      absurd (omega (arith, k.nonempty u, length-append (k.form u) (forms c k us)))
  decode_forms (u ∷ us) (suc fuel) out h (hu, a) =
      let l = length-append (k.form u) (forms c k us) in
      let n = k.nonempty u in
      decode_step fuel (k.form u ++ forms c k us) (forms c k us) u out (omega arith)
        (k.reads u (forms c k us) hu) (k.valid u hu)
      ∙ decode_forms us fuel (put out u) (omega arith) a

-- `utf_decode` of what the encoder of a range writes for characters that the encoding carries both
-- ways succeeds, reads all of it and appends the same characters.
pub utf_decode-utf_encode_all :
    (c : CharSize) (us out : List Unicode)
    → All (codec_of c).Accepts us
    → utf_decode c (utf_encode_all c us []).output out
      ≡ some (record { input = []; output = out ++ us; result = success })
unfolding utf_decode
utf_decode-utf_encode_all c us out h = rw (utf_encode_all-forms c (codec_of c) us [] h) (
    decode_forms c (codec_of c) push_back us _ out (omega arith) h
    ∙ rw (write_all-push_back out us))

-- If `utf_decode` of code units succeeds, then encoding the characters that it read succeeds and
-- gives the very units that were read.
pub utf_encode_all-utf_decode :
    (c : CharSize) (src : List ℕ) (r : ParsingResult (List ℕ) (List Unicode))
    → All (codec_of c).IsUnit src
    → utf_decode c src [] ≡ some r
    → r.result ≡ success
    → utf_encode_all c r.output [] ≡ record { output = src; result = success }
utf_encode_all-utf_decode c src r h e ok =
    let (r', e', d) = utf_decode-IsDecodeOf c src [] h in
    let same : r' ≡ r = cc in
    let whole : forms c (codec_of c) d.us ≡ src =
      ground (arith, append-nil (forms c (codec_of c) d.us)) in
    utf_encode_all c r.output []
    ≡⟨ ap (λ x. utf_encode_all c x [])
        (ap (λ x. x.output) (sym same) ∙ d.written ∙ write_all-push_back [] d.us) ⟩
      utf_encode_all c d.us []
    ≡⟨ utf_encode_all-forms c (codec_of c) d.us [] d.accepted ⟩
      record { output = forms c (codec_of c) d.us; result = success }
    ≡⟨ ap (λ x. record { output = x; result = success }) whole ⟩
      record { output = src; result = success } ∎

pub accepted-All :
    (c : CharSize) (us : List Unicode) → All (λ u. IsAccepted u.cp) us → All (codec_of c).Accepts us
accepted-All c [] h = tt
accepted-All c (u ∷ us) (hu, h) = (accepted_everywhere c u hu, accepted-All c us h)

transcode_forms :
    (c d : CharSize) (us : List Unicode) (out : List ℕ)
    → All (codec_of c).Accepts us
    → All (codec_of d).Accepts us
    → utf_transcode c d (forms c (codec_of c) us) out
      ≡ some (record { input = []; output = out ++ forms d (codec_of d) us; result = success })
unfolding utf_transcode
transcode_forms c d us out hc hd = ground (
  arith,
  decode_forms c (codec_of c) (assign d) us (length (forms c (codec_of c) us))
      (record { out = out; result = success }) (omega arith) hc,
  write_all-assign d (codec_of d) us out hd,
)

-- `utf_transcode` of the encoding of characters that all encodings carry both ways succeeds, reads
-- all of it and appends the other encoding of the same characters.
pub utf_transcode-utf_encode_all :
    (c d : CharSize) (us : List Unicode) (out : List ℕ)
    → All (λ u. IsAccepted u.cp) us
    → utf_transcode c d (utf_encode_all c us []).output out
      ≡ some (record { input = []; output = (utf_encode_all d us out).output; result = success })
utf_transcode-utf_encode_all c d us out h =
    let hc = accepted-All c us h in
    let hd = accepted-All d us h in
    ap (λ o. utf_transcode c d o out)
      (ap (λ o. o.output) (utf_encode_all-forms c (codec_of c) us [] hc))
    ∙ transcode_forms c d us out hc hd
    ∙ ap (λ o. some (record { input = []; output = o; result = success }))
        (sym (ap (λ o. o.output) (utf_encode_all-forms d (codec_of d) us out hd)))

largest_utf8 :
    (rest : List ℕ)
    → utf8_decode_next (0xF4 ∷ 0x8F ∷ 0xBF ∷ 0xBF ∷ rest)
      ≡ record { input = rest; character = record { cp = utf_error } }
unfolding utf8_decode_next
largest_utf8 rest = refl

largest_utf32 :
    (rest : List ℕ)
    → utf32_decode_next (0x10ffff ∷ rest)
      ≡ record { input = rest; character = record { cp = utf_error } }
unfolding utf32_decode_next
largest_utf32 rest = refl

-- Of what was written for a scalar value all is read, whatever follows it, and the value comes back
-- but for one: the largest, U+10FFFF, which the constructor of `unicode` turns into an error in UTF-8
-- and UTF-32. UTF-16 gives all back.
pub utf_decode_next-utf_encode :
    (c : CharSize) (u : Unicode) (rest : List ℕ)
    → IsScalar u
    → utf_decode_next c ((utf_encode c u []).output ++ rest) ≡ record {
      input = rest;
      character = elim c [
        | two ↦ u
        | _ ↦ if u.cp == 0x10ffff then record { cp = utf_error } else u
      ];
    }
utf_decode_next-utf_encode one u rest h =
    rw (utf8_encode-form u [] h.0)
      (ground (arith, utf8_decode_next-form u.cp rest, largest_utf8 rest))
utf_decode_next-utf_encode two u rest h =
    rw (utf16_encode-form u [] h.0) (ground (arith, utf16_decode_next-form u.cp rest h))
utf_decode_next-utf_encode four u rest h =
    rw (utf32_encode-form u [] h.0)
      (ground (arith, utf32_decode_next-form u.cp rest, largest_utf32 rest))
