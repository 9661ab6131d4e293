-- ===== src/Utf/Codecs.antt =====
-- The three encodings as instances of the interface.
use skate.Prelude.{◌≤◌, ◌<◌, ◌≡◌, true, [], ◌∷◌, arith, All, length}
use skate.Utf.Unicode.{Unicode, is_valid, IsScalar}
use skate.Utf.Encode.{CharSize, one, two, four}
use skate.Utf.Utf8.Form.{utf8_form, utf8_encode-form}
use skate.Utf.Utf8.Assemble.{IsByte}
use skate.Utf.Utf8.RoundTrip.{IsAccepted, utf8_decode_next-form, utf8_decode_next-IsReadOf}
use skate.Utf.Utf16.{IsWord, utf16_form, utf16_encode-form, utf16_decode_next-form}
use skate.Utf.Utf16.{utf16_decode_next-IsReadOf}
use skate.Utf.Utf32.{IsDword, utf32_encode-form, utf32_decode_next-form, utf32_decode_next-reads}
use skate.Utf.Codec.{Codec}

pub nonempty_one : (u : Unicode) → 0 < length (utf8_form u.cp)
nonempty_one u = ground arith

pub nonempty_two : (u : Unicode) → 0 < length (utf16_form u.cp)
nonempty_two u = ground arith

pub units_one : (u : Unicode) → IsAccepted u.cp → All IsByte (utf8_form u.cp)
units_one u h = ground arith

pub units_two : (u : Unicode) → IsScalar u → All IsWord (utf16_form u.cp)
units_two u h = ground arith

pub valid_all : (u : Unicode) → u.cp ≤ 0x10ffff → is_valid u ≡ true
unfolding is_valid
valid_all u h = ground arith

abbrev pub utf8_codec : Codec one
utf8_codec = record {
  IsUnit = IsByte;
  Accepts = λ u. IsAccepted u.cp;
  form = λ u. utf8_form u.cp;
  nonempty = nonempty_one;
  units = units_one;
  valid = λ u h. valid_all u h.1.0;
  encodes = λ u out h. utf8_encode-form u out h.1.0;
  reads = λ u rest h. utf8_decode_next-form u.cp rest h;
  inverts = λ src h ok. let r = utf8_decode_next-IsReadOf src h ok in (r.accepted, r.form, r.bytes);
}

abbrev pub utf16_codec : Codec two
utf16_codec = record {
  IsUnit = IsWord;
  Accepts = IsScalar;
  form = λ u. utf16_form u.cp;
  nonempty = nonempty_two;
  units = units_two;
  valid = λ u h. valid_all u h.0;
  encodes = λ u out h. utf16_encode-form u out h.0;
  reads = λ u rest h. utf16_decode_next-form u.cp rest h;
  inverts = λ src h ok. let r = utf16_decode_next-IsReadOf src h ok in (r.scalar, r.form, r.words);
}

abbrev pub utf32_codec : Codec four
utf32_codec = record {
  IsUnit = IsDword;
  Accepts = λ u. IsAccepted u.cp;
  form = λ u. u.cp ∷ [];
  nonempty = λ u. omega arith;
  units = λ u h. omega arith;
  valid = λ u h. valid_all u h.1.0;
  encodes = λ u out h. utf32_encode-form u out h.1.0;
  reads = λ u rest h. utf32_decode_next-form u.cp rest h;
  inverts = utf32_decode_next-reads;
}

abbrev pub codec_of : (c : CharSize) → Codec c
codec_of one = utf8_codec
codec_of two = utf16_codec
codec_of four = utf32_codec

-- The values that all three encodings carry both ways.
pub accepted_everywhere : (c : CharSize) (u : Unicode) → IsAccepted u.cp → (codec_of c).Accepts u
accepted_everywhere one u h = h
accepted_everywhere two u h = h.1
accepted_everywhere four u h = h
