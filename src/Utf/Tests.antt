-- ===== src/Utf/Tests.antt =====
-- Runs of the UTF encoders and decoders, and the theorems on them at concrete strings.
use skate.Prelude.{ℕ, ◌≡◌, refl, arith, false, List, [], ◌∷◌, ◌++◌, some}
use skate.Results.{success, ParsingResult}
use skate.Utf.Unicode.{Unicode, is_valid}
use skate.Utf.Encode.{one, two, utf_encode, utf_encode_all}
use skate.Utf.Decode.{
  utf_decode_range, utf_decode, utf_transcode, utf_decode_next, utf8_decode_next, utf16_decode_next,
  push_back,
}
use skate.Utf.Codecs.{codec_of}
use skate.Utf.Ranges.{IsDecodeOf}
use skate.Utf.Utf8.RoundTrip.{utf8_decode_next-IsReadOf}
use skate.Utf.Utf8.RoundTrip
use skate.Utf.Utf16.{
  utf16_form, utf16_encode-form, utf16_decode_next-form, utf16_decode_next-IsReadOf,
}
use skate.Utf.Utf16
use skate.Utf.Strings.{utf_decode-IsDecodeOf, utf_decode-utf_encode_all, utf_encode_all-utf_decode}
use skate.Utf.Strings.{utf_transcode-utf_encode_all, utf_decode_next-utf_encode}

-- The euro sign, and a broken character behind an `A`.
abbrev euro : List ℕ
euro = 0xE2 ∷ 0x82 ∷ 0xAC ∷ []

abbrev broken : List ℕ
broken = 0x41 ∷ 0xE2 ∷ 0x82 ∷ []

-- The euro sign and a character outside the first plane.
abbrev wide : List Unicode
wide = record { cp = 0x20AC } ∷ record { cp = 0x1F600 } ∷ []

decodes_euro : (utf8_decode_next euro).character.cp ≡ 0x20AC
unfolding utf8_decode_next
decodes_euro = refl

refuses_overlong : is_valid (utf8_decode_next (0xC1 ∷ 0x81 ∷ [])).character ≡ false
unfolding utf8_decode_next is_valid
refuses_overlong = refl

utf_decode-IsDecodeOf_example :
    (r : ParsingResult (List ℕ) (List Unicode)) × (utf_decode one broken [] ≡ some r)
    × IsDecodeOf one (codec_of one) push_back broken [] r
utf_decode-IsDecodeOf_example = utf_decode-IsDecodeOf one broken [] (ground arith)

utf_decode-utf_encode_all_example :
    utf_decode two (utf_encode_all two wide []).output []
    ≡ some (record { input = []; output = wide; result = success })
utf_decode-utf_encode_all_example = utf_decode-utf_encode_all two wide [] (ground arith)

euro_decoded :
    utf_decode one euro []
    ≡ some (record { input = []; output = record { cp = 0x20AC } ∷ []; result = success })
unfolding utf_decode utf_decode_range is_valid utf8_decode_next
euro_decoded = refl

utf_encode_all-utf_decode_example :
    utf_encode_all one (record { cp = 0x20AC } ∷ []) [] ≡ record { output = euro; result = success }
utf_encode_all-utf_decode_example =
    utf_encode_all-utf_decode one euro
      (record { input = []; output = record { cp = 0x20AC } ∷ []; result = success }) (ground arith)
      euro_decoded refl

utf_transcode-utf_encode_all_example :
    utf_transcode one two (utf_encode_all one wide []).output []
    ≡ some (record { input = []; output = (utf_encode_all two wide []).output; result = success })
utf_transcode-utf_encode_all_example = utf_transcode-utf_encode_all one two wide [] (ground arith)

utf_decode_next-utf_encode_example :
    utf_decode_next two ((utf_encode two (record { cp = 0x1f600 }) []).output ++ (7 ∷ []))
    ≡ record { input = 7 ∷ []; character = record { cp = 0x1f600 } }
utf_decode_next-utf_encode_example =
    utf_decode_next-utf_encode two (record { cp = 0x1f600 }) (7 ∷ []) (ground arith)

utf8_decode_next-IsReadOf_example : RoundTrip.IsReadOf euro (utf8_decode_next euro)
unfolding utf8_decode_next is_valid
utf8_decode_next-IsReadOf_example = utf8_decode_next-IsReadOf euro (ground arith) refl

utf16_decode_next-IsReadOf_example :
    Utf16.IsReadOf (0xD83D ∷ 0xDE00 ∷ 7 ∷ []) (utf16_decode_next (0xD83D ∷ 0xDE00 ∷ 7 ∷ []))
unfolding utf16_decode_next is_valid
utf16_decode_next-IsReadOf_example =
    utf16_decode_next-IsReadOf (0xD83D ∷ 0xDE00 ∷ 7 ∷ []) (ground arith) refl

-- The second character is not valid.
abbrev spoiled : List Unicode
spoiled = record { cp = 0x41 } ∷ record { cp = 0x80000000 } ∷ record { cp = 0x42 } ∷ []
