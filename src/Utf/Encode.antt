-- ===== src/Utf/Encode.antt =====
-- The encoders of skate/containers/utf.h and their output iterators.
use skate.Prelude.{ℕ, zero, suc, bit_and, bit_or, ◌==◌}
use skate.Prelude.{not, if◌then◌else◌, List, [], ◌∷◌, ◌++◌}
use skate.Prelude.Bits.{◌>>◌, u8}
use skate.Results.{ResultType, success, failure, OutputResult}
use skate.Utf.Unicode.{Unicode, is_valid, value, utf8_size, utf16_surrogates}

-- `switch (value.utf8_size())`.
unfoldable pub utf8_encode_sized : ℕ → ℕ → List ℕ → OutputResult (List ℕ)
utf8_encode_sized (suc zero) v out = record { output = out ++ (u8 v ∷ []); result = success }
utf8_encode_sized (suc (suc zero)) v out = record {
  output = out ++ (u8 (bit_or 0xC0 (v >> 6)) ∷ u8 (bit_or 0x80 (bit_and v 0x3f)) ∷ []);
  result = success;
}
utf8_encode_sized (suc (suc (suc zero))) v out = record {
  output =
      out
      ++ (u8 (bit_or 0xE0 (v >> 12))
          ∷ u8 (bit_or 0x80 (bit_and (v >> 6) 0x3f))
          ∷ u8 (bit_or 0x80 (bit_and v 0x3f))
          ∷ []);
  result = success;
}
utf8_encode_sized (suc (suc (suc (suc zero)))) v out = record {
  output =
      out
      ++ (u8 (bit_or 0xF0 (v >> 18))
          ∷ u8 (bit_or 0x80 (bit_and (v >> 12) 0x3f))
          ∷ u8 (bit_or 0x80 (bit_and (v >> 6) 0x3f))
          ∷ u8 (bit_or 0x80 (bit_and v 0x3f))
          ∷ []);
  result = success;
}
utf8_encode_sized _ v out = record { output = out; result = failure }

unfoldable pub utf8_encode : Unicode → List ℕ → OutputResult (List ℕ)
unfolding utf8_encode_sized utf8_size value
utf8_encode u out = utf8_encode_sized (utf8_size u) (value u) out

-- The second word is written if the two differ.
unfoldable pub write_surrogates : ℕ × ℕ → List ℕ → OutputResult (List ℕ)
write_surrogates (hi, lo) out =
    if hi == lo
    then record { output = out ++ (hi ∷ []); result = success }
    else record { output = (out ++ (hi ∷ [])) ++ (lo ∷ []); result = success }

unfoldable pub utf16_encode : Unicode → List ℕ → OutputResult (List ℕ)
unfolding is_valid utf16_surrogates write_surrogates
utf16_encode u out =
    if not (is_valid u)
    then record { output = out; result = failure }
    else write_surrogates (utf16_surrogates u) out

unfoldable pub utf32_encode : Unicode → List ℕ → OutputResult (List ℕ)
unfolding is_valid value
utf32_encode u out =
    if not (is_valid u)
    then record { output = out; result = failure }
    else record { output = out ++ (value u ∷ []); result = success }

-- `sizeof(CharT)`, by which `utf_encode` and `utf_decode_next` are selected.
pub data CharSize : Type 0 where
  one : CharSize
  two : CharSize
  four : CharSize

abbrev pub utf_encode : CharSize → Unicode → List ℕ → OutputResult (List ℕ)
utf_encode one = utf8_encode
utf_encode two = utf16_encode
utf_encode four = utf32_encode

-- `detail::utf_encode_range`: the loop goes on while the result is a success.
unfoldable pub utf_encode_range :
    (Unicode → List ℕ → OutputResult (List ℕ))
    → List Unicode
    → List ℕ
    → ResultType
    → OutputResult (List ℕ)
utf_encode_range p [] out result = record { output = out; result = result }
utf_encode_range p (u ∷ us) out failure = record { output = out; result = failure }
utf_encode_range p (u ∷ us) out success = utf_encode_range p us (p u out).output (p u out).result

unfoldable pub utf_encode_all : CharSize → List Unicode → List ℕ → OutputResult (List ℕ)
unfolding utf_encode_range
utf_encode_all c us out = utf_encode_range (utf_encode c) us out success

-- `utf_encode_iterator`: it stops writing at the first failure.
pub record EncodeIterator : Type 0 where
  pub out : List ℕ
  pub result : ResultType

unfoldable pub assign_result : CharSize → ResultType → EncodeIterator → Unicode → EncodeIterator
assign_result c failure it u = it
assign_result c success it u = record {
  out = (utf_encode c u it.out).output;
  result = (utf_encode c u it.out).result;
}

unfoldable pub assign : CharSize → EncodeIterator → Unicode → EncodeIterator
unfolding assign_result
assign c it u = assign_result c it.result it u
