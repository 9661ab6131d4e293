-- ===== src/Json/Escape.antt =====
-- `json_escape`, its iterator, and `write_json` of a string, of skate/io/adapters/json.h.
use skate.Prelude.{ℕ, ◌==◌, ltb, leb, ◌||◌, not, if◌then◌else◌, Option, none, some, length}
use skate.Prelude.{List, [], ◌∷◌, ◌++◌}
use skate.Results.{ResultType, success, failure, OutputResult, ParsingResult, merge_results}
use skate.Utf.Unicode.{Unicode, is_valid, value, utf16_surrogates}
use skate.Utf.Encode.{CharSize}
use skate.Utf.Decode.{utf_decode_next, utf_decode_range}
use skate.Endian.{big_endian_encode}
use skate.Hex.{hex_encode_assign}

-- A backslash and a letter.
abbrev pub backslash : List ℕ → ℕ → List ℕ
backslash out c = out ++ (0x5C ∷ c ∷ [])

-- `\u` and the four digits of a word.
unfoldable pub escape_word : List ℕ → ℕ → List ℕ
escape_word out w = big_endian_encode hex_encode_assign 2 w (backslash out b'u')

unfoldable pub escape_words : ℕ × ℕ → List ℕ → List ℕ
escape_words (hi, lo) out =
    if hi == lo then escape_word out hi else escape_word (escape_word out hi) lo

-- The `switch` over the value of a valid character.
unfoldable pub escape_valid : Unicode → List ℕ → List ℕ
escape_valid u out =
    let v = value u in
    if v == 0x08
    then backslash out b'b'
    else if v == 0x09
    then backslash out b't'
    else if v == 0x0A
    then backslash out b'n'
    else if v == 0x0B
    then backslash out b'v'
    else if v == 0x0C
    then backslash out b'f'
    else if v == 0x0D
    then backslash out b'r'
    else if v == 0x5C
    then backslash out 0x5C
    else if v == 0x22
    then backslash out 0x22
    else if ltb v 32 || leb 127 v
    then escape_words (utf16_surrogates u) out
    else out ++ (v ∷ [])

unfoldable pub json_escape : Unicode → List ℕ → OutputResult (List ℕ)
json_escape u out =
    if not (is_valid u)
    then record { output = out; result = failure }
    else record { output = escape_valid u out; result = success }

-- `json_escape_iterator`.
pub record EscapeIterator : Type 0 where
  pub out : List ℕ
  pub result : ResultType

unfoldable pub escape_result : ResultType → EscapeIterator → Unicode → EscapeIterator
escape_result failure it u = it
escape_result success it u = record {
  out = (json_escape u it.out).output;
  result = (json_escape u it.out).result;
}

unfoldable pub escape_assign : EscapeIterator → Unicode → EscapeIterator
escape_assign it u = escape_result it.result it u

unfoldable pub close_string : ResultType → List ℕ → OutputResult (List ℕ)
close_string success out = record { output = out ++ (0x22 ∷ []); result = success }
close_string failure out = record { output = out; result = failure }

unfoldable pub write_result : ParsingResult (List ℕ) EscapeIterator → OutputResult (List ℕ)
write_result t = close_string (merge_results t.result t.output.result) t.output.out

-- `write_json` of a string whose units have the size `c`; `none` is a decoder out of fuel.
unfoldable pub write_json_string : CharSize → List ℕ → List ℕ → Option (OutputResult (List ℕ))
write_json_string c v out =
    elim (utf_decode_range (utf_decode_next c) escape_assign (length v) v
      (record { out = out ++ (0x22 ∷ []); result = success })) [
        | none ↦ none
        | some t ↦ some (write_result t)
      ]
