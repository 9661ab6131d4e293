-- ===== src/Json/ReadString.antt =====
-- `read_json` of a string, of skate/io/adapters/json.h, and the helpers of
-- skate/io/adapters/core.h that it calls. The input is UTF-8.
use skate.Prelude.{ℕ, zero, suc, ◌==◌, ltb, ◌||◌, not, if◌then◌else◌, Option, none, some}
use skate.Prelude.{List, [], ◌∷◌, length, bit_or, codes}
use skate.Prelude.Bits.{◌<<◌, u8, u16}
use skate.Results.{ResultType, success, failure, ParsingResult, InputResult}
use skate.Utf.Unicode.{Unicode, unicode, unicode_pair, is_valid, value, is_utf16_hi_surrogate}
use skate.Utf.Encode.{CharSize, utf_encode}
use skate.Utf.Decode.{UnicodeInputResult, utf8_decode_next}
use skate.Ascii.Digit.{hex_to_nibble}

unfoldable pub skip_whitespace : List ℕ → List ℕ
skip_whitespace [] = []
skip_whitespace (c ∷ first) =
    let rest = skip_whitespace first in
    if c == b' ' || c == 9 || c == 10 || c == 13 then rest else c ∷ first

-- `starts_with` of one character.
unfoldable pub starts_with_char : List ℕ → ℕ → InputResult (List ℕ)
starts_with_char [] c = record { input = []; result = failure }
starts_with_char (x ∷ first) c =
    if x == c
    then record { input = first; result = success }
    else record { input = x ∷ first; result = failure }

-- `starts_with` of a text. An input that ends inside the text is taken for a match.
unfoldable pub starts_with : List ℕ → List ℕ → InputResult (List ℕ)
starts_with [] s = record { input = []; result = success }
starts_with (x ∷ first) [] = record { input = x ∷ first; result = success }
starts_with (x ∷ first) (c ∷ s) =
    let rest = starts_with first s in
    if x == c then rest else record { input = x ∷ first; result = failure }

-- How a round of the loop ends: with a return, or with a character to add.
pub data Round : Type 0 where
  finished : List ℕ → ResultType → Round
  char : List ℕ → Unicode → Round

module _ (beyond : ℕ → ℕ) where
  -- The loop over the hexadecimal digits, `left` of them to go.
  unfoldable pub read_hex : ℕ → ℕ → List ℕ → List ℕ × Option ℕ
  read_hex zero word first = (first, some word)
  read_hex (suc left) word first =
      let h = utf8_decode_next first in
      let nibble = hex_to_nibble beyond (value h.character) in
      let rest = read_hex left (u16 (bit_or (word << 4) (u8 nibble))) h.input in
      if ltb 15 nibble then (h.input, none) else rest

  unfoldable pub pair_with : ℕ → List ℕ × Option ℕ → Round
  pair_with hi (first, none) = finished first failure
  pair_with hi (first, some lo) = char first (unicode_pair hi lo)

  unfoldable pub second_word : ℕ → List ℕ → ResultType → Round
  second_word hi first failure = finished first failure
  second_word hi first success = pair_with hi (read_hex 4 0 first)

  -- Behind the first four digits. A high surrogate wants a second escape.
  unfoldable pub first_word : List ℕ × Option ℕ → Round
  first_word (first, none) = finished first failure
  first_word (first, some hi) =
      let more = starts_with first (codes "\\u") in
      let pair = second_word hi more.input more.result in
      if not (is_utf16_hi_surrogate hi) then char first (unicode hi) else pair

  -- The `switch` behind a backslash.
  unfoldable pub read_escape : UnicodeInputResult → Round
  read_escape r =
      let v = value r.character in
      let word = first_word (read_hex 4 0 r.input) in
      if v == 0x22 || v == 0x5C || v == b'/'
      then char r.input r.character
      else if v == b'b'
      then char r.input (unicode 8)
      else if v == b'f'
      then char r.input (unicode 12)
      else if v == b'n'
      then char r.input (unicode 10)
      else if v == b'r'
      then char r.input (unicode 13)
      else if v == b't'
      then char r.input (unicode 9)
      else if v == b'u'
      then word
      else finished r.input failure

  -- A round of the loop, up to the character that it adds.
  unfoldable pub read_round : List ℕ → Round
  read_round first =
      let r = utf8_decode_next first in
      let escaped = read_escape (utf8_decode_next r.input) in
      if not (is_valid r.character)
      then finished r.input failure
      else if value r.character == 0x22
      then finished r.input success
      else if value r.character == 0x5C
      then escaped
      else char r.input r.character

  -- The loop. The string is the output; `none` means that the fuel ran out.
  module _ (d : CharSize) where
    unfoldable pub read_loop :
        ℕ → List ℕ → List ℕ → ResultType → Option (ParsingResult (List ℕ) (List ℕ))
    read_loop fuel [] s result = some (record { input = []; output = s; result = failure })
    read_loop fuel (x ∷ xs) s failure =
        some (record { input = x ∷ xs; output = s; result = failure })
    read_loop zero (x ∷ xs) s success = none
    read_loop (suc fuel) (x ∷ xs) s success = elim (read_round (x ∷ xs)) [
      | finished first r ↦ some (record { input = first; output = s; result = r })
      | char first u ↦ read_loop fuel first (utf_encode d u s).output (utf_encode d u s).result
    ]

    unfoldable pub read_quoted :
        InputResult (List ℕ) → List ℕ → Option (ParsingResult (List ℕ) (List ℕ))
    read_quoted r s = elim r.result [
      | failure ↦ some (record { input = r.input; output = s; result = failure })
      | success ↦ read_loop (length r.input) r.input [] success
    ]

    -- `read_json` into the string `s`, whose units have the size `d`.
    unfoldable pub read_json_string : List ℕ → List ℕ → Option (ParsingResult (List ℕ) (List ℕ))
    read_json_string first s = read_quoted (starts_with_char (skip_whitespace first) 0x22) s
