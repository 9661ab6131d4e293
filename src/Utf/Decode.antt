-- ===== src/Utf/Decode.antt =====
-- The decoders of skate/containers/utf.h. `first` is the list of units not yet read.
use skate.Prelude.{ℕ, zero, suc, bit_and, bit_or, ◌==◌}
use skate.Prelude.{not, if◌then◌else◌, Option, none, some}
use skate.Prelude.{List, [], ◌∷◌, ◌++◌, get_or, length}
use skate.Prelude.Bits.{◌<<◌, ◌>>◌, u8, u16, u32}
use skate.Results.{success, failure, ParsingResult, merge_results}
use skate.Utf.Unicode.{Unicode, unicode, unicode_pair, is_valid, utf8_size, utf_error}
use skate.Utf.Unicode.{is_utf16_hi_surrogate}
use skate.Utf.Encode.{CharSize, one, two, four, EncodeIterator, assign}

-- `unicode_input_result`.
pub record UnicodeInputResult : Type 0 where
  pub input : List ℕ
  pub character : Unicode

-- The table, indexed by the top five bits.
abbrev pub byte_counts : List ℕ
byte_counts =
    1 ∷ 1 ∷ 1 ∷ 1 ∷ 1 ∷ 1 ∷ 1 ∷ 1 ∷ 1 ∷ 1 ∷ 1 ∷ 1 ∷ 1 ∷ 1 ∷ 1 ∷ 1 ∷ 0 ∷ 0 ∷ 0 ∷ 0 ∷ 0 ∷ 0 ∷ 0 ∷ 0
    ∷ 2 ∷ 2 ∷ 2 ∷ 2 ∷ 3 ∷ 3 ∷ 4 ∷ 0 ∷ []

unfoldable pub utf8_byte_count_for_starting_byte : ℕ → ℕ
utf8_byte_count_for_starting_byte v = get_or byte_counts (v >> 3) 0

-- The loop over the continuation bytes, `left` of them to go: where it stops, and the bytes if
-- they were all there.
unfoldable pub store_byte : ℕ → List ℕ × Option (List ℕ) → List ℕ × Option (List ℕ)
store_byte b (stop, none) = (stop, none)
store_byte b (stop, some bs) = (stop, some (b ∷ bs))

unfoldable pub read_continuation : ℕ → List ℕ → List ℕ × Option (List ℕ)
unfolding store_byte
read_continuation zero first = (first, some [])
read_continuation (suc left) [] = ([], none)
read_continuation (suc left) (b ∷ first) =
    let more = store_byte (bit_and (u8 b) 0x7f) (read_continuation left first) in
    if u8 b >> 6 == 2 then more else (b ∷ first, none)

-- The second `switch (bytes_in_code)`.
unfoldable pub assemble : ℕ → List ℕ → ℕ
assemble start (a ∷ []) = bit_or (bit_and start 0x1f << 6) a
assemble start (a ∷ b ∷ []) = bit_or (bit_or (bit_and start 0x0f << 12) (a << 6)) b
assemble start (a ∷ b ∷ c ∷ []) =
    bit_or (bit_or (bit_or (bit_and start 0x07 << 18) (a << 12)) (b << 6)) c
assemble start _ = 0

unfoldable pub utf8_decode_tail : ℕ → ℕ → List ℕ × Option (List ℕ) → UnicodeInputResult
unfolding assemble unicode utf8_size
utf8_decode_tail start count (first, none) = record { input = first; character = unicode utf_error }
utf8_decode_tail start count (first, some bs) =
    if utf8_size (unicode (assemble start bs)) == count
    then record { input = first; character = unicode (assemble start bs) }
    else record { input = first; character = unicode utf_error }

-- The first `switch (bytes_in_code)`, with the unit that was read, its byte and what follows it.
unfoldable pub utf8_decode_start : ℕ → ℕ → ℕ → List ℕ → UnicodeInputResult
unfolding utf8_decode_tail read_continuation unicode
utf8_decode_start (suc zero) x start first = record { input = first; character = unicode start }
utf8_decode_start (suc (suc zero)) x start first =
    utf8_decode_tail start 2 (read_continuation 1 first)
utf8_decode_start (suc (suc (suc zero))) x start first =
    utf8_decode_tail start 3 (read_continuation 2 first)
utf8_decode_start (suc (suc (suc (suc zero)))) x start first =
    utf8_decode_tail start 4 (read_continuation 3 first)
utf8_decode_start _ x start first = record { input = x ∷ first; character = unicode utf_error }

unfoldable pub utf8_decode_next : List ℕ → UnicodeInputResult
unfolding utf8_decode_start utf8_byte_count_for_starting_byte unicode
utf8_decode_next [] = record { input = []; character = unicode utf_error }
utf8_decode_next (x ∷ first) =
    utf8_decode_start (utf8_byte_count_for_starting_byte (u8 x)) x (u8 x) first

unfoldable pub utf16_decode_low : ℕ → List ℕ → UnicodeInputResult
unfolding unicode unicode_pair is_valid
utf16_decode_low hi [] = record { input = []; character = unicode utf_error }
utf16_decode_low hi (lo ∷ first) =
    if not (is_valid (unicode_pair hi (u16 lo)))
    then record { input = lo ∷ first; character = unicode_pair hi (u16 lo) }
    else record { input = first; character = unicode_pair hi (u16 lo) }

unfoldable pub utf16_decode_next : List ℕ → UnicodeInputResult
unfolding utf16_decode_low is_utf16_hi_surrogate unicode
utf16_decode_next [] = record { input = []; character = unicode utf_error }
utf16_decode_next (w ∷ first) =
    if not (is_utf16_hi_surrogate (u16 w))
    then record { input = first; character = unicode (u16 w) }
    else utf16_decode_low (u16 w) first

unfoldable pub utf32_decode_next : List ℕ → UnicodeInputResult
unfolding unicode
utf32_decode_next [] = record { input = []; character = unicode utf_error }
utf32_decode_next (d ∷ first) = record { input = first; character = unicode (u32 d) }

abbrev pub utf_decode_next : CharSize → List ℕ → UnicodeInputResult
utf_decode_next one = utf8_decode_next
utf_decode_next two = utf16_decode_next
utf_decode_next four = utf32_decode_next

-- `detail::utf_decode_range` over any output iterator `O`; `none` means that the fuel ran out.
module _ {O : Type 0} (p : List ℕ → UnicodeInputResult) (put : O → Unicode → O) where
  unfoldable pub utf_decode_range : ℕ → List ℕ → O → Option (ParsingResult (List ℕ) O)
  utf_decode_range fuel [] out = some (record { input = []; output = out; result = success })
  utf_decode_range zero (x ∷ xs) out = none
  utf_decode_range (suc fuel) (x ∷ xs) out =
      let r = p (x ∷ xs) in
      let rest = utf_decode_range fuel r.input (put out r.character) in
      if not (is_valid r.character)
      then some (record { input = r.input; output = out; result = failure })
      else rest

abbrev pub push_back : List Unicode → Unicode → List Unicode
push_back out u = out ++ (u ∷ [])

-- Each round reads a unit at least, so the length of the input is fuel enough.
unfoldable pub utf_decode :
    CharSize → List ℕ → List Unicode → Option (ParsingResult (List ℕ) (List Unicode))
utf_decode c first out = utf_decode_range (utf_decode_next c) push_back (length first) first out

unfoldable pub transcode_result :
    ParsingResult (List ℕ) EncodeIterator → ParsingResult (List ℕ) (List ℕ)
transcode_result t = record {
  input = t.input;
  output = t.output.out;
  result = merge_results t.result t.output.result;
}

-- `utf_transcode`: the decoder writes into an encoding iterator.
unfoldable pub utf_transcode :
    CharSize → CharSize → List ℕ → List ℕ → Option (ParsingResult (List ℕ) (List ℕ))
unfolding transcode_result merge_results
utf_transcode from to first out =
    elim (utf_decode_range (utf_decode_next from) (assign to) (length first) first
      (record { out = out; result = success })) [ none ↦ none | some t ↦ some (transcode_result t) ]
