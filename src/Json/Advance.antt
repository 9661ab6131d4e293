-- ===== src/Json/Advance.antt =====
-- How much of the input the steps of `read_json` read, of skate/io/adapters/json.h: none of them
-- moves back, and the rounds of the loop over a string move on.
use skate.Prelude.{ℕ, zero, suc, ◌≤◌, ◌≡◌, refl, ap, arith}
use skate.Prelude.{
  true, Option, none, some, List, [], ◌∷◌, length, codes, bit_or, bit_and, Bool-cases, inl, inr,
}
use skate.Prelude.Bits.{◌<<◌, u8, u16}
use skate.Results.{ResultType, success, failure}
use skate.Utf.Unicode.{unicode, is_valid, value}
use skate.Utf.Decode.{
  UnicodeInputResult, store_byte, read_continuation, utf8_decode_tail, utf8_decode_start,
}
use skate.Utf.Decode.{utf8_decode_next, utf8_byte_count_for_starting_byte}
use skate.Ascii.Digit.{hex_to_nibble}
use skate.Json.ReadString.{skip_whitespace, starts_with, Round, finished, char}
use skate.Json.ReadString.{read_hex, pair_with, second_word, first_word, read_escape, read_round}

store_byte_stop : (b : ℕ) (p : List ℕ × Option (List ℕ)) → (store_byte b p).0 ≡ p.0
unfolding store_byte
store_byte_stop b (stop, none) = refl
store_byte_stop b (stop, some bs) = refl

read_continuation_le :
    (left : ℕ) (first : List ℕ) → length (read_continuation left first).0 ≤ length first
unfolding read_continuation
read_continuation_le zero first = omega arith
read_continuation_le (suc left) [] = omega arith
read_continuation_le (suc left) (b ∷ first) = ground (
  arith,
  read_continuation_le left first,
  store_byte_stop (bit_and (u8 b) 0x7f) (read_continuation left first),
)

decode_tail_input :
    (start count : ℕ) (p : List ℕ × Option (List ℕ)) → (utf8_decode_tail start count p).input ≡ p.0
unfolding utf8_decode_tail
decode_tail_input start count (first, none) = refl
decode_tail_input start count (first, some bs) = ground arith

-- Nothing is read again, and a valid character is not empty.
abbrev Moves : List ℕ → UnicodeInputResult → Type 0
Moves first r =
    (length r.input ≤ suc (length first))
    × (is_valid r.character ≡ true → length r.input ≤ length first)

tail-Moves :
    (start count left : ℕ) (first : List ℕ)
    → Moves first (utf8_decode_tail start count (read_continuation left first))
tail-Moves start count left first =
    let e = ap length (decode_tail_input start count (read_continuation left first)) in
    let l = read_continuation_le left first in (omega arith, λ v. omega arith)

decode_start-Moves :
    (count x start : ℕ) (first : List ℕ) → Moves first (utf8_decode_start count x start first)
unfolding utf8_decode_start is_valid unicode
decode_start-Moves zero x start first = (omega arith, λ v. cc v)
decode_start-Moves (suc zero) x start first = (omega arith, λ v. omega arith)
decode_start-Moves (suc (suc zero)) x start first = tail-Moves start 2 1 first
decode_start-Moves (suc (suc (suc zero))) x start first = tail-Moves start 3 2 first
decode_start-Moves (suc (suc (suc (suc zero)))) x start first = tail-Moves start 4 3 first
decode_start-Moves (suc (suc (suc (suc (suc n))))) x start first = (omega arith, λ v. cc v)

decode-Moves : (x : ℕ) (first : List ℕ) → Moves first (utf8_decode_next (x ∷ first))
unfolding utf8_decode_next
decode-Moves x first = decode_start-Moves (utf8_byte_count_for_starting_byte (u8 x)) x (u8 x) first

decode_le : (first : List ℕ) → length (utf8_decode_next first).input ≤ length first
unfolding utf8_decode_next
decode_le [] = omega arith
decode_le (x ∷ first) = (decode-Moves x first).0

pub skip_whitespace_le : (first : List ℕ) → length (skip_whitespace first) ≤ length first
unfolding skip_whitespace
skip_whitespace_le [] = omega arith
skip_whitespace_le (c ∷ first) = ground (arith, skip_whitespace_le first)

pub starts_with_le : (first s : List ℕ) → length (starts_with first s).input ≤ length first
unfolding starts_with
starts_with_le [] s = omega arith
starts_with_le (x ∷ first) [] = omega arith
starts_with_le (x ∷ first) (c ∷ s) = ground (arith, starts_with_le first s)

abbrev left_by : Round → List ℕ
left_by (finished first r) = first
left_by (char first u) = first

-- A round that goes on has read something.
abbrev pub Advances : List ℕ → Round → Type 0
Advances first (finished rest r) = length rest ≤ suc (length first)
Advances first (char rest u) = length rest ≤ length first

left_by-Advances :
    (first : List ℕ) (r : Round) → length (left_by r) ≤ length first → Advances first r
left_by-Advances first (finished rest r) h = omega arith
left_by-Advances first (char rest u) h = h

module _ (beyond : ℕ → ℕ) where
  read_hex_le :
      (left word : ℕ) (first : List ℕ) → length (read_hex beyond left word first).0 ≤ length first
  unfolding read_hex
  read_hex_le zero word first = omega arith
  read_hex_le (suc left) word first =
      let h = utf8_decode_next first in
      let nibble = hex_to_nibble beyond (value h.character) in
      ground
        (arith, decode_le first, read_hex_le left (u16 (bit_or (word << 4) (u8 nibble))) h.input)

  pair_with_input : (hi : ℕ) (p : List ℕ × Option ℕ) → left_by (pair_with beyond hi p) ≡ p.0
  unfolding pair_with
  pair_with_input hi (first, none) = refl
  pair_with_input hi (first, some lo) = refl

  second_word_le :
      (hi : ℕ) (first : List ℕ) (r : ResultType)
      → length (left_by (second_word beyond hi first r)) ≤ length first
  unfolding second_word
  second_word_le hi first failure = omega arith
  second_word_le hi first success =
      let p = read_hex beyond 4 0 first in
      omega (arith, read_hex_le 4 0 first, ap length (pair_with_input hi p))

  first_word_le : (p : List ℕ × Option ℕ) → length (left_by (first_word beyond p)) ≤ length p.0
  unfolding first_word
  first_word_le (first, none) = omega arith
  first_word_le (first, some hi) =
      let more = starts_with first (codes "\\u") in
      ground (arith, starts_with_le first (codes "\\u"), second_word_le hi more.input more.result)

  read_escape_le :
      (r : UnicodeInputResult) → length (left_by (read_escape beyond r)) ≤ length r.input
  unfolding read_escape
  read_escape_le r =
      ground (arith, read_hex_le 4 0 r.input, first_word_le (read_hex beyond 4 0 r.input))

  pub read_round-Advances :
      (x : ℕ) (first : List ℕ) → Advances first (read_round beyond (x ∷ first))
  unfolding read_round
  read_round-Advances x first =
      let r = utf8_decode_next (x ∷ first) in
      let m = decode-Moves x first in
      let n = utf8_decode_next r.input in
      elim (Bool-cases (is_valid r.character)) [
        | inr e ↦ rw e (m.0)
        | inl e ↦ rw e (
            ground (
              arith,
              m.1 e,
              decode_le r.input,
              read_escape_le n,
              left_by-Advances first (read_escape beyond n),
            ))
      ]
