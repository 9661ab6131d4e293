-- ===== src/Json/Form.antt =====
-- What `json_escape` writes for a character.
use skate.Prelude.{ℕ, ◌+◌, ◌-◌, ◌/◌, ◌%◌, ◌≤◌, ◌<◌, ◌≡◌, arith, ◌==◌, ltb, leb, ◌||◌}
use skate.Prelude.{
  if◌then◌else◌, List, [], ◌∷◌, ◌++◌, append_assoc, bit_and, Bool-cases, inl, inr, ltb→lt,
}
use skate.Prelude.Bits.{u8, and_mask, ◌>>◌}
use skate.Results.{success}
use skate.Utf.Unicode.{Unicode, utf16_surrogates, is_valid}
use skate.Utf.Utf8.Form.{value_lem}
use skate.Utf.Utf16.{surrogates_lem}
use skate.Endian.{big_endian_encode}
use skate.Hex.{hex_encode_assign}
use skate.Ascii.Digit.{nibble_to_hex}
use skate.Json.Escape.{escape_word, escape_words, escape_valid, json_escape}

-- The surrogates of a character above 0xffff.
abbrev pub high : ℕ → ℕ
high v = 0xD800 + (v - 0x10000) / 1024

abbrev pub low : ℕ → ℕ
low v = 0xDC00 + (v - 0x10000) % 1024

-- The four digits of a word.
abbrev pub hex_word : ℕ → List ℕ
hex_word w =
    nibble_to_hex (w / 4096)
    ∷ nibble_to_hex (w / 256 % 16)
    ∷ nibble_to_hex (w / 16 % 16)
    ∷ nibble_to_hex (w % 16)
    ∷ []

abbrev pub word_form : ℕ → List ℕ
word_form w = 0x5C ∷ b'u' ∷ hex_word w

abbrev pub short_form : ℕ → List ℕ
short_form c = 0x5C ∷ c ∷ []

abbrev pub escape_form : ℕ → List ℕ
escape_form v =
    if v == 0x08
    then short_form b'b'
    else if v == 0x09
    then short_form b't'
    else if v == 0x0A
    then short_form b'n'
    else if v == 0x0B
    then short_form b'v'
    else if v == 0x0C
    then short_form b'f'
    else if v == 0x0D
    then short_form b'r'
    else if v == 0x5C
    then short_form 0x5C
    else if v == 0x22
    then short_form 0x22
    else if ltb v 32 || leb 127 v
    then if ltb v 0x10000 then word_form v else word_form (high v) ++ word_form (low v)
    else v ∷ []

escape_word-form : (out : List ℕ) (w : ℕ) → w < 0x10000 → escape_word out w ≡ out ++ word_form w
unfolding escape_word big_endian_encode hex_encode_assign
escape_word-form out w h =
    let a : u8 (w >> 8) >> 4 ≡ w / 4096 = omega arith in
    let b : bit_and (u8 (w >> 8)) 0xf ≡ w / 256 % 16 = ground (arith, and_mask 4 (u8 (w >> 8))) in
    let c : u8 (w >> 0) >> 4 ≡ w / 16 % 16 = omega arith in
    let d : bit_and (u8 (w >> 0)) 0xf ≡ w % 16 = ground (arith, and_mask 4 (u8 (w >> 0))) in
    rw (a, b, c, d) (simp append_assoc)

pub surrogates_of :
    (u : Unicode)
    → u.cp ≤ 0x10ffff
    → utf16_surrogates u ≡ (if ltb u.cp 0x10000 then (u.cp, u.cp) else (high u.cp, low u.cp))
unfolding utf16_surrogates
surrogates_of u h = ground (arith, surrogates_lem (u.cp - 0x10000))

escape_words_same :
    (w : ℕ) (out : List ℕ) → w < 0x10000 → escape_words (w, w) out ≡ out ++ word_form w
unfolding escape_words
escape_words_same w out h = ground (arith, escape_word-form out w)

escape_words_two :
    (h l : ℕ) (out : List ℕ)
    → h < l
    → l < 0x10000
    → escape_words (h, l) out ≡ out ++ (word_form h ++ word_form l)
unfolding escape_words
escape_words_two h l out p q = ground (
  arith,
  escape_word-form out h,
  escape_word-form (out ++ word_form h) l,
  append_assoc out (word_form h) (word_form l),
)

escape_words-form :
    (u : Unicode) (out : List ℕ)
    → u.cp ≤ 0x10ffff
    → escape_words (utf16_surrogates u) out
      ≡ out
        ++ (if ltb u.cp 0x10000
            then word_form u.cp
            else word_form (high u.cp) ++ word_form (low u.cp))
escape_words-form u out h = rw (surrogates_of u h) (elim (Bool-cases (ltb u.cp 0x10000)) [
  | inl e ↦ rw e (escape_words_same u.cp out (ltb→lt _ _ e))
  | inr e ↦ rw e (escape_words_two (high u.cp) (low u.cp) out (omega arith) (omega arith))
])

-- `json_escape` of a valid character succeeds and appends its form.
pub json_escape-form :
    (u : Unicode) (out : List ℕ)
    → u.cp ≤ 0x10ffff
    → json_escape u out ≡ record { output = out ++ escape_form u.cp; result = success }
unfolding json_escape escape_valid is_valid
json_escape-form u out h = rw (value_lem u h) (ground (arith, escape_words-form u out h))
