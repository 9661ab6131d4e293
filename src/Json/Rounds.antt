-- ===== src/Json/Rounds.antt =====
-- One round of the loop of `read_json` on what `json_escape` writes.
use skate.Prelude.{
  ℕ, suc, ◌+◌, ◌-◌, ◌*◌, ◌/◌, ◌%◌, ◌≤◌, ◌<◌, ◌≡◌, ◌≢◌, refl, ap, ◌∙◌, arith, ◌==◌, ltb, leb, ◌||◌,
}
use skate.Prelude.{if◌then◌else◌, List, [], ◌∷◌, ◌++◌, bit_or, some, true, false}
use skate.Prelude.Bits.{u8, or_field_above, ◌<<◌, u16}
use skate.Results.{success, failure}
use skate.Utf.Unicode.{unicode, value, is_valid, IsScalar, is_utf16_hi_surrogate, unicode_pair}
use skate.Utf.Utf8.Form.{value_lem}
use skate.Utf.Utf8.RoundTrip.{decode_one, unicode-accepted}
use skate.Utf.Utf16.{unicode_pair_lem}
use skate.Utf.Decode.{utf8_decode_next}
use skate.Ascii.Digit.{nibble_to_hex, hex_to_nibble-nibble_to_hex, nibble_to_hex-lt}
use skate.Json.ReadString.{finished, char, read_hex, read_round, read_escape, first_word}
use skate.Json.ReadString.{second_word, pair_with, starts_with}
use skate.Json.Form.{hex_word, word_form, escape_form, high, low, short_form}

-- The letters of the short escapes, and what they stand for.
data ShortEscape : ℕ → ℕ → Type 0 where
  bell : ShortEscape b'b' 8
  tab : ShortEscape b't' 9
  line : ShortEscape b'n' 10
  feed : ShortEscape b'f' 12
  return : ShortEscape b'r' 13
  quote : ShortEscape 0x22 0x22
  slash : ShortEscape 0x5C 0x5C

module _ (beyond : ℕ → ℕ) where
  read_digit :
      (left word n : ℕ) (rest : List ℕ)
      → word < 4096
      → n < 16
      → read_hex beyond (suc left) word (nibble_to_hex n ∷ rest)
        ≡ read_hex beyond left (word * 16 + n) rest
  unfolding read_hex
  read_digit left word n rest hw hn =
      let (lt, _) = nibble_to_hex-lt n (omega arith) in
      let (e, _) = hex_to_nibble-nibble_to_hex beyond n (omega arith) in
      let v = value_lem (record { cp = nibble_to_hex n }) (omega arith) in
      let t : ltb 15 (n % 16) ≡ false = ground arith in
      let w : u16 (bit_or (word << 4) (u8 (n % 16))) ≡ word * 16 + n =
        ground (arith, or_field_above 4 (word * 16) word n) in
      rw (decode_one (nibble_to_hex n) rest lt, v, e, t, w)

  read_hex_word :
      (w : ℕ) (rest : List ℕ)
      → w < 0x10000
      → read_hex beyond 4 0 (hex_word w ++ rest) ≡ (rest, some w)
  read_hex_word w rest h =
      read_digit 3 0 (w / 4096) _ (omega arith) (omega arith)
      ∙ read_digit 2 (0 * 16 + w / 4096) (w / 256 % 16) _ (omega arith) (omega arith)
      ∙ read_digit 1 ((0 * 16 + w / 4096) * 16 + w / 256 % 16) (w / 16 % 16) _ (omega arith)
          (omega arith)
      ∙ read_digit 0 (((0 * 16 + w / 4096) * 16 + w / 256 % 16) * 16 + w / 16 % 16) (w % 16) rest
          (omega arith) (omega arith)
      ∙ unfold read_hex in ap (λ x. (rest, some x)) (omega arith)

  -- A backslash and `u` lead to the digits.
  round_word :
      (more : List ℕ)
      → read_round beyond (0x5C ∷ b'u' ∷ more) ≡ first_word beyond (read_hex beyond 4 0 more)
  unfolding read_round read_escape utf8_decode_next value is_valid
  round_word more = refl

  word_round :
      (v : ℕ) (rest : List ℕ)
      → IsScalar (record { cp = v })
      → v < 0x10000
      → read_round beyond (word_form v ++ rest) ≡ char rest (record { cp = v })
  word_round v rest h l =
      round_word (hex_word v ++ rest)
      ∙ ap (first_word beyond) (read_hex_word v rest l)
      ∙ unfold first_word is_utf16_hi_surrogate in ground (arith, unicode-accepted v)

  -- A second escape behind a high surrogate.
  first_pair :
      (hi lo : ℕ) (rest : List ℕ)
      → is_utf16_hi_surrogate hi ≡ true
      → lo < 0x10000
      → first_word beyond (word_form lo ++ rest, some hi) ≡ char rest (unicode_pair hi lo)
  unfolding first_word second_word pair_with starts_with
  first_pair hi lo rest h l = rw (h, read_hex_word lo rest l) refl

  high_lem : (v : ℕ) → v ≤ 0x10ffff → is_utf16_hi_surrogate (high v) ≡ true
  unfolding is_utf16_hi_surrogate
  high_lem v h = ground arith

  pair_round :
      (v : ℕ) (rest : List ℕ)
      → 0x10000 ≤ v
      → v ≤ 0x10ffff
      → read_round beyond ((word_form (high v) ++ word_form (low v)) ++ rest)
        ≡ char rest (record { cp = v })
  pair_round v rest h l =
      round_word (hex_word (high v) ++ (word_form (low v) ++ rest))
      ∙ ap (first_word beyond) (read_hex_word (high v) (word_form (low v) ++ rest) (omega arith))
      ∙ first_pair (high v) (low v) rest (high_lem v l) (omega arith)
      ∙ ap (char rest) (
          unicode_pair_lem ((v - 0x10000) / 1024) ((v - 0x10000) % 1024) (omega arith)
            (omega arith))
      ∙ ap (λ x. char rest (record { cp = x })) (omega arith)

  plain_round :
      (v : ℕ) (rest : List ℕ)
      → v < 0x80
      → v ≢ 0x22
      → v ≢ 0x5C
      → read_round beyond (v ∷ rest) ≡ char rest (record { cp = v })
  unfolding read_round is_valid
  plain_round v rest h p q =
      rw (decode_one v rest h) (ground (arith, value_lem (record { cp = v })))

  long_round :
      (v : ℕ) (rest : List ℕ)
      → IsScalar (record { cp = v })
      → read_round beyond
          ((if ltb v 0x10000 then word_form v else word_form (high v) ++ word_form (low v)) ++ rest)
        ≡ char rest (record { cp = v })
  long_round v rest h = ground (arith, word_round v rest, pair_round v rest)

  short_round :
      (c v : ℕ) (rest : List ℕ)
      → ShortEscape c v
      → read_round beyond (short_form c ++ rest) ≡ char rest (record { cp = v })
  unfolding read_round read_escape utf8_decode_next value is_valid unicode
  short_round _ _ rest bell = refl
  short_round _ _ rest tab = refl
  short_round _ _ rest line = refl
  short_round _ _ rest feed = refl
  short_round _ _ rest return = refl
  short_round _ _ rest quote = refl
  short_round _ _ rest slash = refl

  -- Whether the form is a short escape, or another form.
  short_case :
      (c k v : ℕ) (other rest : List ℕ)
      → ShortEscape c k
      → (v ≢ k → read_round beyond (other ++ rest) ≡ char rest (record { cp = v }))
      → read_round beyond ((if v == k then short_form c else other) ++ rest)
        ≡ char rest (record { cp = v })
  short_case c k v other rest e h = ground (arith, short_round c k rest e, h)

  tab_case :
      (v : ℕ) (other rest : List ℕ)
      → v ≢ 0x0B
      → read_round beyond (other ++ rest) ≡ char rest (record { cp = v })
      → read_round beyond ((if v == 0x0B then short_form b'v' else other) ++ rest)
        ≡ char rest (record { cp = v })
  tab_case v other rest n h = ground arith

  last_case :
      (v : ℕ) (rest : List ℕ)
      → IsScalar (record { cp = v })
      → v ≢ 0x5C
      → v ≢ 0x22
      → read_round beyond (
          (if ltb v 32 || leb 127 v
            then if ltb v 0x10000 then word_form v else word_form (high v) ++ word_form (low v)
            else v ∷ [])
          ++ rest)
        ≡ char rest (record { cp = v })
  last_case v rest h p q = ground (arith, long_round v rest h, plain_round v rest)

  -- Every scalar value but the vertical tab is read back from its form.
  pub read_round-escape_form :
      (v : ℕ) (rest : List ℕ)
      → IsScalar (record { cp = v })
      → v ≢ 0x0B
      → read_round beyond (escape_form v ++ rest) ≡ char rest (record { cp = v })
  read_round-escape_form v rest h n = short_case _ 8 v _ rest bell (λ _.
      short_case _ 9 v _ rest tab (λ _. short_case _ 10 v _ rest line (λ _. tab_case v _ rest n (
        short_case _ 12 v _ rest feed (λ _. short_case _ 13 v _ rest return (λ _.
          short_case _ 0x5C v _ rest slash
            (λ p. short_case _ 0x22 v _ rest quote (λ q. last_case v rest h p q))))))))

  -- The form of the vertical tab is no escape that the reader knows.
  pub read_round_vertical_tab :
      (rest : List ℕ) → read_round beyond (escape_form 0x0B ++ rest) ≡ finished rest failure
  unfolding read_round read_escape utf8_decode_next value is_valid
  read_round_vertical_tab rest = refl

  pub read_round_quote : (rest : List ℕ) → read_round beyond (0x22 ∷ rest) ≡ finished rest success
  unfolding read_round utf8_decode_next value is_valid
  read_round_quote rest = refl
