-- ===== src/Url/Percent.antt =====
-- Percent coding in the class `url` of skate/socket/address.h. A string is the list of its bytes.
use skate.Prelude.{ℕ, zero, suc, ◌==◌, ltb, ◌&&◌, ◌||◌, if◌then◌else◌, Bool, false}
use skate.Prelude.{List, [], ◌∷◌, ◌++◌, Option, none, some, bit_or, codes}
use skate.Prelude.Bits.{◌<<◌, ◌>>◌, u8}
use skate.Ascii.Case.{isalnum}
use skate.Ascii.Digit.{hex_to_nibble, nibble_to_hex}

pub data Encoding : Type 0 where
  raw : Encoding
  percent : Encoding

abbrev pub percent_sign : ℕ
percent_sign = b'%'

unfoldable pub is_unreserved : ℕ → Bool
is_unreserved c = isalnum c || c == b'-' || c == b'.' || c == b'_' || c == b'~'

-- `strchr` for a character that is not 0.
abbrev pub contains : List ℕ → ℕ → Bool
contains [] c = false
contains (x ∷ xs) c = (x == c) || contains xs c

-- The delimiters that the parts of a URL keep.
abbrev pub subdelims : List ℕ
subdelims = codes "!$&'()*+,;="

abbrev pub pathdelims : List ℕ
pathdelims = codes "!$&'()*+,;=:@"

abbrev pub queryfragmentdelims : List ℕ
queryfragmentdelims = codes "!$&'()*+,;=:@/?"

abbrev pub querymapdelims : List ℕ
querymapdelims = codes "!$'()*+,;:@/?"

-- Whether a character is written as it is.
unfoldable pub is_plain : List ℕ → ℕ → Bool
unfolding is_unreserved
is_plain noescape c = is_unreserved c || (if c == 0 then false else contains noescape c)

unfoldable pub to_percent_encoded : List ℕ → List ℕ → List ℕ → List ℕ
unfolding is_plain
to_percent_encoded append_to [] noescape = append_to
to_percent_encoded append_to (c ∷ s) noescape =
    let escape = percent_sign ∷ nibble_to_hex (u8 (c >> 4)) ∷ nibble_to_hex c ∷ [] in
    to_percent_encoded (append_to ++ (if is_plain noescape c then c ∷ [] else escape)) s noescape

module _ (beyond : ℕ → ℕ) where
  -- The byte that the two characters behind a percent sign stand for.
  unfoldable pub escaped_byte : List ℕ → Option ℕ
  escaped_byte (h ∷ l ∷ s) =
      let hi = hex_to_nibble beyond h in
      let lo = hex_to_nibble beyond l in
      if ltb hi 15 && ltb lo 15 then some (u8 (bit_or (hi << 4) lo)) else none
  escaped_byte _ = none

  abbrev pub escape_at : ℕ → List ℕ → Option ℕ
  unfolding escaped_byte
  escape_at c s = if c == percent_sign then escaped_byte s else none

  -- What a round adds in front of the result of the others, and whether it is an error.
  abbrev pub push_decoded : ℕ → Option ℕ → List ℕ × Bool → List ℕ × Bool
  push_decoded c (some b) rest = (b ∷ rest.0, rest.1)
  push_decoded c none rest = (c ∷ rest.0, (c == percent_sign) || rest.1)

  abbrev pub skipped : Option ℕ → ℕ
  skipped (some b) = 2
  skipped none = 0

  -- The loop of `from_string_helper`; a round that has decoded a byte makes it skip two characters.
  unfoldable pub decode_escapes : ℕ → List ℕ → List ℕ × Bool
  unfolding escape_at
  decode_escapes skip [] = ([], false)
  decode_escapes (suc skip) (c ∷ s) = decode_escapes skip s
  decode_escapes zero (c ∷ s) =
      push_decoded c (escape_at c s) (decode_escapes (skipped (escape_at c s)) s)

  unfoldable pub from_string_helper : List ℕ → Encoding → List ℕ × Bool
  unfolding decode_escapes
  from_string_helper s raw = (s, false)
  from_string_helper s percent = decode_escapes 0 s
