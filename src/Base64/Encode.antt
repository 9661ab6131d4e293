-- ===== src/Base64/Encode.antt =====
-- `base64_encode_iterator` and `base64_encode` of skate/io/adapters/base64.h.
use skate.Prelude.{ℕ, ◌+◌, ◌-◌, ◌*◌, bit_and, bit_or, ◌==◌, if◌then◌else◌, List, [], ◌∷◌, ◌++◌}
use skate.Prelude.Bits.{◌<<◌, ◌>>◌, u8, ulong}
use skate.Base64.Alphabet.{Base64Type, base64_encode_alphabet_for_type, char_at}

pub record EncodeIterator : Type 0 where
  pub out : List ℕ
  pub state : ℕ
  pub bytes_in_state : ℕ
  pub alphabet : List ℕ

unfoldable pub encode_iterator : List ℕ → Base64Type → EncodeIterator
encode_iterator out type = record {
  out = out;
  state = 0;
  bytes_in_state = 0;
  alphabet = base64_encode_alphabet_for_type type;
}

-- The four characters of a full state.
abbrev pub quad : List ℕ → ℕ → List ℕ
quad al st =
    char_at al (st >> 18)
    ∷ char_at al (bit_and (st >> 12) 0x3f)
    ∷ char_at al (bit_and (st >> 6) 0x3f)
    ∷ char_at al (bit_and st 0x3f)
    ∷ []

-- `operator=`.
unfoldable pub assign : EncodeIterator → ℕ → EncodeIterator
assign it byte_value =
    let st = ulong (bit_or (it.state << 8) byte_value) in
    if it.bytes_in_state + 1 == 3
    then record it { out = it.out ++ quad it.alphabet st; state = 0; bytes_in_state = 0 }
    else record it { state = st; bytes_in_state = it.bytes_in_state + 1 }

abbrev pub padding_of : List ℕ → List ℕ
padding_of al = if char_at al 64 == 0 then [] else char_at al 64 ∷ []

unfoldable pub finish_out : List ℕ → ℕ → ℕ → List ℕ → List ℕ
finish_out al st n out =
    let two = out ++ (char_at al (st >> 18) ∷ char_at al (bit_and (st >> 12) 0x3f) ∷ []) in
    if n == 2
    then (two ++ (char_at al (bit_and (st >> 6) 0x3f) ∷ [])) ++ padding_of al
    else (two ++ padding_of al) ++ padding_of al

unfoldable pub finish : EncodeIterator → EncodeIterator
unfolding finish_out
finish it = if it.bytes_in_state == 0 then it else record it {
  out =
      finish_out it.alphabet (ulong (it.state << (8 * (3 - it.bytes_in_state)))) it.bytes_in_state
        it.out;
  state = 0;
  bytes_in_state = 0;
}

unfoldable pub assign_all : EncodeIterator → List ℕ → EncodeIterator
assign_all it [] = it
assign_all it (b ∷ first) = assign_all (assign it (u8 b)) first

unfoldable pub base64_encode : List ℕ → List ℕ → Base64Type → List ℕ
unfolding finish assign_all encode_iterator
base64_encode first out type = (finish (assign_all (encode_iterator out type) first)).out

unfoldable pub to_base64 : List ℕ → Base64Type → List ℕ
to_base64 range type = base64_encode range [] type
