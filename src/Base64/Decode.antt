-- ===== src/Base64/Decode.antt =====
-- `base64_decode` of skate/io/adapters/base64.h.
use skate.Prelude.{ℕ, zero, suc, ◌+◌, ◌-◌, bit_and, bit_or, ◌==◌, leb, if◌then◌else◌}
use skate.Prelude.{List, [], ◌∷◌, ◌++◌, Bool, true, false}
use skate.Prelude.Bits.{◌<<◌, ◌>>◌, u8, ulong}
use skate.Results.{success, failure, ParsingResult}
use skate.Base64.Alphabet.{Base64Type, base64_decode_alphabet_for_type, char_at}

-- The variables of the loop.
pub record DecodeState : Type 0 where
  pub state : ℕ
  pub bytes_in_state : ℕ
  pub padding_reached : Bool
  pub out : List ℕ

unfoldable pub decode_char : List ℕ → ℕ → ℕ
decode_char al chr = if leb 0x80 chr then 0x7f else char_at al chr

abbrev pub triple : ℕ → List ℕ
triple st = u8 (st >> 16) ∷ u8 (bit_and (st >> 8) 0xff) ∷ u8 (bit_and st 0xff) ∷ []

-- The end of a round: a digit or padding joins the state.
unfoldable pub push_digit : DecodeState → ℕ → DecodeState
push_digit s b =
    let st = ulong (bit_or (s.state << 6) (bit_and b 0x3f)) in
    let reached = if b == 64 then true else s.padding_reached in
    if s.bytes_in_state + 1 == 4
    then record {
      state = 0;
      bytes_in_state = 0;
      padding_reached = reached;
      out = s.out ++ triple st;
    }
    else record {
      state = st;
      bytes_in_state = s.bytes_in_state + 1;
      padding_reached = reached;
      out = s.out;
    }

-- `while (bytes_in_state < 4)`, with the rounds that are left.
unfoldable pub pad_state : ℕ → ℕ → ℕ
pad_state zero st = st
pad_state (suc rounds) st = pad_state rounds (ulong (st << 6))

unfoldable pub decode_end : DecodeState → List ℕ
unfolding pad_state
decode_end s =
    if s.bytes_in_state == 0
    then s.out
    else s.out ++ triple (pad_state (4 - s.bytes_in_state) s.state)

unfoldable pub decode_loop : List ℕ → List ℕ → DecodeState → ParsingResult (List ℕ) (List ℕ)
unfolding decode_end push_digit decode_char
decode_loop al [] s = record { input = []; output = decode_end s; result = success }
decode_loop al (x ∷ first) s =
    let b = decode_char al x in
    let skipped = decode_loop al first s in
    let pushed = decode_loop al first (push_digit s b) in
    if b == 0x7e
    then skipped
    else if b == 0x7f
    then record { input = x ∷ first; output = s.out; result = failure }
    else if b == 64
    then pushed
    else if s.padding_reached
    then record {
      input = x ∷ first;
      output = s.out;
      result = if s.bytes_in_state == 0 then success else failure;
    }
    else pushed

unfoldable pub base64_decode : List ℕ → List ℕ → Base64Type → ParsingResult (List ℕ) (List ℕ)
base64_decode first out type =
    decode_loop (base64_decode_alphabet_for_type type) first
      (record { state = 0; bytes_in_state = 0; padding_reached = false; out = out })
