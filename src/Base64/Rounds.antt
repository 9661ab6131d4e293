-- ===== src/Base64/Rounds.antt =====
-- One round of the loop of `base64_decode`, on a digit and on padding.
use skate.Prelude.{ℕ, ◌+◌, ◌*◌, ◌/◌, ◌^◌, ◌<◌}
use skate.Prelude.{◌≡◌, refl, ap, List, [], ◌∷◌, ◌++◌, arith}
use skate.Prelude.{true, false, Bool, ◌∙◌}
use skate.Prelude.Bits.{or_field_above, and_mask}
use skate.Prelude.Table.{holds_below, eq_below}
use skate.Base64.Alphabet.{Base64Type, normal, url, base64_encode_alphabet_for_type}
use skate.Base64.Alphabet.{base64_decode_alphabet_for_type}
use skate.Base64.Decode.{DecodeState, decode_char, triple, push_digit, decode_loop}
use skate.Base64.Form.{IsByte, digit_char}

abbrev pub table : Base64Type → List ℕ
table t = base64_decode_alphabet_for_type t

-- The decoding alphabet gives each character of the encoding alphabet its index back: the digits
-- from 0 to 63, and 64 for the padding character.
pub decode_char-digit_char :
    (t : Base64Type) (d : ℕ) → d < 65 → decode_char (table t) (digit_char t d) ≡ d
unfolding decode_char base64_encode_alphabet_for_type base64_decode_alphabet_for_type holds_below
decode_char-digit_char normal =
    eq_below 65 (λ d. decode_char (table normal) (digit_char normal d)) (λ d. d) refl
decode_char-digit_char url =
    eq_below 65 (λ d. decode_char (table url) (digit_char url d)) (λ d. d) refl

abbrev pub state_of : ℕ → ℕ → Bool → List ℕ → DecodeState
state_of st n p out = record { state = st; bytes_in_state = n; padding_reached = p; out = out }

-- One round on the character of a digit, and on a padding character.
digit_round :
    (t : Base64Type) (d : ℕ) (first : List ℕ) (s : DecodeState)
    → d < 64
    → s.padding_reached ≡ false
    → decode_loop (table t) (digit_char t d ∷ first) s
      ≡ decode_loop (table t) first (push_digit s d)
digit_round t d first s h p =
    let e = decode_char-digit_char t d (omega arith) in unfold decode_loop in ground (arith, e)

padding_round :
    (t : Base64Type) (first : List ℕ) (s : DecodeState)
    → decode_loop (table t) (digit_char t 64 ∷ first) s
      ≡ decode_loop (table t) first (push_digit s 64)
padding_round t first s =
    let e = decode_char-digit_char t 64 (omega arith) in unfold decode_loop in ground (arith, e)

-- What joins the state after one, two and three digits; the fourth writes three bytes.
pub push_first :
    (d : ℕ) (out : List ℕ) → d < 64 → push_digit (state_of 0 0 false out) d ≡ state_of d 1 false out
unfolding push_digit
push_first d out h = ground (arith, and_mask 6 d, or_field_above 6 0 0 d)

pub push_more :
    (st n d : ℕ) (p : Bool) (out : List ℕ)
    → st < 2 ^ 18
    → n < 3
    → d < 64
    → push_digit (state_of st n p out) d ≡ state_of (st * 64 + d) (n + 1) p out
unfolding push_digit
push_more st n d p out hs hn h = ground (arith, and_mask 6 d, or_field_above 6 (st * 64) st d)

pub push_padding :
    (st n : ℕ) (p : Bool) (out : List ℕ)
    → st < 2 ^ 18
    → n < 3
    → push_digit (state_of st n p out) 64 ≡ state_of (st * 64) (n + 1) true out
unfolding push_digit
push_padding st n p out hs hn = ground (arith, or_field_above 6 (st * 64) st 0)

-- The bytes of a full state.
triple_lem :
    (a b c : ℕ) → IsByte a → IsByte b → IsByte c → triple (a * 65536 + b * 256 + c) ≡ a ∷ b ∷ c ∷ []
triple_lem a b c ha hb hc =
    ground
      (arith, and_mask 8 ((a * 65536 + b * 256 + c) / 2 ^ 8), and_mask 8 (a * 65536 + b * 256 + c))

pub push_last :
    (st d a b c : ℕ) (p : Bool) (out : List ℕ)
    → d < 64
    → IsByte a
    → IsByte b
    → IsByte c
    → st * 64 + d ≡ a * 65536 + b * 256 + c
    → push_digit (state_of st 3 p out) d ≡ state_of 0 0 p (out ++ (a ∷ b ∷ c ∷ []))
unfolding push_digit
push_last st d a b c p out h ha hb hc e =
    ground (arith, and_mask 6 d, or_field_above 6 (st * 64) st d, triple_lem a b c)

pub push_last_padding :
    (st a b c : ℕ) (p : Bool) (out : List ℕ)
    → IsByte a
    → IsByte b
    → IsByte c
    → st * 64 ≡ a * 65536 + b * 256 + c
    → push_digit (state_of st 3 p out) 64 ≡ state_of 0 0 true (out ++ (a ∷ b ∷ c ∷ []))
unfolding push_digit
push_last_padding st a b c p out ha hb hc e =
    ground (arith, or_field_above 6 (st * 64) st 0, triple_lem a b c)

pub round :
    (t : Base64Type) (d : ℕ) (first : List ℕ) (s s' : DecodeState)
    → d < 64
    → s.padding_reached ≡ false
    → push_digit s d ≡ s'
    → decode_loop (table t) (digit_char t d ∷ first) s ≡ decode_loop (table t) first s'
round t d first s s' h p e = digit_round t d first s h p ∙ ap (decode_loop (table t) first) e

pub pad_round :
    (t : Base64Type) (first : List ℕ) (s s' : DecodeState)
    → push_digit s 64 ≡ s'
    → decode_loop (table t) (digit_char t 64 ∷ first) s ≡ decode_loop (table t) first s'
pad_round t first s s' e = padding_round t first s ∙ ap (decode_loop (table t) first) e

abbrev pub start : List ℕ → DecodeState
start out = state_of 0 0 false out
