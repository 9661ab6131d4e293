-- ===== src/Base64/RoundTrip.antt =====
-- `base64_decode` on what `base64_encode` wrote, and on what may follow it.
use skate.Prelude.{ℕ, ◌+◌, ◌-◌, ◌*◌, ◌/◌, ◌%◌, ◌<◌}
use skate.Prelude.{◌≡◌, refl, ap, List, [], ◌∷◌, ◌++◌, arith, All}
use skate.Prelude.{true, false, Bool, length, ◌∙◌, sym, append-nil, append_assoc, replicate}
use skate.Results.{success, failure}
use skate.Base64.Alphabet.{Base64Type}
use skate.Base64.Alphabet.{base64_decode_alphabet_for_type}
use skate.Base64.Encode.{base64_encode}
use skate.Base64.Decode.{DecodeState, decode_char, decode_loop, base64_decode}
use skate.Base64.Form.{IsByte, digit_char, base64_form, base64_encode-form}
use skate.Base64.Rounds.{table, state_of, start, decode_char-digit_char, round, pad_round}
use skate.Base64.Rounds.{push_first, push_more, push_padding, push_last, push_last_padding}

-- The first digits of a group.
two_rounds :
    (t : Base64Type) (d e : ℕ) (rest out : List ℕ)
    → d < 64
    → e < 64
    → decode_loop (table t) (digit_char t d ∷ digit_char t e ∷ rest) (start out)
      ≡ decode_loop (table t) rest (state_of (d * 64 + e) 2 false out)
two_rounds t d e rest out hd he =
    round t d (digit_char t e ∷ rest) (start out) (state_of d 1 false out) hd refl
      (push_first d out hd)
    ∙ round t e rest (state_of d 1 false out) (state_of (d * 64 + e) 2 false out) he refl
        (push_more d 1 e false out (omega arith) (omega arith) he)

third_round :
    (t : Base64Type) (st d : ℕ) (rest out : List ℕ)
    → st < 4096
    → d < 64
    → decode_loop (table t) (digit_char t d ∷ rest) (state_of st 2 false out)
      ≡ decode_loop (table t) rest (state_of (st * 64 + d) 3 false out)
third_round t st d rest out hs hd =
    round t d rest (state_of st 2 false out) (state_of (st * 64 + d) 3 false out) hd refl
      (push_more st 2 d false out (omega arith) (omega arith) hd)

last_round :
    (t : Base64Type) (st d a b c : ℕ) (rest out : List ℕ)
    → d < 64
    → All IsByte (a ∷ b ∷ c ∷ [])
    → st * 64 + d ≡ a * 65536 + b * 256 + c
    → decode_loop (table t) (digit_char t d ∷ rest) (state_of st 3 false out)
      ≡ decode_loop (table t) rest (start (out ++ (a ∷ b ∷ c ∷ [])))
last_round t st d a b c rest out hd (ha, (hb, (hc, _))) e =
    round t d rest (state_of st 3 false out) (start (out ++ (a ∷ b ∷ c ∷ []))) hd refl
      (push_last st d a b c false out hd ha hb hc e)

last_padding_round :
    (t : Base64Type) (st a b c : ℕ) (p : Bool) (rest out : List ℕ)
    → All IsByte (a ∷ b ∷ c ∷ [])
    → st * 64 ≡ a * 65536 + b * 256 + c
    → decode_loop (table t) (digit_char t 64 ∷ rest) (state_of st 3 p out)
      ≡ decode_loop (table t) rest (state_of 0 0 true (out ++ (a ∷ b ∷ c ∷ [])))
last_padding_round t st a b c p rest out (ha, (hb, (hc, _))) e =
    pad_round t rest (state_of st 3 p out) (state_of 0 0 true (out ++ (a ∷ b ∷ c ∷ [])))
      (push_last_padding st a b c p out ha hb hc e)

-- The bytes that the decoder writes for `bs`: it fills the last group with zero bytes.
abbrev pub zero_filled : List ℕ → List ℕ
zero_filled [] = []
zero_filled (a ∷ []) = a ∷ 0 ∷ 0 ∷ []
zero_filled (a ∷ b ∷ []) = a ∷ b ∷ 0 ∷ []
zero_filled (a ∷ b ∷ c ∷ rest) = a ∷ b ∷ c ∷ zero_filled rest

-- Whether the form of `bs` ends in padding.
abbrev pub is_padded : List ℕ → Bool
is_padded [] = false
is_padded (a ∷ []) = true
is_padded (a ∷ b ∷ []) = true
is_padded (a ∷ b ∷ c ∷ rest) = is_padded rest

-- The state in which the loop is after the form of `bs`, whatever follows.
decode_loop-form :
    (t : Base64Type) (bs rest out : List ℕ)
    → All IsByte bs
    → decode_loop (table t) (base64_form t bs ++ rest) (start out)
      ≡ decode_loop (table t) rest (state_of 0 0 (is_padded bs) (out ++ zero_filled bs))
decode_loop-form t [] rest out h = rw append-nil refl
decode_loop-form t (a ∷ []) rest out (ha, h) =
    let st = a / 4 * 64 + a % 4 * 16 in
    two_rounds t (a / 4) (a % 4 * 16) _ out (omega arith) (omega arith)
    ∙ pad_round t (digit_char t 64 ∷ rest) (state_of st 2 false out) (state_of (st * 64) 3 true out)
        (push_padding st 2 false out (omega arith) (omega arith))
    ∙ last_padding_round t (st * 64) a 0 0 true rest out (omega arith) (omega arith)
decode_loop-form t (a ∷ b ∷ []) rest out (ha, (hb, h)) =
    let st = a / 4 * 64 + (a % 4 * 16 + b / 16) in
    two_rounds t (a / 4) (a % 4 * 16 + b / 16) _ out (omega arith) (omega arith)
    ∙ third_round t st (b % 16 * 4) _ out (omega arith) (omega arith)
    ∙ last_padding_round t (st * 64 + b % 16 * 4) a b 0 false rest out (omega arith) (omega arith)
decode_loop-form t (a ∷ b ∷ c ∷ bs) rest out (ha, (hb, (hc, h))) =
    let st = a / 4 * 64 + (a % 4 * 16 + b / 16) in
    two_rounds t (a / 4) (a % 4 * 16 + b / 16) _ out (omega arith) (omega arith)
    ∙ third_round t st (b % 16 * 4 + c / 64) _ out (omega arith) (omega arith)
    ∙ last_round t (st * 64 + (b % 16 * 4 + c / 64)) (c % 64) a b c _ out (omega arith)
        (omega arith) (omega arith)
    ∙ decode_loop-form t bs rest (out ++ (a ∷ b ∷ c ∷ [])) h
    ∙ ap (λ o. decode_loop (table t) rest (state_of 0 0 (is_padded bs) o))
        (append_assoc out (a ∷ b ∷ c ∷ []) (zero_filled bs))

-- How `zero_filled` relates to the bytes: they come first, and zeros make up whole groups.
pub zero_filled_lem : (bs : List ℕ) → zero_filled bs ≡ bs ++ replicate ((3 - length bs % 3) % 3) 0
zero_filled_lem [] = refl
zero_filled_lem (a ∷ []) = refl
zero_filled_lem (a ∷ b ∷ []) = refl
zero_filled_lem (a ∷ b ∷ c ∷ bs) =
    let e : (3 - length (a ∷ b ∷ c ∷ bs) % 3) % 3 ≡ (3 - length bs % 3) % 3 = omega arith in
    rw e (ap (λ l. a ∷ b ∷ c ∷ l) (zero_filled_lem bs))

decode_behind :
    (t : Base64Type) (bs rest out : List ℕ)
    → All IsByte bs
    → base64_decode (base64_encode bs [] t ++ rest) out t
      ≡ decode_loop (table t) rest (state_of 0 0 (is_padded bs) (out ++ zero_filled bs))
unfolding base64_decode
decode_behind t bs rest out h = rw (base64_encode-form t bs [] h) (decode_loop-form t bs rest out h)

stops :
    (t : Base64Type) (d : ℕ) (rest : List ℕ) (s : DecodeState)
    → d < 64
    → s.padding_reached ≡ true
    → s.bytes_in_state ≡ 0
    → decode_loop (table t) (digit_char t d ∷ rest) s
      ≡ record { input = digit_char t d ∷ rest; output = s.out; result = success }
stops t d rest s h p n =
    let e = decode_char-digit_char t d (omega arith) in unfold decode_loop in ground (arith, e)

-- Decoding what was encoded succeeds, reads all of it and appends the bytes and then a zero byte
-- for each padding character: 3 - length % 3 of them where the length is no multiple of 3.
pub base64_decode-base64_encode :
    (t : Base64Type) (bs out : List ℕ)
    → All IsByte bs
    → base64_decode (base64_encode bs [] t) out t ≡ record {
      input = [];
      output = out ++ (bs ++ replicate ((3 - length bs % 3) % 3) 0);
      result = success;
    }
base64_decode-base64_encode t bs out h =
    ap (λ l. base64_decode l out t) (sym (append-nil (base64_encode bs [] t)))
    ∙ decode_behind t bs [] out h
    ∙ unfold decode_loop in rw (zero_filled_lem bs)

-- Behind whole groups a character outside the alphabet stops the decoder with a failure at that
-- character; what was decoded before it stands.
base64_decode_invalid :
    (t : Base64Type) (bs rest out : List ℕ) (x : ℕ)
    → All IsByte bs
    → decode_char (base64_decode_alphabet_for_type t) x ≡ 0x7f
    → base64_decode (base64_encode bs [] t ++ (x ∷ rest)) out t
      ≡ record { input = x ∷ rest; output = out ++ zero_filled bs; result = failure }
base64_decode_invalid t bs rest out x h e =
    decode_behind t bs (x ∷ rest) out h ∙ unfold decode_loop in rw e

-- Behind the encoding of bytes that ends in padding the decoder stops at the next digit and
-- succeeds; the bytes are decoded as before.
pub base64_decode_after_padding :
    (t : Base64Type) (bs rest out : List ℕ) (d : ℕ)
    → All IsByte bs
    → d < 64
    → is_padded bs ≡ true
    → base64_decode (base64_encode bs [] t ++ (digit_char t d ∷ rest)) out t
      ≡ record { input = digit_char t d ∷ rest; output = out ++ zero_filled bs; result = success }
base64_decode_after_padding t bs rest out d h hd p =
    let e = decode_char-digit_char t d (omega arith) in
    decode_behind t bs (digit_char t d ∷ rest) out h
    ∙ stops t d rest (state_of 0 0 (is_padded bs) (out ++ zero_filled bs)) hd p refl
