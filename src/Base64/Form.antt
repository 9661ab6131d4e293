-- ===== src/Base64/Form.antt =====
-- Base64 as RFC 4648 gives it, and `base64_encode`.
use skate.Prelude.{ℕ, ◌+◌, ◌*◌, ◌/◌, ◌%◌, ◌^◌, ◌<◌, bit_and}
use skate.Prelude.{◌≡◌, ap, List, [], ◌∷◌, ◌++◌, arith, All}
use skate.Prelude.{length, ◌∙◌, ◌≢◌, sym, append-nil, append_assoc}
use skate.Prelude.Bits.{or_field_above, and_mask, ◌<<◌, ◌>>◌, u8, ulong}
use skate.Base64.Alphabet.{Base64Type, normal, url, base64_encode_alphabet_for_type, char_at}
use skate.Base64.Encode.{EncodeIterator, quad, assign, assign_all, finish}
use skate.Base64.Encode.{base64_encode, padding_of}

abbrev pub IsByte : ℕ → Type 0
IsByte b = b < 256

-- The character of a digit from 0 to 63, and of padding at 64.
abbrev pub digit_char : Base64Type → ℕ → ℕ
digit_char t d = char_at (base64_encode_alphabet_for_type t) d

-- The digits of three bytes.
abbrev pub digits : Base64Type → ℕ → ℕ → ℕ → List ℕ
digits t a b c =
    digit_char t (a / 4)
    ∷ digit_char t (a % 4 * 16 + b / 16)
    ∷ digit_char t (b % 16 * 4 + c / 64)
    ∷ digit_char t (c % 64)
    ∷ []

abbrev pub base64_form : Base64Type → List ℕ → List ℕ
base64_form t [] = []
base64_form t (a ∷ []) =
    digit_char t (a / 4) ∷ digit_char t (a % 4 * 16) ∷ digit_char t 64 ∷ digit_char t 64 ∷ []
base64_form t (a ∷ b ∷ []) =
    digit_char t (a / 4)
    ∷ digit_char t (a % 4 * 16 + b / 16)
    ∷ digit_char t (b % 16 * 4)
    ∷ digit_char t 64
    ∷ []
base64_form t (a ∷ b ∷ c ∷ rest) = digits t a b c ++ base64_form t rest

module _ (al : List ℕ) where
  abbrev fresh : List ℕ → EncodeIterator
  fresh out = record { out = out; state = 0; bytes_in_state = 0; alphabet = al }

  abbrev after_one : List ℕ → ℕ → EncodeIterator
  after_one out a = record { out = out; state = a; bytes_in_state = 1; alphabet = al }

  abbrev after_two : List ℕ → ℕ → ℕ → EncodeIterator
  after_two out a b = record { out = out; state = a * 256 + b; bytes_in_state = 2; alphabet = al }

  abbrev sextets : ℕ → ℕ → ℕ → List ℕ
  sextets a b c =
      char_at al (a / 4)
      ∷ char_at al (a % 4 * 16 + b / 16)
      ∷ char_at al (b % 16 * 4 + c / 64)
      ∷ char_at al (c % 64)
      ∷ []

  assign_first : (out : List ℕ) (a : ℕ) → IsByte a → assign (fresh out) (u8 a) ≡ after_one out a
  unfolding assign
  assign_first out a h = ground (arith, or_field_above 8 0 0 a)

  assign_second :
      (out : List ℕ) (a b : ℕ)
      → IsByte a
      → IsByte b
      → assign (after_one out a) (u8 b) ≡ after_two out a b
  unfolding assign
  assign_second out a b ha hb = ground (arith, or_field_above 8 (a * 256) a b)

  quad-sextets :
      (a b c : ℕ)
      → IsByte a
      → IsByte b
      → IsByte c
      → quad al (a * 65536 + b * 256 + c) ≡ sextets a b c
  quad-sextets a b c ha hb hc = ground (
    arith,
    and_mask 6 ((a * 65536 + b * 256 + c) / 2 ^ 12),
    and_mask 6 ((a * 65536 + b * 256 + c) / 2 ^ 6),
    and_mask 6 (a * 65536 + b * 256 + c),
  )

  assign_third :
      (out : List ℕ) (a b c : ℕ)
      → IsByte a
      → IsByte b
      → IsByte c
      → assign (after_two out a b) (u8 c) ≡ fresh (out ++ sextets a b c)
  unfolding assign
  assign_third out a b c ha hb hc =
      ground (arith, or_field_above 8 ((a * 256 + b) * 256) (a * 256 + b) c, quad-sextets a b c)

  padding_of_lem : char_at al 64 ≢ 0 → padding_of al ≡ char_at al 64 ∷ []
  padding_of_lem p = ground arith

  finish_one :
      (out : List ℕ) (a : ℕ)
      → IsByte a
      → char_at al 64 ≢ 0
      → (finish (after_one out a)).out
        ≡ out ++ (char_at al (a / 4) ∷ char_at al (a % 4 * 16) ∷ char_at al 64 ∷ char_at al 64 ∷ [])
  unfolding finish
  finish_one out a h p =
      let e1 : ulong (a << 16) >> 18 ≡ a / 4 = omega arith in
      let e2 : bit_and (ulong (a << 16) >> 12) 63 ≡ a % 4 * 16 =
        ground (arith, and_mask 6 (ulong (a << 16) >> 12)) in
      rw (e1, e2, padding_of_lem p) (simp append_assoc)

  finish_two :
      (out : List ℕ) (a b : ℕ)
      → IsByte a
      → IsByte b
      → char_at al 64 ≢ 0
      → (finish (after_two out a b)).out
        ≡ out
          ++ (char_at al (a / 4)
              ∷ char_at al (a % 4 * 16 + b / 16)
              ∷ char_at al (b % 16 * 4)
              ∷ char_at al 64
              ∷ [])
  unfolding finish
  finish_two out a b ha hb p =
      let st = ulong ((a * 256 + b) << 8) in
      let e1 : st >> 18 ≡ a / 4 = omega arith in
      let e2 : bit_and (st >> 12) 63 ≡ a % 4 * 16 + b / 16 =
        ground (arith, and_mask 6 (st >> 12)) in
      let e3 : bit_and (st >> 6) 63 ≡ b % 16 * 4 = ground (arith, and_mask 6 (st >> 6)) in
      rw (e1, e2, e3, padding_of_lem p) (simp append_assoc)

  -- Three bytes at a time.
  assign_all_three :
      (out : List ℕ) (a b c : ℕ) (rest : List ℕ)
      → IsByte a
      → IsByte b
      → IsByte c
      → assign_all (fresh out) (a ∷ b ∷ c ∷ rest) ≡ assign_all (fresh (out ++ sextets a b c)) rest
  unfolding assign_all
  assign_all_three out a b c rest ha hb hc =
      rw (assign_first out a ha, assign_second out a b ha hb, assign_third out a b c ha hb hc)

padding_char : (t : Base64Type) → digit_char t 64 ≢ 0
unfolding base64_encode_alphabet_for_type
padding_char normal = omega arith
padding_char url = omega arith

encode_form :
    (t : Base64Type) (bs out : List ℕ)
    → All IsByte bs
    → (finish (assign_all (fresh (base64_encode_alphabet_for_type t) out) bs)).out
      ≡ out ++ base64_form t bs
encode_form t [] out h = unfold finish assign_all in sym (append-nil out)
encode_form t (a ∷ []) out h =
    let al = base64_encode_alphabet_for_type t in
    unfold assign_all in rw (assign_first al out a h.0) (finish_one al out a h.0 (padding_char t))
encode_form t (a ∷ b ∷ []) out (ha, (hb, h)) =
    let al = base64_encode_alphabet_for_type t in
    unfold assign_all in
    rw (assign_first al out a ha, assign_second al out a b ha hb)
      (finish_two al out a b ha hb (padding_char t))
encode_form t (a ∷ b ∷ c ∷ rest) out (ha, (hb, (hc, h))) =
    let al = base64_encode_alphabet_for_type t in
    rw (assign_all_three al out a b c rest ha hb hc) (
      encode_form t rest (out ++ sextets al a b c) h
      ∙ append_assoc out (sextets al a b c) (base64_form t rest))

-- Encoding keeps what is already written and appends what RFC 4648 gives, padding included.
pub base64_encode-form :
    (t : Base64Type) (bs out : List ℕ)
    → All IsByte bs
    → base64_encode bs out t ≡ out ++ base64_form t bs
unfolding base64_encode
base64_encode-form t bs out h = encode_form t bs out h

-- Three bytes become four characters, and what is left over another four.
length-base64_form :
    (t : Base64Type) (bs : List ℕ) → length (base64_form t bs) ≡ (length bs + 2) / 3 * 4
length-base64_form t [] = omega arith
length-base64_form t (a ∷ []) = omega arith
length-base64_form t (a ∷ b ∷ []) = omega arith
length-base64_form t (a ∷ b ∷ c ∷ rest) = omega (arith, length-base64_form t rest)

-- The length that `to_base64` reserves is the length of the encoding.
pub length-base64_encode :
    (t : Base64Type) (bs : List ℕ)
    → All IsByte bs
    → length (base64_encode bs [] t) ≡ (length bs + 2) / 3 * 4
length-base64_encode t bs h = ap length (base64_encode-form t bs [] h) ∙ length-base64_form t bs
