-- ===== src/Url/PercentRoundTrip.antt =====
-- What percent decoding makes of a string that has been percent encoded, in the class `url` of
-- skate/socket/address.h.
use skate.Prelude.{ℕ, ◌+◌, ◌*◌, ◌/◌, ◌%◌, ◌^◌, ◌<◌, ◌≡◌, refl, sym, ap, ◌∙◌, arith, ◌==◌}
use skate.Prelude.{not, ◌&&◌, ◌||◌, if◌then◌else◌, Bool, true, false, List, [], ◌∷◌, ◌++◌}
use skate.Prelude.{none, some, bit_or, All, append_assoc, append-nil, subst, Bool-cases, inl, inr}
use skate.Prelude.Bits.{◌>>◌, u8, or_field}
use skate.Prelude.Table.{eq_below, holds_below}
use skate.Ascii.Case.{isalnum, isalpha, isdigit}
use skate.Ascii.Digit.{hex_to_nibble, nibble_to_hex, hex_to_nibble-nibble_to_hex}
use skate.Url.Percent.{percent_sign, is_plain, is_unreserved, contains, to_percent_encoded}
use skate.Url.Percent.{escaped_byte, push_decoded, decode_escapes}
use skate.Url.Percent.{from_string_helper, percent}

-- The escape of a character.
abbrev pub escape : ℕ → List ℕ
escape c = percent_sign ∷ nibble_to_hex (u8 (c >> 4)) ∷ nibble_to_hex c ∷ []

-- Whether the decoder refuses the escape of a character: one of its digits is F.
abbrev pub has_f : ℕ → Bool
has_f c = (c / 16 == 15) || (c % 16 == 15)

digit_no_percent : (n : ℕ) → n < 256 → (nibble_to_hex n == percent_sign) ≡ false
unfolding nibble_to_hex holds_below
digit_no_percent n h =
    let e =
      eq_below 256 (λ y. if nibble_to_hex y == percent_sign then 1 else 0) (λ y. 0) refl n h in
    ground (arith, e)

module _ (noescape : List ℕ) where
  abbrev pub encoded : List ℕ → List ℕ
  encoded [] = []
  encoded (c ∷ s) = (if is_plain noescape c then c ∷ [] else escape c) ++ encoded s

  -- What is decoded: the string, but for the escapes with a digit F, which stay.
  abbrev pub decoded_text : List ℕ → List ℕ × Bool
  decoded_text [] = ([], false)
  decoded_text (c ∷ s) =
      if not (is_plain noescape c) && has_f c
      then (escape c ++ (decoded_text s).0, true)
      else (c ∷ (decoded_text s).0, (decoded_text s).1)

  to_percent_encoded_lem :
      (append_to s : List ℕ) → to_percent_encoded append_to s noescape ≡ append_to ++ encoded s
  unfolding to_percent_encoded
  to_percent_encoded_lem append_to [] = sym (append-nil append_to)
  to_percent_encoded_lem append_to (c ∷ s) =
      to_percent_encoded_lem (append_to ++ (if is_plain noescape c then c ∷ [] else escape c)) s
      ∙ append_assoc append_to (if is_plain noescape c then c ∷ [] else escape c) (encoded s)

  module _ (beyond : ℕ → ℕ) where
    push_kept :
        (c : ℕ) (r : List ℕ × Bool)
        → (c == percent_sign) ≡ false
        → push_decoded beyond c none r ≡ (c ∷ r.0, r.1)
    push_kept c r e = rw e refl

    -- A character that is no percent sign is kept.
    keep_lem :
        (c : ℕ) (s : List ℕ)
        → (c == percent_sign) ≡ false
        → decode_escapes beyond 0 (c ∷ s)
          ≡ (c ∷ (decode_escapes beyond 0 s).0, (decode_escapes beyond 0 s).1)
    unfolding decode_escapes
    keep_lem c s e = rw e (push_kept c (decode_escapes beyond 0 s) e)

    -- The digits of an escape.
    escaped_byte_lem :
        (c : ℕ) (s : List ℕ)
        → c < 256
        → escaped_byte beyond (nibble_to_hex (u8 (c >> 4)) ∷ nibble_to_hex c ∷ s)
          ≡ (if has_f c then none else some c)
    unfolding escaped_byte
    escaped_byte_lem c s h =
        let hi : hex_to_nibble beyond (nibble_to_hex (u8 (c >> 4))) ≡ c / 16 =
          (hex_to_nibble-nibble_to_hex beyond (u8 (c >> 4)) (omega arith)).0 ∙ omega arith in
        let lo = (hex_to_nibble-nibble_to_hex beyond c h).0 in
        let field : bit_or (c / 16 * 2 ^ 4) (c % 16) ≡ c / 16 * 2 ^ 4 + c % 16 =
          or_field 4 (c / 16) (c % 16) (omega arith) in
        let both : (c / 16 * 2 ^ 4 + c % 16) % 2 ^ 8 ≡ c = omega arith in
        rw (hi, lo, field, both) (ground (arith, h))

    percent_not_plain :
        contains noescape percent_sign ≡ false → is_plain noescape percent_sign ≡ true → ⊥
    unfolding is_plain is_unreserved isalnum isalpha isdigit
    percent_not_plain k p = cc

    -- What is decoded of an encoded character in front of others.
    plain_lem :
        (c : ℕ)
        → contains noescape percent_sign ≡ false
        → is_plain noescape c ≡ true
        → (c == percent_sign) ≡ false
    unfolding is_plain is_unreserved isalnum isalpha isdigit
    plain_lem c k p = elim (Bool-cases (c == percent_sign)) [
      | inr e ↦ e
      | inl e ↦
          let q : c ≡ percent_sign = ground (arith, e) in
          absurd (percent_not_plain k (subst (λ x. is_plain noescape x ≡ true) q p))
    ]

    refused_lem :
        (s : List ℕ)
        → escaped_byte beyond s ≡ none
        → decode_escapes beyond 0 (percent_sign ∷ s)
          ≡ (percent_sign ∷ (decode_escapes beyond 0 s).0, true)
    unfolding decode_escapes
    refused_lem s e = rw e refl

    accepted_lem :
        (h l : ℕ) (s : List ℕ) (b : ℕ)
        → escaped_byte beyond (h ∷ l ∷ s) ≡ some b
        → decode_escapes beyond 0 (percent_sign ∷ h ∷ l ∷ s)
          ≡ (b ∷ (decode_escapes beyond 0 s).0, (decode_escapes beyond 0 s).1)
    unfolding decode_escapes
    accepted_lem h l s b e = rw e refl

    -- Decoding what has been encoded.
    decode_escapes-encoded :
        (s : List ℕ)
        → All (λ c. c < 256) s
        → contains noescape percent_sign ≡ false
        → decode_escapes beyond 0 (encoded s) ≡ decoded_text s
    decode_escapes-encoded [] h k = unfold decode_escapes in refl
    decode_escapes-encoded (c ∷ s) (h, hs) k =
        let r = decode_escapes-encoded s hs k in
        elim (Bool-cases (is_plain noescape c)) [
          | inl p ↦ rw p (keep_lem c (encoded s) (plain_lem c k p) ∙ ap (λ q. (c ∷ q.0, q.1)) r)
          | inr p ↦ elim (Bool-cases (has_f c)) [
            | inl f ↦
                let hi = u8 (c >> 4) in
                let rest = encoded s in
                let e =
                  keep_lem (nibble_to_hex hi) (nibble_to_hex c ∷ rest)
                    (digit_no_percent hi (omega arith)) in
                let e' = keep_lem (nibble_to_hex c) rest (digit_no_percent c h) in
                rw (p, f)
                  (refused_lem (nibble_to_hex hi ∷ nibble_to_hex c ∷ rest)
                      (escaped_byte_lem c rest h ∙ rw f refl)
                    ∙ ap (λ q. (percent_sign ∷ q.0, true)) e
                    ∙ ap (λ q. (percent_sign ∷ nibble_to_hex hi ∷ q.0, true)) e'
                    ∙ ap (λ q. (escape c ++ q.0, true)) r)
            | inr f ↦
                rw (p, f)
                  (accepted_lem (nibble_to_hex (u8 (c >> 4))) (nibble_to_hex c) (encoded s) c
                      (escaped_byte_lem c (encoded s) h ∙ rw f refl)
                    ∙ ap (λ q. (c ∷ q.0, q.1)) r)
          ]
        ]

-- Percent decoding a percent encoded string of bytes, with delimiters that do not contain the
-- percent sign, gives each character back that is plain or whose code has no hexadecimal digit F.
-- An escape with a digit F stays as it is, and is the only error.
pub from_string_helper-to_percent_encoded :
    (beyond : ℕ → ℕ) (noescape s : List ℕ)
    → All (λ c. c < 256) s
    → contains noescape percent_sign ≡ false
    → from_string_helper beyond (to_percent_encoded [] s noescape) percent ≡ decoded_text noescape s
unfolding from_string_helper
from_string_helper-to_percent_encoded beyond noescape s h k =
    ap (decode_escapes beyond 0) (to_percent_encoded_lem noescape [] s)
    ∙ decode_escapes-encoded noescape beyond s h k
