-- ===== src/Base64/Rfc.antt =====
-- The alphabets of RFC 4648 as the document gives them, without the tables of
-- skate/io/adapters/base64.h, and `base64_encode`.
use skate.Prelude.{ℕ, ◌+◌, ◌-◌, ◌*◌, ◌/◌, ◌%◌, ◌<◌, ◌≡◌, refl, ap, ◌∙◌, arith, ◌==◌, ltb}
use skate.Prelude.{if◌then◌else◌, List, [], ◌∷◌, ◌++◌, All}
use skate.Prelude.Table.{eq_below, holds_below}
use skate.Base64.Alphabet.{Base64Type, normal, url, base64_encode_alphabet_for_type}
use skate.Base64.Encode.{base64_encode}
use skate.Base64.Form.{IsByte, digit_char, base64_form, base64_encode-form}

-- Capital letters, small letters, decimal digits, and two characters of the variant.
abbrev pub rfc_char : Base64Type → ℕ → ℕ
rfc_char t d =
    if ltb d 26
    then b'A' + d
    else if ltb d 52
    then b'a' + (d - 26)
    else if ltb d 62
    then b'0' + (d - 52)
    else if d == 62
    then elim t [ normal ↦ b'+' | url ↦ b'-' ]
    else elim t [ normal ↦ b'/' | url ↦ b'_' ]

-- Groups of 24 bits are cut into four digits of 6 bits, most significant first; the last group is
-- filled with zero bits and the sign `=`.
abbrev pub rfc_form : Base64Type → List ℕ → List ℕ
rfc_form t [] = []
rfc_form t (a ∷ []) =
    let group = a * 65536 in
    rfc_char t (group / 262144) ∷ rfc_char t (group / 4096 % 64) ∷ b'=' ∷ b'=' ∷ []
rfc_form t (a ∷ b ∷ []) =
    let group = a * 65536 + b * 256 in
    rfc_char t (group / 262144)
    ∷ rfc_char t (group / 4096 % 64)
    ∷ rfc_char t (group / 64 % 64)
    ∷ b'='
    ∷ []
rfc_form t (a ∷ b ∷ c ∷ rest) =
    let group = a * 65536 + b * 256 + c in
    rfc_char t (group / 262144)
    ∷ rfc_char t (group / 4096 % 64)
    ∷ rfc_char t (group / 64 % 64)
    ∷ rfc_char t (group % 64)
    ∷ rfc_form t rest

digit_char-rfc : (t : Base64Type) (d e : ℕ) → d ≡ e → e < 64 → digit_char t d ≡ rfc_char t e
unfolding base64_encode_alphabet_for_type holds_below
digit_char-rfc normal d e p h = rw p (eq_below 64 (digit_char normal) (rfc_char normal) refl e h)
digit_char-rfc url d e p h = rw p (eq_below 64 (digit_char url) (rfc_char url) refl e h)

padding-rfc : (t : Base64Type) → digit_char t 64 ≡ b'='
unfolding base64_encode_alphabet_for_type
padding-rfc normal = refl
padding-rfc url = refl

base64_form-rfc_form :
    (t : Base64Type) (bs : List ℕ) → All IsByte bs → base64_form t bs ≡ rfc_form t bs
base64_form-rfc_form t [] h = refl
base64_form-rfc_form t (a ∷ []) (ha, h) =
    rw
      (
        digit_char-rfc t (a / 4) (a * 65536 / 262144) (omega arith) (omega arith),
        digit_char-rfc t (a % 4 * 16) (a * 65536 / 4096 % 64) (omega arith) (omega arith),
        padding-rfc t,
      )
      refl
base64_form-rfc_form t (a ∷ b ∷ []) (ha, (hb, h)) =
    let group = a * 65536 + b * 256 in
    rw
      (
        digit_char-rfc t (a / 4) (group / 262144) (omega arith) (omega arith),
        digit_char-rfc t (a % 4 * 16 + b / 16) (group / 4096 % 64) (omega arith) (omega arith),
        digit_char-rfc t (b % 16 * 4) (group / 64 % 64) (omega arith) (omega arith),
        padding-rfc t,
      )
      refl
base64_form-rfc_form t (a ∷ b ∷ c ∷ rest) (ha, (hb, (hc, h))) =
    let group = a * 65536 + b * 256 + c in
    rw
      (
        digit_char-rfc t (a / 4) (group / 262144) (omega arith) (omega arith),
        digit_char-rfc t (a % 4 * 16 + b / 16) (group / 4096 % 64) (omega arith) (omega arith),
        digit_char-rfc t (b % 16 * 4 + c / 64) (group / 64 % 64) (omega arith) (omega arith),
        digit_char-rfc t (c % 64) (group % 64) (omega arith) (omega arith),
        base64_form-rfc_form t rest h,
      )
      refl

-- Encoding bytes keeps what is already written and appends what RFC 4648 says, in both alphabets and
-- with padding.
pub base64_encode-rfc_form :
    (t : Base64Type) (bs out : List ℕ)
    → All IsByte bs
    → base64_encode bs out t ≡ out ++ rfc_form t bs
base64_encode-rfc_form t bs out h =
    base64_encode-form t bs out h ∙ ap (λ l. out ++ l) (base64_form-rfc_form t bs h)
