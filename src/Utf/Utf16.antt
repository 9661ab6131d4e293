-- ===== src/Utf/Utf16.antt =====
-- UTF-16 of skate/containers/utf.h against its definition in RFC 2781.
use skate.Prelude.{ℕ, ◌+◌, ◌-◌, ◌*◌, ◌/◌, ◌%◌, ◌≤◌, ◌<◌}
use skate.Prelude.{ltb, if◌then◌else◌, ◌≡◌, List, [], ◌∷◌, ◌++◌, arith, All}
use skate.Prelude.{true}
use skate.Prelude.{append_assoc}
use skate.Prelude.Bits.{or_field, and_mask}
use skate.Results.{success}
use skate.Utf.Unicode.{Unicode, unicode_pair, is_valid, IsScalar}
use skate.Utf.Unicode.{utf16_surrogate_helper}
use skate.Utf.Encode.{utf16_encode, write_surrogates}
use skate.Utf.Decode.{UnicodeInputResult, utf16_decode_next, utf16_decode_low}

abbrev pub IsWord : ℕ → Type 0
IsWord w = w < 0x10000

-- What RFC 2781 gives for a scalar value.
abbrev pub utf16_form : ℕ → List ℕ
utf16_form v =
    if ltb v 0x10000
    then v ∷ []
    else (0xD800 + (v - 0x10000) / 1024) ∷ (0xDC00 + (v - 0x10000) % 1024) ∷ []

pub surrogates_lem :
    (s : ℕ) → s < 0x100000 → utf16_surrogate_helper s ≡ (0xD800 + s / 1024, 0xDC00 + s % 1024)
unfolding utf16_surrogate_helper
surrogates_lem s h =
    ground (arith, or_field 10 54 (s / 1024), and_mask 10 s, or_field 10 55 (s % 1024))

surrogates-form :
    (h l : ℕ) (out : List ℕ)
    → h < l
    → write_surrogates (h, l) out ≡ record { output = out ++ (h ∷ l ∷ []); result = success }
unfolding write_surrogates
surrogates-form h l out lt = ground (arith, append_assoc out (h ∷ []) (l ∷ []))

-- On a valid value `utf16_encode` succeeds and appends the words that the standard gives.
pub utf16_encode-form :
    (u : Unicode) (out : List ℕ)
    → u.cp ≤ 0x10ffff
    → utf16_encode u out ≡ record { output = out ++ utf16_form u.cp; result = success }
unfolding utf16_encode
utf16_encode-form u out h = ground (
  arith,
  surrogates_lem (u.cp - 0x10000),
  surrogates-form (0xD800 + (u.cp - 0x10000) / 1024) (0xDC00 + (u.cp - 0x10000) % 1024) out,
)

pub unicode_pair_lem :
    (h l : ℕ)
    → h < 1024
    → l < 1024
    → unicode_pair (0xD800 + h) (0xDC00 + l) ≡ record { cp = h * 1024 + l + 0x10000 }
unfolding unicode_pair
unicode_pair_lem h l hh hl =
    ground (arith, and_mask 10 (0xD800 + h), and_mask 10 (0xDC00 + l), or_field 10 h l)

-- The form of a scalar value is read back by `utf16_decode_next`, whatever follows it.
pub utf16_decode_next-form :
    (v : ℕ) (rest : List ℕ)
    → IsScalar (record { cp = v })
    → utf16_decode_next (utf16_form v ++ rest)
      ≡ record { input = rest; character = record { cp = v } }
unfolding utf16_decode_next
utf16_decode_next-form v rest h =
    ground (arith, unicode_pair_lem ((v - 0x10000) / 1024) ((v - 0x10000) % 1024))

pub record IsReadOf (src : List ℕ) (r : UnicodeInputResult) : Type 0 where
  pub scalar : IsScalar r.character
  pub form : src ≡ utf16_form r.character.cp ++ r.input
  pub words : All IsWord r.input

low_IsReadOf :
    (w : ℕ) (first : List ℕ)
    → 0xD800 ≤ w
    → w < 0xDC00
    → All IsWord first
    → is_valid (utf16_decode_low w first).character ≡ true
    → IsReadOf (w ∷ first) (utf16_decode_low w first)
unfolding utf16_decode_low
low_IsReadOf w [] lo hi h ok = ground arith
low_IsReadOf w (l ∷ first) lo hi h ok = ground (arith, unicode_pair_lem (w - 0xD800) (l - 0xDC00))

-- Whenever `utf16_decode_next` of words returns a valid value, it is a scalar value, the words
-- begin with its form, and what is left is what follows the form.
pub utf16_decode_next-IsReadOf :
    (src : List ℕ)
    → All IsWord src
    → is_valid (utf16_decode_next src).character ≡ true
    → IsReadOf src (utf16_decode_next src)
unfolding utf16_decode_next
utf16_decode_next-IsReadOf [] h ok = ground arith
utf16_decode_next-IsReadOf (w ∷ first) h ok = ground (arith, low_IsReadOf w first)
