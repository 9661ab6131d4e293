-- ===== src/Utf/Utf32.antt =====
-- UTF-32 of skate/containers/utf.h.
use skate.Prelude.{ℕ, ◌^◌, ◌≤◌, ◌<◌, ◌≡◌, true, List, [], ◌∷◌, ◌++◌, arith, All}
use skate.Results.{success}
use skate.Utf.Unicode.{Unicode, is_valid}
use skate.Utf.Encode.{utf32_encode}
use skate.Utf.Decode.{utf32_decode_next}
use skate.Utf.Utf8.Form.{value_lem}
use skate.Utf.Utf8.RoundTrip.{IsAccepted, unicode-accepted, unicode-valid}

abbrev pub IsDword : ℕ → Type 0
IsDword d = d < 2 ^ 32

pub utf32_encode-form :
    (u : Unicode) (out : List ℕ)
    → u.cp ≤ 0x10ffff
    → utf32_encode u out ≡ record { output = out ++ (u.cp ∷ []); result = success }
unfolding utf32_encode
utf32_encode-form u out h = ground (arith, value_lem u h)

pub utf32_decode_next-form :
    (v : ℕ) (rest : List ℕ)
    → IsAccepted v
    → utf32_decode_next (v ∷ rest) ≡ record { input = rest; character = record { cp = v } }
unfolding utf32_decode_next
utf32_decode_next-form v rest h = ground (arith, unicode-accepted v h)

pub utf32_decode_next-reads :
    (src : List ℕ)
    → All IsDword src
    → is_valid (utf32_decode_next src).character ≡ true
    → let r = utf32_decode_next src in
      IsAccepted r.character.cp × (src ≡ r.character.cp ∷ r.input) × All IsDword r.input
unfolding utf32_decode_next is_valid
utf32_decode_next-reads [] h ok = ground arith
utf32_decode_next-reads (d ∷ src) h ok = ground (arith, unicode-valid d)
