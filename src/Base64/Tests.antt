-- ===== src/Base64/Tests.antt =====
-- The theorems on Base64 at concrete bytes.
use skate.Prelude.{ℕ, ◌≡◌, refl, arith, List, [], ◌∷◌, ◌++◌, codes}
use skate.Results.{success}
use skate.Base64.Alphabet.{normal, url, base64_encode_alphabet_for_type}
use skate.Base64.Encode.{base64_encode}
use skate.Base64.Decode.{base64_decode}
use skate.Base64.Form.{base64_form}
use skate.Base64.Rfc.{base64_encode-rfc_form}
use skate.Base64.RoundTrip.{base64_decode-base64_encode}

abbrev four_bytes : List ℕ
four_bytes = 0xFF ∷ 0 ∷ 0x10 ∷ 0x80 ∷ []

encodes_text : base64_form normal (codes "Man!") ≡ codes "TWFuIQ=="
unfolding base64_encode_alphabet_for_type
encodes_text = refl

base64_encode-rfc_form_example : base64_encode four_bytes (7 ∷ []) url ≡ 7 ∷ codes "_wAQgA=="
base64_encode-rfc_form_example = base64_encode-rfc_form url four_bytes (7 ∷ []) (ground arith)

base64_decode-base64_encode_example :
    base64_decode (base64_encode four_bytes [] normal) [] normal
    ≡ record { input = []; output = four_bytes ++ (0 ∷ 0 ∷ []); result = success }
base64_decode-base64_encode_example =
    base64_decode-base64_encode normal four_bytes [] (ground arith)
