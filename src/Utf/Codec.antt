-- ===== src/Utf/Codec.antt =====
-- What the three encodings of skate/containers/utf.h have in common: the interface by which the
-- loops over a range are proved once.
use skate.Prelude.{ℕ, ◌<◌, ◌≡◌, true, List, ◌++◌, All, length}
use skate.Results.{success}
use skate.Utf.Unicode.{Unicode, is_valid}
use skate.Utf.Encode.{CharSize, utf_encode}
use skate.Utf.Decode.{utf_decode_next}

pub record Codec (c : CharSize) : Type 1 where
  pub IsUnit : ℕ → Type 0
  pub Accepts : Unicode → Type 0
  pub form : Unicode → List ℕ
  pub nonempty : (u : Unicode) → 0 < length (form u)
  pub units : (u : Unicode) → Accepts u → All IsUnit (form u)
  pub valid : (u : Unicode) → Accepts u → is_valid u ≡ true
  pub encodes :
      (u : Unicode) (out : List ℕ)
      → Accepts u
      → utf_encode c u out ≡ record { output = out ++ form u; result = success }
  pub reads :
      (u : Unicode) (rest : List ℕ)
      → Accepts u
      → utf_decode_next c (form u ++ rest) ≡ record { input = rest; character = u }
  pub inverts :
      (src : List ℕ)
      → All IsUnit src
      → is_valid (utf_decode_next c src).character ≡ true
      → let r = utf_decode_next c src in
        Accepts r.character × (src ≡ form r.character ++ r.input) × All IsUnit r.input
