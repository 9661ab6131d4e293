-- ===== src/Utf/Utf8/RoundTrip.antt =====
-- `utf8_decode_next` against the byte form of RFC 3629, both ways.
use skate.Prelude.{ℕ, zero, suc, ◌+◌, ◌*◌, ◌/◌, ◌%◌, ◌≤◌, ◌<◌}
use skate.Prelude.{◌≡◌, List, [], ◌∷◌, ◌++◌, arith, All}
use skate.Prelude.{true, Option, none, some}
use skate.Prelude.Bits.{u8}
use skate.Utf.Unicode.{unicode, is_valid, IsScalar}
use skate.Utf.Decode.{UnicodeInputResult, utf8_decode_next, utf8_decode_start, utf8_decode_tail}
use skate.Utf.Decode.{read_continuation, utf8_byte_count_for_starting_byte}
use skate.Utf.Utf8.Form.{utf8_form}
use skate.Utf.Utf8.Assemble.{IsByte, announced, byte_count-announced}
use skate.Utf.Utf8.Assemble.{read_continuation-trailing, Stops, read_continuation-Stops}
use skate.Utf.Utf8.Assemble.{assemble_two, assemble_three, assemble_four}

-- The scalar values that the constructor of `unicode` accepts: all but the last.
abbrev pub IsAccepted : ℕ → Type 0
IsAccepted v = (v < 0x10ffff) × IsScalar (record { cp = v })

pub unicode-accepted : (v : ℕ) → IsAccepted v → unicode v ≡ record { cp = v }
unfolding unicode
unicode-accepted v h = ground arith

pub decode_one :
    (v : ℕ) (rest : List ℕ)
    → v < 0x80
    → utf8_decode_next (v ∷ rest) ≡ record { input = rest; character = record { cp = v } }
unfolding utf8_decode_next
decode_one v rest h = ground (arith, byte_count-announced v, unicode-accepted v)

decode_two :
    (v s a : ℕ) (rest : List ℕ)
    → IsAccepted v
    → 0x80 ≤ v
    → s < 32
    → a < 64
    → v ≡ s * 64 + a
    → utf8_decode_next ((0xC0 + s) ∷ (0x80 + a) ∷ rest)
      ≡ record { input = rest; character = record { cp = v } }
unfolding utf8_decode_next
decode_two v s a rest ok lo hs ha e = ground (
  arith,
  byte_count-announced (0xC0 + s),
  read_continuation-trailing (a ∷ []) rest,
  assemble_two (0xC0 + s) a,
  unicode-accepted v ok,
)

decode_three :
    (v s a b : ℕ) (rest : List ℕ)
    → IsAccepted v
    → 0x800 ≤ v
    → s < 16
    → a < 64
    → b < 64
    → v ≡ s * 4096 + a * 64 + b
    → utf8_decode_next ((0xE0 + s) ∷ (0x80 + a) ∷ (0x80 + b) ∷ rest)
      ≡ record { input = rest; character = record { cp = v } }
unfolding utf8_decode_next
decode_three v s a b rest ok lo hs ha hb e = ground (
  arith,
  byte_count-announced (0xE0 + s),
  read_continuation-trailing (a ∷ b ∷ []) rest,
  assemble_three (0xE0 + s) a b,
  unicode-accepted v ok,
)

decode_four :
    (v s a b c : ℕ) (rest : List ℕ)
    → IsAccepted v
    → 0x10000 ≤ v
    → s < 8
    → a < 64
    → b < 64
    → c < 64
    → v ≡ s * 262144 + a * 4096 + b * 64 + c
    → utf8_decode_next ((0xF0 + s) ∷ (0x80 + a) ∷ (0x80 + b) ∷ (0x80 + c) ∷ rest)
      ≡ record { input = rest; character = record { cp = v } }
unfolding utf8_decode_next
decode_four v s a b c rest ok lo hs ha hb hc e = ground (
  arith,
  byte_count-announced (0xF0 + s),
  read_continuation-trailing (a ∷ b ∷ c ∷ []) rest,
  assemble_four (0xF0 + s) a b c,
  unicode-accepted v ok,
)

-- The form of a scalar value other than U+10FFFF is read back by `utf8_decode_next`, whatever
-- follows it.
pub utf8_decode_next-form :
    (v : ℕ) (rest : List ℕ)
    → IsAccepted v
    → utf8_decode_next (utf8_form v ++ rest)
      ≡ record { input = rest; character = record { cp = v } }
utf8_decode_next-form v rest ok = ground (
  arith,
  decode_one v rest,
  decode_two v (v / 64) (v % 64) rest ok,
  decode_three v (v / 4096) (v / 64 % 64) (v % 64) rest ok,
  decode_four v (v / 262144) (v / 4096 % 64) (v / 64 % 64) (v % 64) rest ok,
)

-- What a valid result of the decoder says of the bytes `src`.
pub record IsReadOf (src : List ℕ) (r : UnicodeInputResult) : Type 0 where
  pub accepted : IsAccepted r.character.cp
  pub form : src ≡ utf8_form r.character.cp ++ r.input
  pub bytes : All IsByte r.input

pub unicode-valid :
    (v : ℕ) → is_valid (unicode v) ≡ true → IsAccepted v × (unicode v ≡ record { cp = v })
unfolding is_valid unicode
unicode-valid v h = ground arith

tail_two :
    (s : ℕ) (first : List ℕ) (r : List ℕ × Option (List ℕ))
    → 0xC0 ≤ s
    → s < 0xE0
    → Stops 1 first r
    → is_valid (utf8_decode_tail s 2 r).character ≡ true
    → IsReadOf (s ∷ first) (utf8_decode_tail s 2 r)
unfolding utf8_decode_tail is_valid
tail_two s first (stop, none) lo hi st h = ground arith
tail_two s first (stop, some []) lo hi st h = ground arith
tail_two s first (stop, some (a ∷ [])) lo hi st h = ground (arith, assemble_two s a)
tail_two s first (stop, some (a ∷ b ∷ bs)) lo hi st h = ground arith

tail_three :
    (s : ℕ) (first : List ℕ) (r : List ℕ × Option (List ℕ))
    → 0xE0 ≤ s
    → s < 0xF0
    → Stops 2 first r
    → is_valid (utf8_decode_tail s 3 r).character ≡ true
    → IsReadOf (s ∷ first) (utf8_decode_tail s 3 r)
unfolding utf8_decode_tail is_valid
tail_three s first (stop, none) lo hi st h = ground arith
tail_three s first (stop, some []) lo hi st h = ground arith
tail_three s first (stop, some (a ∷ [])) lo hi st h = ground arith
tail_three s first (stop, some (a ∷ b ∷ [])) lo hi st h = ground (arith, assemble_three s a b)
tail_three s first (stop, some (a ∷ b ∷ c ∷ bs)) lo hi st h = ground arith

tail_four :
    (s : ℕ) (first : List ℕ) (r : List ℕ × Option (List ℕ))
    → 0xF0 ≤ s
    → s < 0xF8
    → Stops 3 first r
    → is_valid (utf8_decode_tail s 4 r).character ≡ true
    → IsReadOf (s ∷ first) (utf8_decode_tail s 4 r)
unfolding utf8_decode_tail is_valid
tail_four s first (stop, none) lo hi st h = ground arith
tail_four s first (stop, some []) lo hi st h = ground arith
tail_four s first (stop, some (a ∷ [])) lo hi st h = ground arith
tail_four s first (stop, some (a ∷ b ∷ [])) lo hi st h = ground arith
tail_four s first (stop, some (a ∷ b ∷ c ∷ [])) lo hi st h = ground (arith, assemble_four s a b c)
tail_four s first (stop, some (a ∷ b ∷ c ∷ d ∷ bs)) lo hi st h = ground arith

start_IsReadOf :
    (count x : ℕ) (first : List ℕ)
    → IsByte x
    → All IsByte first
    → count ≡ announced x
    → is_valid (utf8_decode_start count x x first).character ≡ true
    → IsReadOf (x ∷ first) (utf8_decode_start count x x first)
unfolding utf8_decode_start is_valid
start_IsReadOf zero x first hx h e ok = ground arith
start_IsReadOf (suc zero) x first hx h e ok = ground (arith, unicode-valid x)
start_IsReadOf (suc (suc zero)) x first hx h e ok =
    tail_two x first (read_continuation 1 first) (ground arith) (ground arith)
      (read_continuation-Stops 1 first h) ok
start_IsReadOf (suc (suc (suc zero))) x first hx h e ok =
    tail_three x first (read_continuation 2 first) (ground arith) (ground arith)
      (read_continuation-Stops 2 first h) ok
start_IsReadOf (suc (suc (suc (suc zero)))) x first hx h e ok =
    tail_four x first (read_continuation 3 first) (ground arith) (ground arith)
      (read_continuation-Stops 3 first h) ok
start_IsReadOf (suc (suc (suc (suc (suc n))))) x first hx h e ok = ground arith

step_byte :
    (x : ℕ) (first : List ℕ)
    → IsByte x
    → utf8_decode_next (x ∷ first)
      ≡ utf8_decode_start (utf8_byte_count_for_starting_byte x) x x first
step_byte x first h = let e : u8 x ≡ x = omega arith in unfold utf8_decode_next in rw e

-- Whenever `utf8_decode_next` of bytes returns a valid value, it is a scalar value other than
-- U+10FFFF, the bytes begin with its form, and what is left is what follows the form.
pub utf8_decode_next-IsReadOf :
    (src : List ℕ)
    → All IsByte src
    → is_valid (utf8_decode_next src).character ≡ true
    → IsReadOf src (utf8_decode_next src)
utf8_decode_next-IsReadOf [] h ok = unfold utf8_decode_next is_valid in ground arith
utf8_decode_next-IsReadOf (x ∷ first) (hx, h) ok = rw (step_byte x first hx) (
    start_IsReadOf (utf8_byte_count_for_starting_byte x) x first hx h (byte_count-announced x hx)
      (rw (step_byte x first hx) at ok))
