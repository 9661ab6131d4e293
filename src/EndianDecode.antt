-- ===== src/EndianDecode.antt =====
-- The big and little endian decoders of skate/io/adapters/core.h, for values of `n` bytes.
use skate.Prelude.{
  ℕ, zero, suc, ◌+◌, ◌*◌, ◌/◌, ◌%◌, ◌^◌, ◌<◌, ◌≤◌, ◌≡◌, arith, sym, ap, ◌∙◌, bit_or, List, [], ◌∷◌,
  ◌++◌, append-nil, append_assoc,
}
use native.Mathlib.Nat.{pow-suc, mod-eq_of_lt, div-div-eq-div-mul, div-eq_of_lt, div-le_self}
use skate.Prelude.Bits.{◌<<◌, ◌>>◌, u8, or_field}
use skate.Results.{success, failure, ParsingResult}
use skate.Endian.{big_endian_encode}

-- The loop, with `left` bytes to go. The value is cut to the width of its type.
unfoldable pub big_endian_next : ℕ → ℕ → ℕ → List ℕ → ParsingResult (List ℕ) ℕ
big_endian_next n zero value first = record { input = first; output = value; result = success }
big_endian_next n (suc left) value [] = record {
  input = [];
  output = (value << (8 * suc left % (8 * n))) % 2 ^ (8 * n);
  result = failure;
}
big_endian_next n (suc left) value (b ∷ first) =
    big_endian_next n left (bit_or ((value << 8) % 2 ^ (8 * n)) (u8 b)) first

unfoldable pub big_endian_decode_next : ℕ → List ℕ → ParsingResult (List ℕ) ℕ
big_endian_decode_next n first = big_endian_next n n 0 first

-- The loop over the bytes from the lowest on, of which `i` are read.
unfoldable pub little_endian_next : ℕ → ℕ → ℕ → List ℕ → ParsingResult (List ℕ) ℕ
little_endian_next zero i value first = record { input = first; output = value; result = success }
little_endian_next (suc left) i value [] = record { input = []; output = value; result = failure }
little_endian_next (suc left) i value (b ∷ first) =
    little_endian_next left (i + 1) (bit_or value (u8 b << (8 * i))) first

unfoldable pub little_endian_decode_next : ℕ → List ℕ → ParsingResult (List ℕ) ℕ
little_endian_decode_next n first = little_endian_next n 0 0 first

abbrev pub put_byte : List ℕ → ℕ → List ℕ
put_byte out b = out ++ (b ∷ [])

-- The bytes of a value, the highest first.
abbrev pub big_bytes : ℕ → ℕ → List ℕ
big_bytes zero w = []
big_bytes (suc n) w = u8 (w >> (8 * n)) ∷ big_bytes n w

big_endian_encode-big_bytes :
    (n w : ℕ) (out : List ℕ) → big_endian_encode put_byte n w out ≡ out ++ big_bytes n w
unfolding big_endian_encode
big_endian_encode-big_bytes zero w out = ground (arith, append-nil out)
big_endian_encode-big_bytes (suc n) w out = ground (
  arith,
  big_endian_encode-big_bytes n w (out ++ (u8 (w >> (8 * n)) ∷ [])),
  append_assoc out (u8 (w >> (8 * n)) ∷ []) (big_bytes n w),
)

width_step : (n : ℕ) → 2 ^ (8 * suc n) ≡ 2 ^ (8 * n) * 256
width_step n =
    let p = 8 * n in
    let e : 8 * suc n ≡ suc (suc (suc (suc (suc (suc (suc (suc p))))))) = omega arith in
    rw e (
      omega (
        arith,
        pow-suc 2 p,
        pow-suc 2 (suc p),
        pow-suc 2 (suc (suc p)),
        pow-suc 2 (suc (suc (suc p))),
        pow-suc 2 (suc (suc (suc (suc p)))),
        pow-suc 2 (suc (suc (suc (suc (suc p))))),
        pow-suc 2 (suc (suc (suc (suc (suc (suc p)))))),
        pow-suc 2 (suc (suc (suc (suc (suc (suc (suc p))))))),
      ))

-- A byte more is read.
next_byte : (n q : ℕ) → q < 2 ^ (8 * n) → bit_or (((q / 256) << 8) % 2 ^ (8 * n)) (u8 (u8 q)) ≡ q
next_byte n q h =
    let small : q / 256 * 256 < 2 ^ (8 * n) = omega arith in
    ground (arith, or_field 8 (q / 256) (q % 256), mod-eq_of_lt small)

-- The loop has read the bytes of `w` from the `left`-th on.
next_lem :
    (n left w : ℕ) (rest : List ℕ)
    → left ≤ n
    → w < 2 ^ (8 * n)
    → big_endian_next n left (w / 2 ^ (8 * left)) (big_bytes left w ++ rest)
      ≡ record { input = rest; output = w; result = success }
unfolding big_endian_next
next_lem n zero w rest h k = ground arith
next_lem n (suc left) w rest h k =
    let q = w / 2 ^ (8 * left) in
    let before : w / 2 ^ (8 * suc left) ≡ q / 256 =
      ap (λ p. w / p) (width_step left) ∙ sym (div-div-eq-div-mul w (2 ^ (8 * left)) 256) in
    rw (before, next_byte n q (omega (arith, div-le_self w (2 ^ (8 * left)))))
      (next_lem n left w rest (omega arith) k)

-- A value of `n` bytes that was written in big endian order is read back, whatever follows it.
big_endian_decode_next-big_endian_encode :
    (n w : ℕ) (rest : List ℕ)
    → w < 2 ^ (8 * n)
    → big_endian_decode_next n (big_endian_encode put_byte n w [] ++ rest)
      ≡ record { input = rest; output = w; result = success }
unfolding big_endian_decode_next
big_endian_decode_next-big_endian_encode n w rest h =
    ap (λ l. big_endian_next n n 0 (l ++ rest)) (big_endian_encode-big_bytes n w [])
    ∙ ap (λ v. big_endian_next n n v (big_bytes n w ++ rest)) (sym (div-eq_of_lt h))
    ∙ next_lem n n w rest (omega arith) h
