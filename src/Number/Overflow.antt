-- ===== src/Number/Overflow.antt =====
-- Where the buffer of `int_encode` of skate/io/adapters/core.h is too small.
use skate.Prelude.{ℕ, zero, suc, ◌/◌, ◌%◌, ◌^◌, ◌≤◌, ◌<◌, ◌≡◌, refl, arith, leb}
use skate.Prelude.{
  Bool, true, false, not, Option, none, some, if◌then◌else◌, List, [], ◌∷◌, ◌⊎◌, inl, inr,
}
use skate.Prelude.Bits.{u8}
use skate.Prelude.Table.{holds_below, holds_below_sound}
use native.Mathlib.Nat.{le-div_iff_mul-le, pow-zero, pow-suc, one-le-pow}
use skate.Ascii.Digit.{int_to_base36}
use skate.Number.Decode.{ℤ, pos, negsuc, IntType, is_signed, max_value, min_value}
use skate.Number.Decode.{int8, int16, int32, int64, uint8, uint16, uint32, uint64}
use skate.Number.Encode.{buffer_size, write_digits, copy_digits, encode_sign, int_encode}
use skate.Number.RoundTrip.{IsIn, absolute}

abbrev pub is_none {ℓ} : {A : Type ℓ} → Option A → Bool
is_none none = true
is_none (some x) = false

-- The last base in which the values of largest magnitude have too many digits.
abbrev pub last_short_base : IntType → ℕ
last_short_base int8 = 3
last_short_base int16 = 5
last_short_base int32 = 7
last_short_base int64 = 8
last_short_base uint8 = 6
last_short_base uint16 = 9
last_short_base uint32 = 9
last_short_base uint64 = 9

write_digits-is_none :
    (room base v : ℕ) (begin : List ℕ)
    → 2 ≤ base
    → 0 < v
    → is_none (write_digits room base v begin) ≡ leb (base ^ room) v
unfolding write_digits
write_digits-is_none zero base v begin b h = ground (arith, pow-zero base)
write_digits-is_none (suc room) base v begin b h =
    let begin' = int_to_base36 (u8 (v % base)) ∷ begin in
    let (to, fro) = le-div_iff_mul-le {k = base} {x = base ^ room} {y = v} (omega arith) in
    ground (
      arith,
      pow-suc base room,
      one-le-pow room base,
      to,
      fro,
      write_digits-is_none room base (v / base) begin' b,
    )

abbrev agree : ℕ → ℕ → ℕ → ℕ → Bool
agree room n last base =
    if leb 2 base
    then (if leb (base ^ room) n then leb base last else not (leb base last))
    else true

-- The bases in which a number has too many digits, checked base by base.
short_bases :
    (room n last base : ℕ)
    → holds_below 37 (agree room n last) ≡ true
    → 2 ≤ base
    → base ≤ 36
    → leb (base ^ room) n ≡ leb base last
short_bases room n last base h b c =
    ground (arith, holds_below_sound 37 (agree room n last) h base (omega arith))

too_long :
    (t : IntType) (n base : ℕ)
    → (n ≡ max_value t) ⊎ ((is_signed t ≡ true) × (n ≡ min_value t))
    → 2 ≤ base
    → base ≤ 36
    → leb (base ^ buffer_size t) n ≡ leb base (last_short_base t)
unfolding holds_below
too_long int8 n base (inl e) b c =
    rw e (short_bases (buffer_size int8) (max_value int8) (last_short_base int8) base refl b c)
too_long int8 n base (inr (k, e)) b c =
    rw e (short_bases (buffer_size int8) (min_value int8) (last_short_base int8) base refl b c)
too_long int16 n base (inl e) b c =
    rw e (short_bases (buffer_size int16) (max_value int16) (last_short_base int16) base refl b c)
too_long int16 n base (inr (k, e)) b c =
    rw e (short_bases (buffer_size int16) (min_value int16) (last_short_base int16) base refl b c)
too_long int32 n base (inl e) b c =
    rw e (short_bases (buffer_size int32) (max_value int32) (last_short_base int32) base refl b c)
too_long int32 n base (inr (k, e)) b c =
    rw e (short_bases (buffer_size int32) (min_value int32) (last_short_base int32) base refl b c)
too_long int64 n base (inl e) b c =
    rw e (short_bases (buffer_size int64) (max_value int64) (last_short_base int64) base refl b c)
too_long int64 n base (inr (k, e)) b c =
    rw e (short_bases (buffer_size int64) (min_value int64) (last_short_base int64) base refl b c)
too_long uint8 n base (inl e) b c =
    rw e (short_bases (buffer_size uint8) (max_value uint8) (last_short_base uint8) base refl b c)
too_long uint8 n base (inr (k, e)) b c = absurd (cc k)
too_long uint16 n base (inl e) b c =
    rw e
      (short_bases (buffer_size uint16) (max_value uint16) (last_short_base uint16) base refl b c)
too_long uint16 n base (inr (k, e)) b c = absurd (cc k)
too_long uint32 n base (inl e) b c =
    rw e
      (short_bases (buffer_size uint32) (max_value uint32) (last_short_base uint32) base refl b c)
too_long uint32 n base (inr (k, e)) b c = absurd (cc k)
too_long uint64 n base (inl e) b c =
    rw e
      (short_bases (buffer_size uint64) (max_value uint64) (last_short_base uint64) base refl b c)
too_long uint64 n base (inr (k, e)) b c = absurd (cc k)

min_value-suc : (t : IntType) → is_signed t ≡ true → min_value t ≡ suc (max_value t)
min_value-suc int8 h = refl
min_value-suc int16 h = refl
min_value-suc int32 h = refl
min_value-suc int64 h = refl
min_value-suc uint8 h = absurd (cc h)
min_value-suc uint16 h = absurd (cc h)
min_value-suc uint32 h = absurd (cc h)
min_value-suc uint64 h = absurd (cc h)

max_value_positive : (t : IntType) → 0 < max_value t
max_value_positive int8 = omega arith
max_value_positive int16 = omega arith
max_value_positive int32 = omega arith
max_value_positive int64 = omega arith
max_value_positive uint8 = omega arith
max_value_positive uint16 = omega arith
max_value_positive uint32 = omega arith
max_value_positive uint64 = omega arith

extreme_lem :
    (t : IntType) (v : ℤ)
    → IsIn t v
    → max_value t ≤ absolute v
    → (absolute v ≡ max_value t) ⊎ ((is_signed t ≡ true) × (absolute v ≡ min_value t))
extreme_lem t (pos n) i m = inl (omega arith)
extreme_lem t (negsuc n) (k, i) m = ground (arith, min_value-suc t k)

-- For the values of a type whose absolute value is at least the greatest value of the type, negative
-- ones included, and the bases from 2 to 36, the loop of `int_encode` writes in front of its buffer
-- exactly in the bases up to 3 for 8 bits with a sign, 5 for 16, 7 for 32 and 8 for 64, and without a
-- sign up to 6 for 8 bits and 9 for more.
pub int_encode_overflow :
    (t : IntType) (v : ℤ) (out : List ℕ) (base : ℕ)
    → IsIn t v
    → max_value t ≤ absolute v
    → 2 ≤ base
    → base ≤ 36
    → is_none (int_encode t v out base) ≡ leb base (last_short_base t)
unfolding int_encode encode_sign copy_digits
int_encode_overflow t (pos n) out base i m b c = ground (
  arith,
  max_value_positive t,
  write_digits-is_none (buffer_size t) base n [] b,
  too_long t n base (extreme_lem t (pos n) i m) b c,
)
int_encode_overflow t (negsuc n) out base i m b c = ground (
  arith,
  write_digits-is_none (buffer_size t) base (suc n) [] b,
  too_long t (suc n) base (extreme_lem t (negsuc n) i m) b c,
)
