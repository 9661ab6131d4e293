-- ===== src/Number/Encode.antt =====
-- `int_encode` of skate/io/adapters/core.h, by its own loops. They fill a buffer from its end, which
-- has room for the digits of the type in base 10.
use skate.Prelude.{ℕ, zero, suc, ◌/◌, ◌%◌, ◌==◌, ltb, ◌||◌, if◌then◌else◌, Option, none, some}
use skate.Prelude.{List, [], ◌∷◌, ◌++◌}
use skate.Prelude.Bits.{u8}
use skate.Results.{success, failure, OutputResult}
use skate.Ascii.Digit.{int_to_base36}
use skate.Number.Decode.{
  ℤ, pos, negsuc, IntType, int8, int16, int32, int64, uint8, uint16, uint32, uint64,
}

-- `std::numeric_limits<T>::digits10 + 1 + std::is_signed<T>::value`.
abbrev pub buffer_size : IntType → ℕ
buffer_size int8 = 4
buffer_size int16 = 6
buffer_size int32 = 11
buffer_size int64 = 20
buffer_size uint8 = 3
buffer_size uint16 = 5
buffer_size uint32 = 10
buffer_size uint64 = 20

-- The `do` loops, on the absolute value of `v`: division rounds to zero, and the digit of a negative
-- remainder is negated. `room` is left in front of `begin`; `none` is a write in front of the buffer.
unfoldable pub write_digits : ℕ → ℕ → ℕ → List ℕ → Option (List ℕ)
write_digits zero base v begin = none
write_digits (suc room) base v begin =
    let begin' = int_to_base36 (u8 (v % base)) ∷ begin in
    let rest = write_digits room base (v / base) begin' in
    if v / base == 0 then some begin' else rest

unfoldable pub copy_digits : Option (List ℕ) → List ℕ → Option (OutputResult (List ℕ))
copy_digits none out = none
copy_digits (some begin) out = some (record { output = out ++ begin; result = success })

unfoldable pub encode_sign : IntType → ℤ → List ℕ → ℕ → Option (OutputResult (List ℕ))
unfolding copy_digits
encode_sign t (pos n) out base = copy_digits (write_digits (buffer_size t) base n []) out
encode_sign t (negsuc n) out base =
    copy_digits (write_digits (buffer_size t) base (suc n) []) (out ++ (b'-' ∷ []))

unfoldable pub int_encode : IntType → ℤ → List ℕ → ℕ → Option (OutputResult (List ℕ))
int_encode t v out base =
    if ltb base 2 || ltb 36 base
    then some (record { output = out; result = failure })
    else encode_sign t v out base
