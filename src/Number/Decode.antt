-- ===== src/Number/Decode.antt =====
-- `int_decode` of skate/io/adapters/core.h over any iterator.
use skate.Prelude.{ℕ, zero, suc, ◌+◌, ◌-◌, ◌*◌, ◌/◌, ◌==◌, ltb, leb, ◌&&◌, not, if◌then◌else◌}
use skate.Prelude.{Bool, true, false, List, [], ◌∷◌}
use skate.Results.{success, failure, ParsingResult}
use skate.Ascii.Digit.{base36_to_int}

pub data ℤ : Type 0 where
  pos : ℕ → ℤ
  negsuc : ℕ → ℤ

abbrev pub minus : ℕ → ℤ
minus zero = pos 0
minus (suc n) = negsuc n

-- The types that `int_decode` reads into.
pub data IntType : Type 0 where
  int8 : IntType
  int16 : IntType
  int32 : IntType
  int64 : IntType
  uint8 : IntType
  uint16 : IntType
  uint32 : IntType
  uint64 : IntType

abbrev pub is_signed : IntType → Bool
is_signed int8 = true
is_signed int16 = true
is_signed int32 = true
is_signed int64 = true
is_signed _ = false

-- `std::numeric_limits<T>::max()`.
abbrev pub max_value : IntType → ℕ
max_value int8 = 0x7f
max_value int16 = 0x7fff
max_value int32 = 0x7fffffff
max_value int64 = 0x7fffffffffffffff
max_value uint8 = 0xff
max_value uint16 = 0xffff
max_value uint32 = 0xffffffff
max_value uint64 = 0xffffffffffffffff

-- `std::numeric_limits<T>::min()` is minus this number.
abbrev pub min_value : IntType → ℕ
min_value int8 = 0x80
min_value int16 = 0x8000
min_value int32 = 0x80000000
min_value int64 = 0x8000000000000000
min_value _ = 0

-- What the loops change. `temp` is minus the number in the loop behind a minus sign.
pub record IntState : Type 0 where
  pub temp : ℕ
  pub did_read : Bool
  pub range_error : Bool

-- The body of the loops for a digit `d`, with the largest absolute value that is allowed. Division
-- rounds to zero, so that the tests of both loops are the same on absolute values.
unfoldable pub add_digit : ℕ → ℕ → ℕ → IntState → IntState
add_digit limit base d s =
    if s.range_error
    then s
    else if ltb (limit / base) s.temp
    then record { temp = s.temp; did_read = true; range_error = true }
    else if ltb (limit - d) (s.temp * base)
    then record { temp = s.temp * base; did_read = true; range_error = true }
    else record { temp = s.temp * base + d; did_read = true; range_error = false }

module _ (beyond : ℕ → ℕ) where
  unfoldable pub read_digits : ℕ → ℕ → List ℕ → IntState → List ℕ × IntState
  read_digits limit base [] s = ([], s)
  read_digits limit base (c ∷ first) s =
      let d = base36_to_int beyond c in
      let rest = read_digits limit base first (add_digit limit base d s) in
      if leb base d then (c ∷ first, s) else rest

  unfoldable pub int_result : (ℕ → ℤ) → ℤ → List ℕ × IntState → ParsingResult (List ℕ) ℤ
  int_result sign v (first, s) =
      if not s.range_error && s.did_read
      then record { input = first; output = sign s.temp; result = success }
      else record { input = first; output = v; result = failure }

  -- `v` is what the variable holds before; the output is what it holds after.
  unfoldable pub int_decode : IntType → ℕ → List ℕ → ℤ → ParsingResult (List ℕ) ℤ
  int_decode t base [] v = record { input = []; output = v; result = failure }
  int_decode t base (c ∷ first) v =
      let start : IntState = record { temp = 0; did_read = false; range_error = false } in
      let negative = int_result minus v (read_digits (min_value t) base first start) in
      let positive = int_result pos v (read_digits (max_value t) base (c ∷ first) start) in
      if c == b'-' && is_signed t then negative else positive
