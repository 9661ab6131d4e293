-- ===== src/Number/Value.antt =====
-- What `int_decode` reads.
use skate.Prelude.{
  ℕ, ◌+◌, ◌*◌, ◌/◌, ◌≤◌, ◌<◌, ◌≡◌, arith, refl, ◌==◌, ltb, leb, ◌&&◌, ◌||◌, not, if◌then◌else◌,
}
use skate.Prelude.{Bool, true, false, Bool-cases, inl, inr, List, [], ◌∷◌, length, drop}
use native.Mathlib.Nat.{mul-le-mul_left, div-lt_iff_lt-mul, le-div_iff_mul-le}
use skate.Results.{success, failure}
use skate.Ascii.Digit.{base36_to_int}
use skate.Number.Decode.{ℤ, pos, minus, IntType, is_signed, max_value, min_value, IntState}
use skate.Number.Decode.{int8, int16, int32, int64, uint8, uint16, uint32, uint64}
use skate.Number.Decode.{add_digit, read_digits, int_result, int_decode}

-- The number that digits stand for, behind a number that is read already.
abbrev pub number : ℕ → ℕ → List ℕ → ℕ
number base n [] = n
number base n (d ∷ ds) = number base (n * base + d) ds

module _ (beyond : ℕ → ℕ) (base : ℕ) where
  -- The values of the digits at the beginning of a text, and what follows them.
  abbrev pub digits_of : List ℕ → List ℕ
  digits_of [] = []
  digits_of (c ∷ s) =
      let ds = digits_of s in
      if leb base (base36_to_int beyond c) then [] else base36_to_int beyond c ∷ ds

  abbrev pub after_digits : List ℕ → List ℕ
  after_digits [] = []
  after_digits (c ∷ s) =
      let rest = after_digits s in if leb base (base36_to_int beyond c) then c ∷ s else rest

number-le : (base n : ℕ) (ds : List ℕ) → 0 < base → n ≤ number base n ds
number-le base n [] h = omega arith
number-le base n (d ∷ ds) h =
    omega (
      arith,
      number-le base (n * base + d) ds h,
      mul-le-mul_left {m = 1} {n = base} n (omega arith),
    )

too_large : (limit base n : ℕ) → 0 < base → limit / base < n → limit < n * base
too_large limit base n h k = (div-lt_iff_lt-mul h).0 k

small_enough : (limit base n : ℕ) → 0 < base → n ≤ limit / base → n * base ≤ limit
small_enough limit base n h k = (le-div_iff_mul-le h).0 k

module _ (beyond : ℕ → ℕ) (limit base : ℕ) where
  -- Once the number is out of range the loop only looks for the end of the digits.
  read_digits_error :
      (s : List ℕ) (st : IntState)
      → st.range_error ≡ true
      → read_digits beyond limit base s st ≡ (after_digits beyond base s, st)
  unfolding read_digits add_digit
  read_digits_error [] st h = refl
  read_digits_error (c ∷ s) st h = ground (arith, read_digits_error s st h)

  -- What the loop has found at the end of the digits.
  abbrev IsEnd : List ℕ → ℕ → Bool → List ℕ × IntState → Type 0
  IsEnd s temp did (first, st) =
      let n = number base temp (digits_of beyond base s) in
      (first ≡ after_digits beyond base s)
      × (st.range_error ≡ ltb limit n)
      × (st.did_read ≡ (did || not (length (digits_of beyond base s) == 0)))
      × (n ≤ limit → st.temp ≡ n)

  read_digits_lem :
      (s : List ℕ) (temp : ℕ) (did : Bool)
      → 0 < base
      → base ≤ limit
      → temp ≤ limit
      → IsEnd s temp did (
          read_digits beyond limit base s
            (record { temp = temp; did_read = did; range_error = false }))
  unfolding read_digits add_digit
  read_digits_lem [] temp did hb hl ht = ground arith
  read_digits_lem (c ∷ s) temp did hb hl ht =
      let d = base36_to_int beyond c in
      let ds = digits_of beyond base s in
      ground (
        arith,
        read_digits_lem s (temp * base + d) true hb hl,
        read_digits_error s (record { temp = temp; did_read = true; range_error = true }) refl,
        read_digits_error s (record { temp = temp * base; did_read = true; range_error = true })
            refl,
        too_large limit base temp hb,
        number-le base (temp * base + d) ds hb,
      )

-- Whether `t` takes a sign and the text has one, and the text behind it.
abbrev pub is_negative : IntType → List ℕ → Bool
is_negative t [] = false
is_negative t (c ∷ s) = c == b'-' && is_signed t

abbrev pub unsigned : IntType → List ℕ → List ℕ
unsigned t s = if is_negative t s then drop 1 s else s

-- The largest absolute value of the sign.
abbrev pub limit_of : IntType → List ℕ → ℕ
limit_of t s = if is_negative t s then min_value t else max_value t

abbrev pub signed_as : IntType → List ℕ → ℕ → ℤ
signed_as t s n = if is_negative t s then minus n else pos n

max_value_large : (t : IntType) → 36 ≤ max_value t
max_value_large int8 = omega arith
max_value_large int16 = omega arith
max_value_large int32 = omega arith
max_value_large int64 = omega arith
max_value_large uint8 = omega arith
max_value_large uint16 = omega arith
max_value_large uint32 = omega arith
max_value_large uint64 = omega arith

min_value_large : (t : IntType) → is_signed t ≡ true → 36 ≤ min_value t
min_value_large int8 h = omega arith
min_value_large int16 h = omega arith
min_value_large int32 h = omega arith
min_value_large int64 h = omega arith
min_value_large uint8 h = ground arith
min_value_large uint16 h = ground arith
min_value_large uint32 h = ground arith
min_value_large uint64 h = ground arith

int_result_lem :
    (beyond : ℕ → ℕ) (limit base : ℕ) (s : List ℕ) (sign : ℕ → ℤ) (v : ℤ)
    → 2 ≤ base
    → base ≤ limit
    → let ds = digits_of beyond base s in
      int_result beyond sign v (
        read_digits beyond limit base s
          (record { temp = 0; did_read = false; range_error = false }))
      ≡ (if not (length ds == 0) && leb (number base 0 ds) limit
          then record {
            input = after_digits beyond base s;
            output = sign (number base 0 ds);
            result = success;
          }
          else record { input = after_digits beyond base s; output = v; result = failure })
unfolding int_result
int_result_lem beyond limit base s sign v h k =
    ground (arith, read_digits_lem beyond limit base s 0 false (omega arith) k (omega arith))

-- `int_decode` reads a minus sign, if the type is signed and there is one, and then as many digits
-- of the base as there are, even beyond the range of the type. It succeeds exactly when there is a
-- digit and the number fits the type; the variable then has its value, and otherwise keeps the old
-- one. The base is from 2 to 36.
pub int_decode_lem :
    (beyond : ℕ → ℕ) (t : IntType) (base : ℕ) (s : List ℕ) (v : ℤ)
    → 2 ≤ base
    → base ≤ 36
    → let ds = digits_of beyond base (unsigned t s) in
      let n = number base 0 ds in
      int_decode beyond t base s v ≡ (
        if not (length ds == 0) && leb n (limit_of t s)
        then record {
          input = after_digits beyond base (unsigned t s);
          output = signed_as t s n;
          result = success;
        }
        else record {
          input = after_digits beyond base (unsigned t s);
          output = v;
          result = failure;
        })
unfolding int_decode
int_decode_lem beyond t base [] v h k = ground arith
int_decode_lem beyond t base (c ∷ s) v h k = elim (Bool-cases (c == b'-' && is_signed t)) [
  | inl e ↦
      let signed : is_signed t ≡ true = ground arith in
      rw e (
        int_result_lem beyond (min_value t) base s minus v h
          (omega (arith, min_value_large t signed)))
  | inr e ↦
      rw e (
        int_result_lem beyond (max_value t) base (c ∷ s) pos v h (omega (arith, max_value_large t)))
]
