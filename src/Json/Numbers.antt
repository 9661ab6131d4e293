-- ===== src/Json/Numbers.antt =====
-- Integers through `write_json` and `read_json` of skate/io/adapters/json.h.
use skate.Prelude.{ℕ, zero, suc, ◌/◌, ◌%◌, ◌≤◌, ◌<◌, ◌≡◌, refl, sym, ap, arith, ◌==◌}
use skate.Prelude.{
  if◌then◌else◌, true, false, List, [], ◌∷◌, ◌++◌, append-nil, append_assoc, All, some,
}
use skate.Results.{success}
use skate.Ascii.Digit.{int_to_base36}
use skate.Ascii.Case.{isfpdigit}
use skate.Number.Decode.{ℤ, pos, negsuc, int_decode}
use skate.Number.Decode
use skate.Number.Encode.{int_encode}
use skate.Number.Floating.{FloatLibrary}
use skate.Number.RoundTrip.{numeral, IsIn, int_encode_lem, int_decode-int_text}
use skate.Json.Value.{Value, int64, uint64}
use skate.Json.ReadScalar.{
  copy_number, has_fraction, if_whole, integer_result, decode_number, read_number,
}
use skate.Json.ReadScalar.{int64_ref, uint64_ref, as_uint64}

-- A decimal digit.
abbrev pub IsDecimal : ℕ → Type 0
IsDecimal c = (b'0' ≤ c) × (c ≤ b'9')

-- The text is empty or goes on with a character that belongs to no number.
abbrev pub EndsNumber : List ℕ → Type 0
EndsNumber [] = Unit {0}
EndsNumber (c ∷ rest) = isfpdigit c ≡ false

decimal-IsDecimal : (d : ℕ) → d < 10 → IsDecimal (int_to_base36 d)
unfolding int_to_base36
decimal-IsDecimal d h = ground arith

All-push : (cs : List ℕ) (c : ℕ) → All IsDecimal cs → IsDecimal c → All IsDecimal (cs ++ (c ∷ []))
All-push [] c a h = (h, tt)
All-push (x ∷ cs) c (hx, a) h = (hx, All-push cs c a h)

numeral-All : (room v : ℕ) → All IsDecimal (numeral room 10 v)
numeral-All zero v = tt
numeral-All (suc room) v =
    elim (v / 10 == 0)
      as (λ b.
        All IsDecimal
          ((if b then [] else numeral room 10 (v / 10)) ++ (int_to_base36 (v % 10) ∷ []))) [
            | true ↦ (decimal-IsDecimal (v % 10) (omega arith), tt)
            | false ↦
                All-push (numeral room 10 (v / 10)) (int_to_base36 (v % 10))
                  (numeral-All room (v / 10)) (decimal-IsDecimal (v % 10) (omega arith))
          ]

-- The loop copies the digits of a number, and stops behind them.
copy_number-digits :
    (cs temp rest : List ℕ)
    → All IsDecimal cs
    → EndsNumber rest
    → copy_number temp (cs ++ rest) ≡ (temp ++ cs, rest)
unfolding copy_number isfpdigit
copy_number-digits [] temp [] a h = ground (arith, append-nil temp)
copy_number-digits [] temp (c ∷ rest) a h = ground (arith, append-nil temp)
copy_number-digits (c ∷ cs) temp rest (hc, a) h =
    ground (arith, copy_number-digits cs (temp ++ (c ∷ [])) rest a h, append_assoc temp (c ∷ []) cs)

has_fraction-digits : (cs : List ℕ) → All IsDecimal cs → has_fraction cs ≡ false
unfolding has_fraction
has_fraction-digits [] a = refl
has_fraction-digits (c ∷ cs) (hc, a) = ground (arith, has_fraction-digits cs a)

-- The first digit of a numeral, and the others.
pub record IsNumeral (cs : List ℕ) : Type 0 where
  pub digit : ℕ
  pub others : List ℕ
  pub shape : cs ≡ digit ∷ others
  pub decimal : IsDecimal digit
  pub rest_decimal : All IsDecimal others

split_digits : (cs : List ℕ) (c : ℕ) → All IsDecimal (cs ++ (c ∷ [])) → IsNumeral (cs ++ (c ∷ []))
split_digits [] c (h, a) = record {
  digit = c;
  others = [];
  shape = refl;
  decimal = h;
  rest_decimal = a;
}
split_digits (x ∷ cs) c (h, a) = record {
  digit = x;
  others = cs ++ (c ∷ []);
  shape = refl;
  decimal = h;
  rest_decimal = a;
}

pub numeral-IsNumeral : (room v : ℕ) → IsNumeral (numeral (suc room) 10 v)
numeral-IsNumeral room v =
    split_digits (if v / 10 == 0 then [] else numeral room 10 (v / 10)) (int_to_base36 (v % 10))
      (numeral-All (suc room) v)

-- The decimal digits of a number of 64 bits.
unfoldable pub decimal : ℕ → List ℕ
decimal n = numeral 20 10 n

pub decimal-IsNumeral : (n : ℕ) → IsNumeral (decimal n)
unfolding decimal
decimal-IsNumeral n = numeral-IsNumeral 19 n

not_minus : (c : ℕ) → IsDecimal c → (c == b'-') ≡ false
not_minus c h = ground arith

module _ (beyond : ℕ → ℕ) (f : FloatLibrary) {S : Type 0} where
  -- A number that is all digits, or a minus sign and digits, is one integer.
  read_digits_as :
      (cs : List ℕ) (n : ℕ) (rest : List ℕ) (j : Value S f.Double)
      → IsNumeral cs
      → int_decode beyond Decode.uint64 10 cs (uint64_ref beyond f j)
        ≡ record { input = []; output = pos n; result = success }
      → EndsNumber rest
      → read_number beyond f (cs ++ rest) j
        ≡ record { input = rest; output = uint64 n; result = success }
  unfolding read_number decode_number integer_result if_whole as_uint64
  read_digits_as cs n rest j s whole e = rw (
    ap (λ l. l ++ rest) s.shape,
    not_minus s.digit s.decimal,
    copy_number-digits s.others (s.digit ∷ []) rest s.rest_decimal e,
    has_fraction-digits (s.digit ∷ s.others) (s.decimal, s.rest_decimal),
    sym s.shape,
    whole,
  )

  read_minus_as :
      (cs : List ℕ) (n : ℕ) (rest : List ℕ) (j : Value S f.Double)
      → IsNumeral cs
      → int_decode beyond Decode.int64 10 (b'-' ∷ cs) (int64_ref beyond f j)
        ≡ record { input = []; output = negsuc n; result = success }
      → EndsNumber rest
      → read_number beyond f (b'-' ∷ (cs ++ rest)) j
        ≡ record { input = rest; output = int64 (negsuc n); result = success }
  unfolding read_number decode_number integer_result if_whole has_fraction
  read_minus_as cs n rest j s whole e = ground (
    arith,
    s.shape,
    copy_number-digits cs (b'-' ∷ []) rest (rw s.shape (s.decimal, s.rest_decimal)) e,
    has_fraction-digits cs (rw s.shape (s.decimal, s.rest_decimal)),
    whole,
  )

  -- A numeral without a sign is read as an unsigned integer.
  pub read_number-decimal :
      (n : ℕ) (rest : List ℕ) (j : Value S f.Double)
      → n ≤ 0xffffffffffffffff
      → EndsNumber rest
      → read_number beyond f (decimal n ++ rest) j
        ≡ record { input = rest; output = uint64 n; result = success }
  read_number-decimal n rest j h e =
      read_digits_as (decimal n) n rest j (decimal-IsNumeral n) (unfold decimal in whole) e
    where
      whole :
          int_decode beyond Decode.uint64 10 (numeral 20 10 n) (uint64_ref beyond f j)
          ≡ record { input = []; output = pos n; result = success }
      whole = rw (sym (append-nil (numeral 20 10 n))) (
          int_decode-int_text beyond Decode.uint64 10 (pos n) (uint64_ref beyond f j) []
            (omega arith) (omega arith) h (refl, refl))

  pub read_number-minus :
      (n : ℕ) (rest : List ℕ) (j : Value S f.Double)
      → suc n ≤ 0x8000000000000000
      → EndsNumber rest
      → read_number beyond f (b'-' ∷ (decimal (suc n) ++ rest)) j
        ≡ record { input = rest; output = int64 (negsuc n); result = success }
  read_number-minus n rest j h e =
      read_minus_as (decimal (suc n)) n rest j (decimal-IsNumeral (suc n)) (unfold decimal in whole)
        e
    where
      whole :
          int_decode beyond Decode.int64 10 (b'-' ∷ numeral 20 10 (suc n)) (int64_ref beyond f j)
          ≡ record { input = []; output = negsuc n; result = success }
      whole = rw (sym (append-nil (numeral 20 10 (suc n)))) (
          int_decode-int_text beyond Decode.int64 10 (negsuc n) (int64_ref beyond f j) []
            (omega arith) (omega arith) (refl, h) (refl, refl))

-- What `write_json` writes for an integer.
abbrev pub integer_text : ℤ → List ℕ
integer_text (pos n) = decimal n
integer_text (negsuc n) = b'-' ∷ decimal (suc n)

pub int_encode-uint64 :
    (n : ℕ) (out : List ℕ)
    → n ≤ 0xffffffffffffffff
    → int_encode Decode.uint64 (pos n) out 10
      ≡ some (record { output = out ++ decimal n; result = success })
unfolding decimal
int_encode-uint64 n out h =
    int_encode_lem Decode.uint64 (pos n) out 10 (omega arith) (omega arith) h

pub int_encode-int64 :
    (i : ℤ) (out : List ℕ)
    → IsIn Decode.int64 i
    → int_encode Decode.int64 i out 10
      ≡ some (record { output = out ++ integer_text i; result = success })
unfolding decimal
int_encode-int64 (pos n) out h =
    int_encode_lem Decode.int64 (pos n) out 10 (omega arith) (omega arith) h
int_encode-int64 (negsuc n) out h =
    int_encode_lem Decode.int64 (negsuc n) out 10 (omega arith) (omega arith) h
