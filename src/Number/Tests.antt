-- ===== src/Number/Tests.antt =====
-- `int_decode` on concrete texts.
use skate.Prelude.{true, ℕ, ◌≡◌, refl, arith, codes}
use skate.Results.{success}
use skate.Ascii.Digit.{base36_to_int, char_digit, table_digit}
use skate.Number.Decode.{int8, pos, negsuc, int_decode}
use skate.Number.Value.{int_decode_lem}
use skate.Prelude.{List, [], ◌++◌, some}
use skate.Results.{OutputResult}
use skate.Number.Encode.{int_encode}
use skate.Number.RoundTrip.{int_decode-int_encode}
use skate.Number.Overflow.{is_none, int_encode_overflow}

abbrev no_table : ℕ → ℕ
no_table i = 0

int_decode_lem_example :
    int_decode no_table int8 10 (codes "-128,") (pos 7)
    ≡ record { input = codes ","; output = negsuc 127; result = success }
unfolding base36_to_int char_digit table_digit
int_decode_lem_example =
    int_decode_lem no_table int8 10 (codes "-128,") (pos 7) (omega arith) (omega arith)

int_decode-int_encode_example :
    (w : OutputResult (List ℕ)) × (int_encode int8 (negsuc 127) [] 16 ≡ some w)
    × (w.result ≡ success)
    × (int_decode no_table int8 16 (w.output ++ codes ",") (pos 0)
        ≡ record { input = codes ","; output = negsuc 127; result = success })
unfolding base36_to_int char_digit table_digit
int_decode-int_encode_example =
    int_decode-int_encode no_table int8 16 (negsuc 127) (pos 0) (codes ",") (omega arith)
      (omega arith) (refl, omega arith) (refl, refl)

-- The least value of 8 bits with a sign has too many digits in base 3.
int_encode_overflow_example : is_none (int_encode int8 (negsuc 127) [] 3) ≡ true
int_encode_overflow_example =
    int_encode_overflow int8 (negsuc 127) [] 3 (refl, omega arith) (omega arith) (omega arith)
      (omega arith)
