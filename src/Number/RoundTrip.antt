-- ===== src/Number/RoundTrip.antt =====
-- `int_encode` and `int_decode` together.
use skate.Prelude.{
  ℕ, zero, suc, ◌+◌, ◌*◌, ◌/◌, ◌%◌, ◌^◌, ◌≤◌, ◌<◌, ◌≡◌, ◌≢◌, refl, ap, ◌∙◌, arith, ◌==◌, leb,
}
use skate.Prelude.{if◌then◌else◌, true, false, inl, inr, ◌⊎◌, some}
use skate.Prelude.{List, [], ◌∷◌, ◌++◌, append-nil, append_assoc, length, length-append}
use skate.Prelude.Bits.{u8}
use native.Mathlib.Nat.{div-lt_iff_lt-mul, pow-suc, pow-zero, pow-le-pow_left, mod-lt, div-add-mod'}
use skate.Results.{success, OutputResult}
use skate.Ascii.Digit.{int_to_base36, base36_to_int-int_to_base36}
use skate.Number.Decode.{ℤ, pos, negsuc, IntType, is_signed, max_value, min_value, int_decode}
use skate.Number.Decode.{int8, int16, int32, int64, uint8, uint16, uint32, uint64}
use skate.Number.Encode.{buffer_size, write_digits, copy_digits, encode_sign, int_encode}
use skate.Number.Value.{number, digits_of, after_digits, int_decode_lem, is_negative}

-- The digits of `v`, of which there are at most `room`.
abbrev pub numeral : ℕ → ℕ → ℕ → List ℕ
numeral zero base v = []
numeral (suc room) base v =
    let rest = numeral room base (v / base) in
    (if v / base == 0 then [] else rest) ++ (int_to_base36 (v % base) ∷ [])

fits : (room base v : ℕ) → 0 < base → v < base ^ suc room → v / base < base ^ room
fits room base v b k = (div-lt_iff_lt-mul b).1 (rw (pow-suc base room) at k)

last_digit : (base v : ℕ) → 0 < base → base ≤ 36 → u8 (v % base) ≡ v % base
last_digit base v b c = omega (arith, mod-lt v b)

-- A value that fits in `room` digits is written in them.
write_digits-numeral :
    (room base v : ℕ) (begin : List ℕ)
    → 0 < base
    → base ≤ 36
    → v < base ^ suc room
    → write_digits (suc room) base v begin ≡ some (numeral (suc room) base v ++ begin)
unfolding write_digits
write_digits-numeral zero base v begin b c k =
    ground (arith, last_digit base v b c, fits 0 base v b k, pow-zero base)
write_digits-numeral (suc room) base v begin b c k = ground (
  arith,
  last_digit base v b c,
  write_digits-numeral room base (v / base) (int_to_base36 (v % base) ∷ begin) b c
      (fits (suc room) base v b k),
  append_assoc (numeral (suc room) base (v / base)) (int_to_base36 (v % base) ∷ []) begin,
)

-- The values of the digits.
abbrev digits : ℕ → ℕ → ℕ → List ℕ
digits zero base v = []
digits (suc room) base v =
    let rest = digits room base (v / base) in
    (if v / base == 0 then [] else rest) ++ (v % base ∷ [])

number-append :
    (base n : ℕ) (ds : List ℕ) (d : ℕ)
    → number base n (ds ++ (d ∷ [])) ≡ number base n ds * base + d
number-append base n [] d = refl
number-append base n (x ∷ ds) d = number-append base (n * base + x) ds d

number-digits :
    (room base v : ℕ) → 0 < base → v < base ^ room → number base 0 (digits room base v) ≡ v
number-digits zero base v b k = omega (arith, pow-zero base)
number-digits (suc room) base v b k = ground (
  arith,
  number-append base 0 (digits room base (v / base)) (v % base),
  number-digits room base (v / base) b (fits room base v b k),
  div-add-mod' v base,
)

module _ (beyond : ℕ → ℕ) (base : ℕ) where
  digits_of-digit :
      (d : ℕ) (rest : List ℕ)
      → d < base
      → base ≤ 36
      → (digits_of beyond base (int_to_base36 d ∷ rest) ≡ d ∷ digits_of beyond base rest)
        × (after_digits beyond base (int_to_base36 d ∷ rest) ≡ after_digits beyond base rest)
  digits_of-digit d rest h c =
      let e = (base36_to_int-int_to_base36 beyond d (omega arith)).0 in ground (arith, e)

  -- A numeral is read as its digits, whatever follows it.
  digits_of-numeral :
      (room v : ℕ) (rest : List ℕ)
      → 0 < base
      → base ≤ 36
      → (digits_of beyond base (numeral room base v ++ rest)
          ≡ digits room base v ++ digits_of beyond base rest)
        × (after_digits beyond base (numeral room base v ++ rest) ≡ after_digits beyond base rest)
  digits_of-numeral zero v rest b c = (refl, refl)
  digits_of-numeral (suc room) v rest b c =
      let d = v % base in
      ground (
        arith,
        digits_of-digit d rest (mod-lt v b) c,
        digits_of-numeral room (v / base) (int_to_base36 d ∷ rest) b c,
        append_assoc (numeral room base (v / base)) (int_to_base36 d ∷ []) rest,
        append_assoc (digits room base (v / base)) (d ∷ []) (digits_of beyond base rest),
      )

-- Ten digits hold what fits, in every larger base as well.
room_enough :
    (t : IntType)
    → (r : ℕ) × (buffer_size t ≡ suc r) × (max_value t < 10 ^ suc r) × (min_value t < 10 ^ suc r)
room_enough int8 = (3, refl, omega arith, omega arith)
room_enough int16 = (5, refl, omega arith, omega arith)
room_enough int32 = (10, refl, omega arith, omega arith)
room_enough int64 = (19, refl, omega arith, omega arith)
room_enough uint8 = (2, refl, omega arith, omega arith)
room_enough uint16 = (4, refl, omega arith, omega arith)
room_enough uint32 = (9, refl, omega arith, omega arith)
room_enough uint64 = (19, refl, omega arith, omega arith)

-- The values of a type.
abbrev pub IsIn : IntType → ℤ → Type 0
IsIn t (pos n) = n ≤ max_value t
IsIn t (negsuc n) = (is_signed t ≡ true) × (suc n ≤ min_value t)

abbrev pub absolute : ℤ → ℕ
absolute (pos n) = n
absolute (negsuc n) = suc n

abbrev pub int_text : IntType → ℕ → ℤ → List ℕ
int_text t base (pos n) = numeral (buffer_size t) base n
int_text t base (negsuc n) = b'-' ∷ numeral (buffer_size t) base (suc n)

write_value :
    (t : IntType) (base n : ℕ)
    → 10 ≤ base
    → base ≤ 36
    → (n ≤ max_value t) ⊎ (n ≤ min_value t)
    → write_digits (buffer_size t) base n [] ≡ some (numeral (buffer_size t) base n)
write_value t base n b c h =
    let (r, e, p, q) = room_enough t in
    let more = pow-le-pow_left b (suc r) in
    rw e (
      write_digits-numeral r base n [] (omega arith) c (ground arith)
      ∙ ap some (append-nil (numeral (suc r) base n)))

-- In a base from 10 to 36 the buffer is large enough for every value of the type: `int_encode`
-- succeeds and appends the sign and the digits.
pub int_encode_lem :
    (t : IntType) (v : ℤ) (out : List ℕ) (base : ℕ)
    → 10 ≤ base
    → base ≤ 36
    → IsIn t v
    → int_encode t v out base
      ≡ some (record { output = out ++ int_text t base v; result = success })
unfolding int_encode encode_sign copy_digits
int_encode_lem t (pos n) out base b c h = ground (arith, write_value t base n b c (inl h))
int_encode_lem t (negsuc n) out base b c h = ground (
  arith,
  write_value t base (suc n) b c (inr h.1),
  append_assoc out (b'-' ∷ []) (numeral (buffer_size t) base (suc n)),
)

not_minus : (d : ℕ) → d < 36 → int_to_base36 d ≢ b'-'
unfolding int_to_base36
not_minus d h = ground arith

-- No numeral begins with a minus sign.
is_negative-numeral :
    (t : IntType) (room base v d : ℕ) (rest : List ℕ)
    → 0 < base
    → base ≤ 36
    → d < 36
    → is_negative t (numeral room base v ++ (int_to_base36 d ∷ rest)) ≡ false
is_negative-numeral t zero base v d rest b c h = ground (arith, not_minus d h)
is_negative-numeral t (suc room) base v d rest b c h = ground (
  arith,
  mod-lt v b,
  not_minus (v % base),
  is_negative-numeral t room base (v / base) (v % base) (int_to_base36 d ∷ rest) b c,
  append_assoc (numeral room base (v / base)) (int_to_base36 (v % base) ∷ [])
      (int_to_base36 d ∷ rest),
)

is_negative-numeral_whole :
    (t : IntType) (room base v : ℕ) (rest : List ℕ)
    → 0 < base
    → base ≤ 36
    → is_negative t (numeral (suc room) base v ++ rest) ≡ false
is_negative-numeral_whole t room base v rest b c = ground (
  arith,
  mod-lt v b,
  not_minus (v % base),
  is_negative-numeral t room base (v / base) (v % base) rest b c,
  append_assoc (numeral room base (v / base)) (int_to_base36 (v % base) ∷ []) rest,
)

-- A text that begins with no digit of the base.
abbrev pub StartsWithNoDigit : (ℕ → ℕ) → ℕ → List ℕ → Type 0
StartsWithNoDigit beyond base rest =
    (digits_of beyond base rest ≡ []) × (after_digits beyond base rest ≡ rest)

length-digits_pos : (room base v : ℕ) → 0 < length (digits (suc room) base v)
length-digits_pos room base v =
    ground (arith, length-append (digits room base (v / base)) (v % base ∷ []))

digits_nonempty : (room base v : ℕ) → (length (digits (suc room) base v) == 0) ≡ false
digits_nonempty room base v = ground (arith, length-digits_pos room base v)

digits_of-whole :
    (beyond : ℕ → ℕ) (room base v : ℕ) (rest : List ℕ)
    → 0 < base
    → base ≤ 36
    → StartsWithNoDigit beyond base rest
    → (digits_of beyond base (numeral room base v ++ rest) ≡ digits room base v)
      × (after_digits beyond base (numeral room base v ++ rest) ≡ rest)
digits_of-whole beyond room base v rest b c k =
    ground (arith, digits_of-numeral beyond base room v rest b c, append-nil (digits room base v))

-- `int_decode` reads the text of a value back.
pub int_decode-int_text :
    (beyond : ℕ → ℕ) (t : IntType) (base : ℕ) (v old : ℤ) (rest : List ℕ)
    → 10 ≤ base
    → base ≤ 36
    → IsIn t v
    → StartsWithNoDigit beyond base rest
    → int_decode beyond t base (int_text t base v ++ rest) old
      ≡ record { input = rest; output = v; result = success }
int_decode-int_text beyond t base (pos n) old rest b c h k =
    let (r, e, p, q) = room_enough t in
    let below : n < base ^ suc r = omega (arith, pow-le-pow_left b (suc r)) in
    let (ds, after) = digits_of-whole beyond (suc r) base n rest (omega arith) c k in
    let within : leb n (max_value t) ≡ true = ground (arith, h) in
    int_decode_lem beyond t base (int_text t base (pos n) ++ rest) old (omega arith) c
    ∙ rw (e, is_negative-numeral_whole t r base n rest (omega arith) c, ds, after)
        (rw (number-digits (suc r) base n (omega arith) below, digits_nonempty r base n, within))
int_decode-int_text beyond t base (negsuc n) old rest b c h k =
    let (r, e, p, q) = room_enough t in
    let below : suc n < base ^ suc r = omega (arith, pow-le-pow_left b (suc r)) in
    let (ds, after) = digits_of-whole beyond (suc r) base (suc n) rest (omega arith) c k in
    let within : leb (suc n) (min_value t) ≡ true = ground (arith, h.1) in
    int_decode_lem beyond t base (int_text t base (negsuc n) ++ rest) old (omega arith) c
    ∙ rw (e, h.0, ds, after)
        (rw (
          number-digits (suc r) base (suc n) (omega arith) below,
          digits_nonempty r base (suc n),
          within,
        ))

-- In a base from 10 to 36 `int_encode` writes every value of the type within its buffer, and
-- `int_decode` of what was written gives the value back, if no digit follows it.
pub int_decode-int_encode :
    (beyond : ℕ → ℕ) (t : IntType) (base : ℕ) (v old : ℤ) (rest : List ℕ)
    → 10 ≤ base
    → base ≤ 36
    → IsIn t v
    → StartsWithNoDigit beyond base rest
    → (w : OutputResult (List ℕ)) × (int_encode t v [] base ≡ some w)
      × (w.result ≡ success)
      × (int_decode beyond t base (w.output ++ rest) old
          ≡ record { input = rest; output = v; result = success })
int_decode-int_encode beyond t base v old rest b c h k = (
  record { output = int_text t base v; result = success },
  int_encode_lem t v [] base b c h,
  refl,
  int_decode-int_text beyond t base v old rest b c h k,
)
