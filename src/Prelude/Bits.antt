-- ===== src/Prelude/Bits.antt =====
-- Shifts and the masks that the codecs use, as arithmetic: `x >> k` is a quotient, `x << k` a
-- multiple, `x & (2^k - 1)` a remainder, and `|` of fields that do not overlap a sum.
use Prim.Native.Nat.{ℕ, zero, suc, ◌+◌, ◌-◌, ◌*◌, ◌/◌, ◌%◌, ◌^◌, ◌≤◌, ◌<◌, min, max}
use Prim.Native.Nat.{bit_and, bit_or, digits, bit_and-bitwise, bit_or-bitwise}
use mathlib.Core.Path.{◌≡◌, refl, ap}
use native.Mathlib.Nat.{pow-suc, one-le-pow}
use native.Mathlib.Omega.{arith}

infixl 75 ◌<<◌ ◌>>◌
abbrev pub ◌<<◌ : ℕ → ℕ → ℕ
x << k = x * 2 ^ k

abbrev pub ◌>>◌ : ℕ → ℕ → ℕ
x >> k = x / 2 ^ k

abbrev pub u8 : ℕ → ℕ
u8 x = x % 2 ^ 8

abbrev pub u16 : ℕ → ℕ
u16 x = x % 2 ^ 16

-- `unsigned long`, of 64 bits.
abbrev pub ulong : ℕ → ℕ
ulong x = x % 2 ^ 64

abbrev pub u32 : ℕ → ℕ
u32 x = x % 2 ^ 32

-- Spare fuel of the digit recursion changes nothing.
module _ (z : ℕ → ℕ) (f : ℕ → ℕ → ℕ) where
  digits-fuel : (n m a b : ℕ) → a ≤ n → a ≤ m → digits z f n a b ≡ digits z f m a b
  digits-fuel zero zero a b p q = refl
  digits-fuel zero (suc m) zero b p q = refl
  digits-fuel zero (suc m) (suc a) b p q = absurd (omega arith)
  digits-fuel (suc n) zero zero b p q = refl
  digits-fuel (suc n) zero (suc a) b p q = absurd (omega arith)
  digits-fuel (suc n) (suc m) zero b p q = refl
  digits-fuel (suc n) (suc m) (suc a) b p q =
      omega (arith, digits-fuel n m (suc a / 2) (b / 2) (omega arith) (omega arith))

or_digit : (a b : ℕ) → bit_or a b ≡ 2 * bit_or (a / 2) (b / 2) + max (a % 2) (b % 2)
or_digit zero b = omega (arith, bit_or-bitwise 0 b, bit_or-bitwise 0 (b / 2))
or_digit (suc a) b = omega (
  arith,
  bit_or-bitwise (suc a) b,
  bit_or-bitwise (suc a / 2) (b / 2),
  digits-fuel (λ y. y) max a (suc a / 2) (suc a / 2) (b / 2) (omega arith) (omega arith),
)

and_digit : (a b : ℕ) → bit_and a b ≡ 2 * bit_and (a / 2) (b / 2) + min (a % 2) (b % 2)
and_digit zero b = omega (arith, bit_and-bitwise 0 b, bit_and-bitwise 0 (b / 2))
and_digit (suc a) b = omega (
  arith,
  bit_and-bitwise (suc a) b,
  bit_and-bitwise (suc a / 2) (b / 2),
  digits-fuel (λ y. 0) min a (suc a / 2) (suc a / 2) (b / 2) (omega arith) (omega arith),
)

or_none_fuel : (n a : ℕ) → a ≤ n → bit_or a 0 ≡ a
or_none_fuel n zero h = refl
or_none_fuel zero (suc a) h = absurd (omega arith)
or_none_fuel (suc n) (suc a) h =
    omega (arith, or_digit (suc a) 0, or_none_fuel n (suc a / 2) (omega arith))

and_none_fuel : (n a : ℕ) → a ≤ n → bit_and a 0 ≡ 0
and_none_fuel n zero h = refl
and_none_fuel zero (suc a) h = absurd (omega arith)
and_none_fuel (suc n) (suc a) h =
    omega (arith, and_digit (suc a) 0, and_none_fuel n (suc a / 2) (omega arith))

double_pow : (q k : ℕ) → q * 2 ^ suc k ≡ 2 * (q * 2 ^ k)
double_pow q k = omega (arith, ap (λ (t : ℕ). q * t) (pow-suc 2 k))

-- A field of `k` bits below the shifted rest: `|` is a sum.
pub or_field : (k q r : ℕ) → r < 2 ^ k → bit_or (q << k) r ≡ q * 2 ^ k + r
or_field zero q r h = ground (arith, or_none_fuel q q)
or_field (suc k) q r h = ground (
  arith,
  or_digit (q * 2 ^ suc k) r,
  double_pow q k,
  pow-suc 2 k,
  or_field k q (r / 2) (omega (arith, pow-suc 2 k)),
)

-- The same field given first.
pub or_field_above : (k h q r : ℕ) → r < 2 ^ k → h ≡ q * 2 ^ k → bit_or h r ≡ h + r
or_field_above k h q r lt e = ground (arith, or_field k q r lt)

and_low : (k q r : ℕ) → r < 2 ^ k → bit_and (q * 2 ^ k + r) (2 ^ k - 1) ≡ r
and_low zero q r h = ground (arith, and_none_fuel (q * 2 ^ 0 + r) (q * 2 ^ 0 + r))
and_low (suc k) q r h = ground (
  arith,
  and_digit (q * 2 ^ suc k + r) (2 ^ suc k - 1),
  double_pow q k,
  pow-suc 2 k,
  one-le-pow k 2,
  and_low k q (r / 2) (omega (arith, pow-suc 2 k)),
)

-- `&` with a mask of the `k` low bits is a remainder.
pub and_mask : (k a : ℕ) → bit_and a (2 ^ k - 1) ≡ a % 2 ^ k
and_mask k a = ground (arith, one-le-pow k 2, and_low k (a / 2 ^ k) (a % 2 ^ k))
