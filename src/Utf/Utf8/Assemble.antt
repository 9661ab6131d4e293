-- ===== src/Utf/Utf8/Assemble.antt =====
-- The parts of `utf8_decode_next` in plain arithmetic.
use skate.Prelude.{ℕ, zero, suc, ◌+◌, ◌-◌, ◌*◌, ◌/◌, ◌%◌, ◌<◌, bit_and, ◌==◌}
use skate.Prelude.{ltb, if◌then◌else◌, ◌≡◌, refl, ap, List, [], ◌∷◌, ◌++◌, map, arith, All}
use skate.Prelude.{Option, none, some, length, Bool-cases, inl, inr}
use skate.Prelude.Bits.{or_field_above, and_mask, ◌>>◌, u8}
use skate.Prelude.Table.{holds_below, eq_below}
use skate.Utf.Decode.{utf8_byte_count_for_starting_byte, read_continuation, store_byte, assemble}

abbrev pub IsByte : ℕ → Type 0
IsByte b = b < 256

abbrev pub IsSix : ℕ → Type 0
IsSix b = b < 64

abbrev pub trailing : List ℕ → List ℕ
trailing = map (λ b. 0x80 + b)

-- How many bytes a start byte announces.
abbrev pub announced : ℕ → ℕ
announced b =
    if ltb b 0x80
    then 1
    else if ltb b 0xC0
    then 0
    else if ltb b 0xE0
    then 2
    else if ltb b 0xF0
    then 3
    else if ltb b 0xF8
    then 4
    else 0

pub byte_count-announced : (b : ℕ) → IsByte b → utf8_byte_count_for_starting_byte b ≡ announced b
unfolding utf8_byte_count_for_starting_byte holds_below
byte_count-announced = eq_below 256 utf8_byte_count_for_starting_byte announced refl

-- Continuation bytes are read to the end, whatever follows them.
pub read_continuation-trailing :
    (bs rest : List ℕ)
    → All IsSix bs
    → read_continuation (length bs) (trailing bs ++ rest) ≡ (rest, some bs)
unfolding read_continuation
read_continuation-trailing [] rest h = refl
read_continuation-trailing (b ∷ bs) rest h =
    ground (arith, and_mask 7 (0x80 + b), read_continuation-trailing bs rest)

-- What a read of `n` continuation bytes says of the input.
abbrev pub Stops : ℕ → List ℕ → List ℕ × Option (List ℕ) → Type 0
Stops n first (stop, none) = Unit {0}
Stops n first (stop, some bs) =
    (length bs ≡ n) × (first ≡ trailing bs ++ stop) × All IsSix bs × All IsByte stop

six_bits : (b : ℕ) → IsByte b → b / 64 ≡ 2 → bit_and (u8 b) 0x7f ≡ b - 128
six_bits b h e = ground (arith, and_mask 7 b)

Stops-store_byte :
    (n b : ℕ) (first : List ℕ) (r : List ℕ × Option (List ℕ))
    → IsByte b
    → b / 64 ≡ 2
    → Stops n first r
    → Stops (suc n) (b ∷ first) (store_byte (bit_and (u8 b) 0x7f) r)
unfolding store_byte
Stops-store_byte n b first (stop, none) h e s = tt
Stops-store_byte n b first (stop, some bs) h e (l, f, six, byte) =
    rw (six_bits b h e) (ap suc l, ground arith, (omega arith, six), byte)

-- Where they are all read, they were there.
pub read_continuation-Stops :
    (n : ℕ) (first : List ℕ) → All IsByte first → Stops n first (read_continuation n first)
unfolding read_continuation
read_continuation-Stops zero first h = (refl, refl, tt, h)
read_continuation-Stops (suc n) [] h = tt
read_continuation-Stops (suc n) (b ∷ first) (hb, h) = elim (Bool-cases (u8 b >> 6 == 2)) [
  | inl e ↦ rw e (
      Stops-store_byte n b first (read_continuation n first) hb (ground arith)
        (read_continuation-Stops n first h))
  | inr e ↦ rw e tt
]

pub assemble_two : (s a : ℕ) → a < 64 → assemble s (a ∷ []) ≡ s % 32 * 64 + a
unfolding assemble
assemble_two s a h = ground (arith, and_mask 5 s, or_field_above 6 (s % 32 * 64) (s % 32) a)

pub assemble_three :
    (s a b : ℕ) → a < 64 → b < 64 → assemble s (a ∷ b ∷ []) ≡ s % 16 * 4096 + a * 64 + b
unfolding assemble
assemble_three s a b ha hb = ground (
  arith,
  and_mask 4 s,
  or_field_above 12 (s % 16 * 4096) (s % 16) (a * 64),
  or_field_above 6 (s % 16 * 4096 + a * 64) (s % 16 * 64 + a) b,
)

pub assemble_four :
    (s a b c : ℕ)
    → a < 64
    → b < 64
    → c < 64
    → assemble s (a ∷ b ∷ c ∷ []) ≡ s % 8 * 262144 + a * 4096 + b * 64 + c
unfolding assemble
assemble_four s a b c ha hb hc = ground (
  arith,
  and_mask 3 s,
  or_field_above 18 (s % 8 * 262144) (s % 8) (a * 4096),
  or_field_above 12 (s % 8 * 262144 + a * 4096) (s % 8 * 64 + a) (b * 64),
  or_field_above 6 (s % 8 * 262144 + a * 4096 + b * 64) (s % 8 * 4096 + a * 64 + b) c,
)
