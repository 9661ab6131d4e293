-- ===== src/Prelude/Table.antt =====
-- Facts over a small range of numbers, checked value by value.
use skate.Prelude.Tests.{◌==◌, ltb, ltb→lt}
use Prim.Native.Nat.{ℕ, zero, suc, ◌<◌}
use mathlib.Core.Path.{◌≡◌}
use mathlib.Core.Bool.{Bool, true, ◌&&◌}
use native.Mathlib.Omega.{arith}

unfoldable pub holds_below : ℕ → (ℕ → Bool) → Bool
holds_below zero p = true
holds_below (suc n) p = p n && holds_below n p

pub holds_below_sound :
    (n : ℕ) (p : ℕ → Bool) → holds_below n p ≡ true → (x : ℕ) → x < n → p x ≡ true
unfolding holds_below
holds_below_sound zero p h x lt = absurd (omega arith)
holds_below_sound (suc n) p h x lt = ground (arith, holds_below_sound n p (ground arith) x)

-- Two functions that agree on every value below `n`, by evaluation.
pub eq_below :
    (n : ℕ) (f g : ℕ → ℕ) → holds_below n (λ x. f x == g x) ≡ true → (x : ℕ) → x < n → f x ≡ g x
eq_below n f g h x lt = ground (arith, holds_below_sound n (λ y. f y == g y) h x)

-- A bound that holds on every value below `n`.
pub lt_below :
    (n m : ℕ) (f : ℕ → ℕ) → holds_below n (λ x. ltb (f x) m) ≡ true → (x : ℕ) → x < n → f x < m
lt_below n m f h x lt = ltb→lt _ _ (holds_below_sound n (λ y. ltb (f y) m) h x lt)
