-- ===== src/Prelude/Bits.antt =====
-- A bound on `bit_and`, whose value no tactic knows.
use Prim.Native.Nat.{ℕ, zero, suc, ◌/◌, ◌≤◌, min, bit_and, digits, bit_and-bitwise}
use native.Mathlib.Omega.{arith}

digits_bound : (n a b : ℕ) → digits (λ b. zero) min n a b ≤ b
digits_bound zero zero b = omega arith
digits_bound zero (suc a) b = omega arith
digits_bound (suc n) zero b = omega arith
digits_bound (suc n) (suc a) b = omega (arith, digits_bound n (suc a / 2) (b / 2))

-- A mask is not exceeded.
pub bit_and_bound : (a b : ℕ) → bit_and a b ≤ b
bit_and_bound zero b = omega (arith, bit_and-bitwise 0 b)
bit_and_bound (suc a) b =
    omega (arith, bit_and-bitwise (suc a) b, digits_bound a (suc a / 2) (b / 2))
