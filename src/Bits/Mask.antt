-- ===== src/Bits/Mask.antt =====
-- `x & mask` is at most the mask.
use Prim.Native.Nat.{digits, bit_and, bit_and-bitwise}
use pycachesim.Base.{ℕ, zero, suc, ◌/◌, ◌≤◌, min, arith}

digits-le : (n a b : ℕ) → digits (λ _. zero) min n a b ≤ b
digits-le zero a b = omega arith
digits-le (suc n) zero b = omega arith
digits-le (suc n) (suc a) b = omega (arith, digits-le n (suc a / 2) (b / 2))

pub bit_and-le : (a b : ℕ) → bit_and a b ≤ b
bit_and-le a b = omega (arith, bit_and-bitwise a b, digits-le a a b)
