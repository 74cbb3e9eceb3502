-- ===== src/Numbers.antt =====
-- `log2_uint` and `isPowerOfTwo` of cachesim/backend.c. A `long` is a natural number here; an
-- `unsigned long` has 64 bits, so 64 rounds of its loop are enough.
pub mod Digits
pub mod Laws
use Prim.Native.Nat.{bit_and}
use pycachesim.Base.{
  ℕ, zero, suc, ◌+◌, ◌-◌, ◌/◌, Bool, not, ◌&&◌, ◌==◌, if◌then◌else◌, Result, ok, fault, out_of_fuel,
}

-- The loop `while(x >>= 1) ans++`.
unfoldable pub log2_from : ℕ → ℕ → ℕ → Result ℕ
log2_from zero x ans = fault out_of_fuel
log2_from (suc fuel) x ans =
    let rest = log2_from fuel (x / 2) (ans + 1) in if x / 2 == 0 then ok ans else rest

unfoldable pub log2_uint : ℕ → Result ℕ
log2_uint x = log2_from 64 x 0

unfoldable pub is_power_of_two : ℕ → Bool
is_power_of_two x = not (x == 0) && bit_and x (x - 1) == 0
