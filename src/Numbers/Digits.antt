-- ===== src/Numbers/Digits.antt =====
-- The lowest digit of `x & y`, and what that says of `x & x`.
use Prim.Native.Nat.{digits, bit_and, bit_and-bitwise}
use pycachesim.Base.{ℕ, zero, suc, ◌+◌, ◌*◌, ◌/◌, ◌%◌, ◌≤◌, ◌<◌, ◌≡◌, refl, sym, min, arith}

-- The digits of the conjunction that `m` rounds give.
abbrev common : ℕ → ℕ → ℕ → ℕ
common m x y = digits (λ _. zero) min m x y

common-bit_and : (x y : ℕ) → common x x y ≡ bit_and x y
common-bit_and x y = sym (bit_and-bitwise x y)

-- Rounds after the last digit of `x` give no digit.
more_rounds : (bound m x y : ℕ) → m < bound → x ≤ m → common m x y ≡ common x x y
more_rounds zero m x y lt le = absurd (omega arith)
more_rounds (suc bound) m zero y lt le = no_digits m
  where
    no_digits : (k : ℕ) → common k 0 y ≡ 0
    no_digits zero = refl
    no_digits (suc k) = refl
more_rounds (suc bound) zero (suc x) y lt le = absurd (omega arith)
more_rounds (suc bound) (suc m) (suc x) y lt le =
    let long = more_rounds bound m (suc x / 2) (y / 2) (omega arith) (omega arith) in
    let short = more_rounds bound x (suc x / 2) (y / 2) (omega arith) (omega arith) in omega arith

pub bit_and-halves : (x y : ℕ) → bit_and x y ≡ 2 * bit_and (x / 2) (y / 2) + min (x % 2) (y % 2)
bit_and-halves zero y =
    let here = common-bit_and 0 y in let there = common-bit_and 0 (y / 2) in omega arith
bit_and-halves (suc x) y =
    let here = common-bit_and (suc x) y in
    let there = common-bit_and (suc x / 2) (y / 2) in
    let same = more_rounds (suc x) x (suc x / 2) (y / 2) (omega arith) (omega arith) in omega arith

pub bit_and_self : (bound x : ℕ) → x ≤ bound → bit_and x x ≡ x
bit_and_self bound zero le = sym (common-bit_and 0 0)
bit_and_self zero (suc x) le = absurd (omega arith)
bit_and_self (suc bound) (suc x) le =
    let rest = bit_and_self bound (suc x / 2) (omega arith) in
    let halves = bit_and-halves (suc x) (suc x) in omega arith
