-- ===== src/Numbers/Laws.antt =====
-- `log2_uint` and `isPowerOfTwo` of cachesim/backend.c, and the powers of two.
use Prim.Native.Nat.{bit_and}
use mathlib.Core.Path.{subst}
use native.Mathlib.Nat.{one-le-pow}
use pycachesim.Base.{
  ℕ, zero, suc, ◌+◌, ◌-◌, ◌*◌, ◌/◌, ◌%◌, ◌^◌, ◌≤◌, ◌<◌, ◌≡◌, ◌↔◌, sym, ◌∙◌, true, arith, ◌==◌,
  Returns, returns, weaken, if-Returns, ==→eq,
}
use pycachesim.Numbers.{log2_from, log2_uint, is_power_of_two}
use pycachesim.Numbers.Digits.{bit_and-halves, bit_and_self}

abbrev pub IsPower : ℕ → Type 0
IsPower x = (k : ℕ) × (x ≡ 2 ^ k)

log2_from-bounds :
    (n x ans : ℕ)
    → 0 < x
    → x < 2 ^ suc n
    → Returns
        (λ r. (k : ℕ) × (r ≡ ans + k) × (2 ^ k ≤ x) × (x < 2 ^ suc k))
        (log2_from (suc n) x ans)
unfolding log2_from
log2_from-bounds zero x ans pos h =
    let one : x / 2 ≡ 0 = omega arith in rw one (returns (0, omega arith, omega arith, omega arith))
log2_from-bounds (suc n) x ans pos h =
    if-Returns (x / 2 == 0)
      (λ e. let one = ==→eq (x / 2) 0 e in returns (0, omega arith, omega arith, omega arith))
      (λ e.
        let more : 0 < x / 2 = ground arith in
        weaken (log2_from-bounds n (x / 2) (ans + 1) more (omega arith))
          (λ r (k, is, low, high). (suc k, omega arith, omega arith, omega arith)))

-- Of a positive `unsigned long` the loop computes the index of the highest set bit, within its
-- rounds.
pub log2_uint-bounds :
    (x : ℕ) → 0 < x → x < 2 ^ 64 → Returns (λ k. (2 ^ k ≤ x) × (x < 2 ^ suc k)) (log2_uint x)
unfolding log2_uint
log2_uint-bounds x pos h =
    weaken (log2_from-bounds 63 x 0 pos h)
      (λ r (k, is, low, high). let same : r ≡ k = omega arith in rw same (low, high))

IsPower-double : (y : ℕ) → IsPower y ↔ IsPower (2 * y)
IsPower-double y = (λ (k, e). (suc k, omega arith), λ (k, e). halve k e)
  where
    halve : (k : ℕ) → 2 * y ≡ 2 ^ k → IsPower y
    halve zero e = absurd (omega arith)
    halve (suc k) e = (k, omega arith)

odd-IsPower : (y : ℕ) → IsPower (2 * y + 1) → y ≡ 0
odd-IsPower y (zero, e) = omega arith
odd-IsPower y (suc k, e) = absurd (omega arith)

and_pred-even : (x y : ℕ) → x ≡ 2 * y → 0 < y → bit_and x (x - 1) ≡ 2 * bit_and y (y - 1)
and_pred-even x y e pos =
    let half : x / 2 ≡ y = omega arith in
    let half' : (x - 1) / 2 ≡ y - 1 = omega arith in
    bit_and-halves x (x - 1) ∙ rw (half, half') (omega arith)

and_pred-odd : (x y : ℕ) → x ≡ 2 * y + 1 → bit_and x (x - 1) ≡ 2 * y
and_pred-odd x y e =
    let half : x / 2 ≡ y = omega arith in
    let half' : (x - 1) / 2 ≡ y = omega arith in
    bit_and-halves x (x - 1) ∙ rw (half, half', bit_and_self y y (omega arith)) (omega arith)

-- `x & (x - 1)` is 0 at the powers of two only.
and_pred_iff : (n x : ℕ) → 0 < x → x ≤ n → (bit_and x (x - 1) ≡ 0) ↔ IsPower x
and_pred_iff zero x pos h = absurd (omega arith)
and_pred_iff (suc n) x pos h =
    by_parity (x % 2) (omega arith) (omega arith)
      (λ more. and_pred_iff n (x / 2) more (omega arith))
  where
    by_parity :
        (r : ℕ)
        → x ≡ 2 * (x / 2) + r
        → r < 2
        → (0 < x / 2 → (bit_and (x / 2) (x / 2 - 1) ≡ 0) ↔ IsPower (x / 2))
        → (bit_and x (x - 1) ≡ 0) ↔ IsPower x
    by_parity zero e lt ih =
        let twice : x ≡ 2 * (x / 2) = omega arith in
        let step = and_pred-even x (x / 2) twice (omega arith) in
        let (to, from) = ih (omega arith) in
        let (up, down) = IsPower-double (x / 2) in
        (
          λ z. subst IsPower (sym twice) (up (to (omega arith))),
          λ p. let z = from (down (subst IsPower twice p)) in omega arith,
        )
    by_parity (suc zero) e lt ih =
        let step = and_pred-odd x (x / 2) e in
        (λ z. (0, omega arith), λ p. let z = odd-IsPower (x / 2) (subst IsPower e p) in omega arith)
    by_parity (suc (suc r)) e lt ih = absurd (omega arith)

-- `isPowerOfTwo` answers true exactly for the powers of two.
pub is_power_of_two-IsPower : (x : ℕ) → (is_power_of_two x ≡ true) ↔ IsPower x
unfolding is_power_of_two
is_power_of_two-IsPower zero =
    (λ e. cc, λ (k, e). let pos = one-le-pow k 2 (omega arith) in absurd (omega arith))
is_power_of_two-IsPower (suc x) =
    let (to, from) = and_pred_iff (suc x) (suc x) (omega arith) (omega arith) in
    (λ e. to (ground arith), λ p. let z = from p in ground arith)

-- At the powers of two below 2^64, `log2_uint` is the inverse of `2 ^ k`.
pub log2_uint-IsPower : (x : ℕ) → IsPower x → x < 2 ^ 64 → Returns (λ k. x ≡ 2 ^ k) (log2_uint x)
log2_uint-IsPower x (k, e) h =
    let pos = one-le-pow k 2 (omega arith) in
    weaken (log2_uint-bounds x (omega arith) h) (λ r (low, high).
      let le : r ≤ k = pow_le _ _ (omega arith) in
      let ge : k ≤ r = pow_le _ _ (omega arith) in let same : r ≡ k = omega arith in rw same e)
  where
    pow_le : (a b : ℕ) → 2 ^ a < 2 ^ suc b → a ≤ b
    pow_le zero b h = omega arith
    pow_le (suc a) zero h = let pos = one-le-pow a 2 (omega arith) in absurd (omega arith)
    pow_le (suc a) (suc b) h = let r = pow_le a b (omega arith) in omega arith
