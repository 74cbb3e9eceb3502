-- ===== src/Bits/Table.antt =====
-- The laws of one char of a bit array, for each of the 256 chars, each position that is written and
-- each that is read.
use native.Mathlib.Nat.{mod-mod}
use pycachesim.Base.{
  ℕ, zero, suc, ◌+◌, ◌/◌, ◌%◌, ◌*◌, ◌<◌, ◌^◌, ◌≡◌, refl, ap, Bool, true, false, not, ◌&&◌, ◌||◌,
  arith, ◌==◌, ltb, if◌then◌else◌,
}
use pycachesim.Bits.{bitmask, byte_set, byte_clear, byte_test}

-- A test that passes on every number of a table.
passes : (ℕ → Bool) → ℕ → Bool
passes test zero = true
passes test (suc size) = if test size then passes test size else false

passes_at : (test : ℕ → Bool) (size n : ℕ) → n < size → passes test size ≡ true → test n ≡ true
unfolding passes
passes_at test zero n below pass = absurd (omega arith)
passes_at test (suc size) n below pass = let earlier = passes_at test size n in ground arith

abbrev same : Bool → Bool → Bool
same true b = b
same false b = not b

same→eq : (a b : Bool) → same a b ≡ true → a ≡ b
same→eq true b h = ground arith
same→eq false b h = ground arith

and_left : (a b : Bool) → (a && b) ≡ true → a ≡ true
and_left true b h = refl
and_left false b h = h

and_right : (a b : Bool) → (a && b) ≡ true → b ≡ true
and_right true b h = h
and_right false b h = ground arith

ltb→lt : (a b : ℕ) → ltb a b ≡ true → a < b
ltb→lt a b h = ground arith

-- A char, a position and another, as one number below 256 * 8 * 8.
abbrev check : (ℕ → ℕ → ℕ → Bool) → ℕ → Bool
check p n = p (n / 64) (n / 8 % 8) (n % 8)

abbrev set_law : ℕ → ℕ → ℕ → Bool
set_law x i j =
    same (byte_test (byte_set x i) j) ((i == j) || byte_test x j) && ltb (byte_set x i) 256

abbrev clear_law : ℕ → ℕ → ℕ → Bool
clear_law x i j =
    same (byte_test (byte_clear x i) j) (not (i == j) && byte_test x j) && ltb (byte_clear x i) 256

set_table : passes (check set_law) 16384 ≡ true
unfolding passes byte_set byte_test
set_table = refl

clear_table : passes (check clear_law) 16384 ≡ true
unfolding passes byte_clear byte_test
clear_table = refl

-- A table gives its law at every char and every two positions.
lookup :
    (p : ℕ → ℕ → ℕ → Bool) (x i j : ℕ)
    → passes (check p) 16384 ≡ true
    → x < 256
    → i < 8
    → j < 8
    → p x i j ≡ true
lookup p x i j t hx hi hj =
    let n = x * 64 + i * 8 + j in
    let e₁ : n / 64 ≡ x = omega arith in
    let e₂ : n / 8 % 8 ≡ i = omega arith in
    let e₃ : n % 8 ≡ j = omega arith in
    rw (e₁, e₂, e₃) at (passes_at (check p) 16384 n (omega arith) t)

at_position : (b : ℕ) → bitmask (b % 8) ≡ bitmask b
at_position b = ap (λ n. 2 ^ n) (mod-mod b 8)

-- `byte_set` sets the bit of its position, leaves the seven others, and yields a char.
pub byte_test-byte_set :
    (x b c : ℕ)
    → x < 256
    → (byte_test (byte_set x b) c ≡ ((b % 8 == c % 8) || byte_test x c)) × (byte_set x b < 256)
unfolding byte_test byte_set
byte_test-byte_set x b c h =
    let law = lookup set_law x (b % 8) (c % 8) set_table h (omega arith) (omega arith) in
    let law' = rw (at_position b, at_position c) at law in
    (same→eq _ _ (and_left _ _ law'), ltb→lt _ _ (and_right _ _ law'))

-- `byte_clear` clears the bit of its position, leaves the seven others, and yields a char.
pub byte_test-byte_clear :
    (x b c : ℕ)
    → x < 256
    → (byte_test (byte_clear x b) c ≡ (not (b % 8 == c % 8) && byte_test x c))
      × (byte_clear x b < 256)
unfolding byte_test byte_clear
byte_test-byte_clear x b c h =
    let law = lookup clear_law x (b % 8) (c % 8) clear_table h (omega arith) (omega arith) in
    let law' = rw (at_position b, at_position c) at law in
    (same→eq _ _ (and_left _ _ law'), ltb→lt _ _ (and_right _ _ law'))
