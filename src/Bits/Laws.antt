-- ===== src/Bits/Laws.antt =====
-- BITSET, BITCLEAR and BITTEST of cachesim/backend.h on a whole array.
use pycachesim.Base.{
  ℕ, ◌%◌, ◌<◌, ◌≡◌, Bool, true, false, some, List, arith, ◌==◌, if◌then◌else◌, length, get_elem?,
  set, get_elem?_of_lt, length-set, get_elem?-set, ok, Returns, returns,
}
use pycachesim.Bits.{bitslot, byte_test, bitset, bitclear, bittest}
use pycachesim.Bits.Table.{byte_test-byte_set, byte_test-byte_clear}

-- Every element is a char.
abbrev pub IsChars : List ℕ → Type 0
IsChars a = (i x : ℕ) → get_elem? a i ≡ some x → x < 256

-- `a'` is `a`, but for the bit `b`, which is `v`.
pub record IsUpdate (a : List ℕ) (b : ℕ) (v : Bool) (a' : List ℕ) : Type 0 where
  pub chars : IsChars a'
  pub size : length a' ≡ length a
  pub bits : (c : ℕ) → bittest a' c ≡ (if b == c then ok v else bittest a c)

IsChars-set : (a : List ℕ) (i x : ℕ) → IsChars a → i < length a → x < 256 → IsChars (set a i x)
IsChars-set a i x h lt hx j y e = ground (arith, get_elem?-set a i j x lt, h j y)

module _ (a : List ℕ) (b : ℕ) (chars : IsChars a) (lt : bitslot b < length a) where
  -- A char that differs from the old one at most in the bit's position, written in its slot.
  bittest-set :
      (x y : ℕ) (v : Bool)
      → get_elem? a (bitslot b) ≡ some x
      → ((c : ℕ) → byte_test y c ≡ (if b % 8 == c % 8 then v else byte_test x c))
      → (c : ℕ) → bittest (set a (bitslot b) y) c ≡ (if b == c then ok v else bittest a c)
  unfolding bittest
  bittest-set x y v e h c = ground (arith, get_elem?-set a (bitslot b) (bitslot c) y lt, h c)

  -- BITSET inside the array sets the bit, and changes nothing else.
  pub bitset-IsUpdate : Returns (IsUpdate a b true) (bitset a b)
  unfolding bitset
  bitset-IsUpdate =
      let (x, e) = get_elem?_of_lt a (bitslot b) lt in
      let small = chars (bitslot b) x e in
      rw e (
        returns (record {
          chars = IsChars-set a (bitslot b) _ chars lt (byte_test-byte_set x b 0 small).1;
          size = length-set a (bitslot b) _;
          bits = bittest-set x _ true e (λ c. ground (arith, byte_test-byte_set x b c small));
        }))

  -- BITCLEAR inside the array clears the bit, and changes nothing else.
  pub bitclear-IsUpdate : Returns (IsUpdate a b false) (bitclear a b)
  unfolding bitclear
  bitclear-IsUpdate =
      let (x, e) = get_elem?_of_lt a (bitslot b) lt in
      let small = chars (bitslot b) x e in
      rw e (
        returns (record {
          chars = IsChars-set a (bitslot b) _ chars lt (byte_test-byte_clear x b 0 small).1;
          size = length-set a (bitslot b) _;
          bits = bittest-set x _ false e (λ c. ground (arith, byte_test-byte_clear x b c small));
        }))

-- BITTEST inside the array returns.
pub bittest-ok : (a : List ℕ) (b : ℕ) → bitslot b < length a → Returns (λ _. Unit {0}) (bittest a b)
unfolding bittest
bittest-ok a b lt = let (x, e) = get_elem?_of_lt a (bitslot b) lt in rw e (returns tt)
