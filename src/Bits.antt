-- ===== src/Bits.antt =====
-- The array of bits of cachesim/backend.h: the macros BITMASK, BITSLOT, BITSET, BITCLEAR, BITTEST
-- and BITNSLOTS over an array of chars. A char is its bit pattern, a number below 256; an index
-- outside the array is a fault.
pub mod Table
pub mod Laws
pub mod Mask
use Prim.Native.Nat.{bit_and, bit_or}
use pycachesim.Base.{
  ℕ, ◌+◌, ◌-◌, ◌/◌, ◌%◌, ◌^◌, Bool, not, List, ◌==◌, Result, ok, ◌>>=◌, read, write,
}

abbrev pub char_bit : ℕ
char_bit = 8

abbrev pub bitmask : ℕ → ℕ
bitmask b = 2 ^ (b % char_bit)

abbrev pub bitslot : ℕ → ℕ
bitslot b = b / char_bit

abbrev pub bitnslots : ℕ → ℕ
bitnslots nb = (nb + char_bit - 1) / char_bit

-- What the three macros do to the char that holds the bit. `~` is taken on eight bits: the char
-- stored is the low byte.
unfoldable pub byte_set : ℕ → ℕ → ℕ
byte_set x b = bit_or x (bitmask b)

unfoldable pub byte_clear : ℕ → ℕ → ℕ
byte_clear x b = bit_and x (255 - bitmask b)

unfoldable pub byte_test : ℕ → ℕ → Bool
byte_test x b = not (bit_and x (bitmask b) == 0)

unfoldable pub bitset : List ℕ → ℕ → Result (List ℕ)
bitset a b = do x ← read a (bitslot b); write a (bitslot b) (byte_set x b)

unfoldable pub bitclear : List ℕ → ℕ → Result (List ℕ)
bitclear a b = do x ← read a (bitslot b); write a (bitslot b) (byte_clear x b)

unfoldable pub bittest : List ℕ → ℕ → Result Bool
bittest a b = do x ← read a (bitslot b); ok (byte_test x b)
