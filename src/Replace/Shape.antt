-- ===== src/Replace/Shape.antt =====
-- What holds of a cache between two calls: its arrays have the sizes that the indices need. The
-- bits of a cache are accessed only if it combines writes; it then has a bit for each byte of a line.
use pycachesim.Base.{
  ℕ, ◌*◌, ◌^◌, ◌≤◌, ◌<◌, ◌≡◌, refl, ap, ◌∙◌, Bool, true, false, Option, some, List, arith, ◌==◌,
  if◌then◌else◌, length, require, Returns, returns, bind, weaken, null_pointer,
}
use pycachesim.Bits.{bitset, bitclear, bitslot}
use pycachesim.Bits.Laws.{IsChars, bitset-IsUpdate, bitclear-IsUpdate, bittest-ok}
use pycachesim.Cache.{Cache, Entry}
use pycachesim.Replace.{test_bit, write_bit}

pub record HasBits (self : Cache) (field : Option (List ℕ)) : Type 0 where
  pub chars : List ℕ
  pub is : field ≡ some chars
  pub valid : IsChars chars
  pub enough : self.sets * self.ways * self.subblock_bits ≤ 8 * length chars
  pub whole : self.subblock_bits ≡ self.cl_size
  pub back : self.write_back ≡ 1

pub record HasShape (self : Cache) : Type 0 where
  pub sets_pos : 0 < self.sets
  pub ways_pos : 0 < self.ways
  pub size : self.cl_size ≡ 2 ^ self.cl_bits
  pub room : length self.placement ≡ self.sets * self.ways
  pub combining : (self.write_combining == 1) ≡ true → HasBits self self.subblock_bitfield

-- Other entries and other bits.
abbrev pub with_lines : Cache → List Entry → Option (List ℕ) → Cache
with_lines c placement field = record c { placement = placement; subblock_bitfield = field }

-- `c'` differs from `c` at most in its entries and its bits, and keeps the shape.
pub record Kept (c c' : Cache) : Type 0 where
  pub only : c' ≡ with_lines c c'.placement c'.subblock_bitfield
  pub shape : HasShape c'

pub Kept-trans : {c c' c'' : Cache} → Kept c c' → Kept c' c'' → Kept c c''
Kept-trans {c} {c'} {c''} k k' = record {
  only = k'.only ∙ ap (λ x. with_lines x c''.placement c''.subblock_bitfield) k.only;
  shape = k'.shape;
}

pub Kept-refl : {c : Cache} → HasShape c → Kept c c
Kept-refl s = record { only = refl; shape = s }

-- New entries in the same number.
pub Kept-placement :
    {c : Cache} (placement : List Entry)
    → HasShape c
    → length placement ≡ length c.placement
    → Kept c (record c { placement = placement })
Kept-placement placement s e = record {
  only = refl;
  shape = record {
    sets_pos = s.sets_pos;
    ways_pos = s.ways_pos;
    size = s.size;
    room = e ∙ s.room;
    combining = λ on.
        let h = s.combining on in
        record {
          chars = h.chars;
          is = h.is;
          valid = h.valid;
          enough = h.enough;
          whole = h.whole;
          back = h.back;
        };
  };
}

module _ (c : Cache) (shape : HasShape c) (combines : (c.write_combining == 1) ≡ true) (b : ℕ)
    (lt : b < c.sets * c.ways * c.subblock_bits) where
  slot_lt : (h : HasBits c c.subblock_bitfield) → bitslot b < length h.chars
  slot_lt h = omega (arith, h.enough)

  IsChars-at :
      Returns
        (λ a.
          IsChars a × (bitslot b < length a) × (c.sets * c.ways * c.subblock_bits ≤ 8 * length a))
        (require null_pointer c.subblock_bitfield)
  IsChars-at = let h = shape.combining combines in rw h.is (returns (h.valid, slot_lt h, h.enough))

  written :
      (v : Bool) (a : List ℕ)
      → IsChars a × (bitslot b < length a) × (c.sets * c.ways * c.subblock_bits ≤ 8 * length a)
      → Returns
          (λ a'. IsChars a' × (c.sets * c.ways * c.subblock_bits ≤ 8 * length a'))
          (if v then bitset a b else bitclear a b)
  written true a k = weaken (bitset-IsUpdate a b k.0 k.1) (λ a' u. (u.chars, rw u.size k.2))
  written false a k = weaken (bitclear-IsUpdate a b k.0 k.1) (λ a' u. (u.chars, rw u.size k.2))

  pub test_bit-returns : Returns (λ _. Unit {0}) (test_bit c b)
  unfolding test_bit
  test_bit-returns = bind IsChars-at (λ a k. bittest-ok a b k.1)

  Kept-bits :
      (a : List ℕ)
      → IsChars a
      → c.sets * c.ways * c.subblock_bits ≤ 8 * length a
      → Kept c (record c { subblock_bitfield = some a })
  Kept-bits a valid enough = record {
    only = refl;
    shape = record {
      sets_pos = shape.sets_pos;
      ways_pos = shape.ways_pos;
      size = shape.size;
      room = shape.room;
      combining = λ on.
          let h = shape.combining on in
          record {
            chars = a;
            is = refl;
            valid = valid;
            enough = enough;
            whole = h.whole;
            back = h.back;
          };
    };
  }

  pub write_bit-Kept :
      (v : Bool) → Returns (λ c'. Kept c c' × (c'.placement ≡ c.placement)) (write_bit c b v)
  unfolding write_bit
  write_bit-Kept v =
      bind IsChars-at (λ a k. bind (written v a k) (λ a' u. returns (Kept-bits a' u.0 u.1, refl)))
