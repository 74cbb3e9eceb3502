-- ===== src/Replace.antt =====
-- The part of `Cache__inject` of cachesim/backend.c that chooses the entry to replace, moves the
-- queue of its set and writes the new entry, and the move to the front on a hit of `Cache__load`.
-- All of it works on one cache. The result of rand() is an argument.
pub mod Shape
pub mod Shift
pub mod Choice
pub mod Entries
pub mod Queue
pub mod Packed
use Prim.Native.Nat.{bit_and}
use pycachesim.Base.{
  ℕ, zero, suc, ◌+◌, ◌-◌, ◌*◌, Bool, true, false, not, ◌&&◌, ◌||◌, Option, none, some, List, ◌==◌,
  ltb, if◌then◌else◌, Result, ok, fault, ◌>>=◌, require, read, write, null_pointer, out_of_fuel,
}
use pycachesim.Bits.{bitset, bitclear, bittest}
use pycachesim.Cache.{Cache, Entry, get_set_id}

-- BITTEST, BITSET and BITCLEAR on `self->subblock_bitfield`, which may be NULL.
unfoldable pub test_bit : Cache → ℕ → Result Bool
test_bit self b = do a ← require null_pointer self.subblock_bitfield; bittest a b

unfoldable pub write_bit : Cache → ℕ → Bool → Result Cache
write_bit self b v = do
  a ← require null_pointer self.subblock_bitfield
  a' ← if v then bitset a b else bitclear a b
  ok (record self { subblock_bitfield = some a' })

-- `set_id*self->ways*self->subblock_bits + way*self->subblock_bits`
abbrev pub bit_base : Cache → ℕ → ℕ → ℕ
bit_base self set_id way = set_id * self.ways * self.subblock_bits + way * self.subblock_bits

-- The loop that gives one way the bits of another, with the rounds left and the counter.
unfoldable pub copy_bits : ℕ → ℕ → ℕ → ℕ → Cache → Result Cache
copy_bits zero j to from self = ok self
copy_bits (suc n) j to from self = do
  b ← test_bit self (from + j)
  self' ← write_bit self (to + j) b
  copy_bits n (j + 1) to from self'

-- One round of a reorder loop: the entry of one way, and its bits, go to another.
unfoldable pub move_way : Cache → ℕ → ℕ → ℕ → Result Cache
unfolding copy_bits
move_way self set_id to from = do
  e ← read self.placement (set_id * self.ways + from)
  placement ← write self.placement (set_id * self.ways + to) e
  let moved = record self { placement = placement }
  if self.write_combining == 1
      then copy_bits self.subblock_bits 0 (bit_base self set_id to) (bit_base self set_id from)
          moved
      else ok moved

-- `for(i = n; i > 0; i--)`: each of the ways 1 to n takes the entry of the way in front of it.
unfoldable pub shift_down : ℕ → ℕ → Cache → Result Cache
shift_down set_id zero self = ok self
shift_down set_id (suc i) self = do
  self' ← move_way self set_id (suc i) i
  shift_down set_id i self'

-- FIFO and LRU: replace the end of the queue.
unfoldable pub choose_last : Cache → ℕ → Result (ℕ × Entry × Cache)
choose_last self set_id = do
  old ← read self.placement (set_id * self.ways + self.ways - 1)
  self' ← shift_down set_id (self.ways - 1) self
  ok (0, old, self')

-- The loop `for(i=0; i>self->ways-1; i++)` of the MRU branch. Its test fails at once if there is a
-- way, so one round of fuel is enough.
unfoldable pub shift_up : ℕ → ℕ → ℕ → Cache → Result Cache
shift_up zero set_id i self = fault out_of_fuel
shift_up (suc fuel) set_id i self =
    if ltb self.ways (i + 1)
    then (do self' ← move_way self set_id i (i + 1); shift_up fuel set_id (i + 1) self')
    else ok self

-- MRU: replace the first of the queue.
unfoldable pub choose_first : Cache → ℕ → Result (ℕ × Entry × Cache)
unfolding shift_up
choose_first self set_id = do
  old ← read self.placement (set_id * self.ways)
  self' ← shift_up 1 set_id 0 self
  ok (self.ways - 1, old, self')

-- RR: replace a random element.
unfoldable pub choose_random : ℕ → Cache → ℕ → Result (ℕ × Entry × Cache)
choose_random draw self set_id = do
  let i = bit_and draw (self.ways - 1)
  old ← read self.placement (set_id * self.ways + i)
  ok (i, old, self)

unfoldable pub choose : ℕ → Cache → ℕ → Result (ℕ × Entry × Cache)
choose draw self set_id =
    if self.replacement_policy_id == 0 || self.replacement_policy_id == 1
    then choose_last self set_id
    else (if self.replacement_policy_id == 2
        then choose_first self set_id
        else choose_random draw self set_id)

-- From the choice to `self->placement[...] = *entry`: the index that is replaced, the entry that was
-- there, and the cache.
unfoldable pub replace : ℕ → Cache → ℕ → Entry → Result (ℕ × Entry × Cache)
replace draw self set_id entry = do
  (i, old, self') ← choose draw self set_id
  placement ← write self'.placement (set_id * self'.ways + i) entry
  ok (i, old, record self' { placement = placement })

-- Whether the policy calls rand().
unfoldable pub draws_random : Cache → Bool
draws_random self =
    not (self.replacement_policy_id == 0 || self.replacement_policy_id == 1)
    && not (self.replacement_policy_id == 2)

-- A hit under LRU or MRU, at the way `location`: the entry goes to the front of the queue.
unfoldable pub move_to_front : Cache → ℕ → ℕ → Entry → Result Cache
move_to_front self set_id location entry = if location == 0 then ok self else do
  self' ← shift_down set_id location self
  placement ← write self'.placement (set_id * self'.ways) entry
  ok (record self' { placement = placement })
