-- ===== src/Api.antt =====
-- The methods of the Python object `Cache` of cachesim/backend.c. An argument that the interpreter
-- hands over is data: what an iterator yields is a list of addresses. A method that raises returns the
-- error and the state that it leaves.
pub mod Flat
pub mod Contents
pub mod Due
pub mod Flush
pub mod Accesses
pub mod Iterate
pub mod Replay
pub mod Larger
use pycachesim.Base.{
  ℕ, zero, suc, ◌+◌, ◌*◌, ◌%◌, ◌^◌, Bool, true, false, not, ◌&&◌, Option, none, some, List, [], ◌∷◌,
  ◌==◌, if◌then◌else◌, Result, ok, ◌>>=◌, option_case, read, write,
}
use pycachesim.Cache.{
  Cache, Entry, AddrRange, Stats, get_cacheline_id, get_set_id, get_addr_from_cl_id,
  get_range_from_cl_id, holds,
}
use pycachesim.Hierarchy.{Sim, Ops, put, cache_at, count_evict}
use pycachesim.Replace.{test_bit, write_bit}

-- The loop of `Cache_contains`, with the rounds left and the counter.
unfoldable pub contains_from : Cache → ℕ → ℕ → ℕ → ℕ → Result Bool
contains_from self cl_id set_id zero i = ok false
contains_from self cl_id set_id (suc n) i = do
  e ← read self.placement (set_id * self.ways + i)
  let rest = contains_from self cl_id set_id n (i + 1)
  if not e.invalid && e.cl_id == cl_id then ok true else rest

unfoldable pub contains : Cache → ℕ → Result Bool
unfolding contains_from
contains self addr = do
  let cl_id = get_cacheline_id self addr
  set_id ← get_set_id self cl_id
  contains_from self cl_id set_id self.ways 0

-- The bits of a dirty line: a clear bit means no non-temporal store; all are cleared.
unfoldable pub flush_bits : ℕ → ℕ → Bool → Cache → Result (Bool × Cache)
flush_bits zero b non_temporal self = ok (non_temporal, self)
flush_bits (suc n) b non_temporal self = do
  marked ← test_bit self b
  self' ← write_bit self b false
  flush_bits n (b + 1) (marked && non_temporal) self'

unfoldable pub flush_mode : Cache → ℕ → Result (Bool × Cache)
unfolding flush_bits
flush_mode self i =
    if self.write_combining == 1
    then flush_bits self.subblock_bits (i * self.subblock_bits) true self
    else ok (false, self)

-- `self->placement[i].dirty = 0`
unfoldable pub clear_dirty : Cache → ℕ → Result Cache
clear_dirty self i = do
  e ← read self.placement i
  placement ← write self.placement i (record e { dirty = false })
  ok (record self { placement = placement })

module _ (below : Ops) where
  -- The write-back of the dirty line of the entry `i`.
  unfoldable pub flush_line : Sim → ℕ → ℕ → ℕ → Result Sim
  flush_line s p i cl_id = do
    c ← cache_at s p
    let c = count_evict c.cl_size c
    option_case c.store_to (ok (put s p c)) λ q. do
      (non_temporal, c') ← flush_mode c i
      below.store (put s p c') q (get_range_from_cl_id c' cl_id) non_temporal

  -- One round of the loop of `Cache_force_write_back`.
  unfoldable pub flush_entry : Sim → ℕ → ℕ → Result Sim
  flush_entry s p i = do
    c ← cache_at s p
    e ← read c.placement i
    if not e.invalid && e.dirty
        then (do
          s₁ ← flush_line s p i e.cl_id
          c₁ ← cache_at s₁ p
          c₂ ← clear_dirty c₁ i
          ok (put s₁ p c₂))
        else ok s

  unfoldable pub flush_from : ℕ → Sim → ℕ → ℕ → Result Sim
  flush_from zero s p i = ok s
  flush_from (suc n) s p i = do s' ← flush_entry s p i; flush_from n s' p (i + 1)

  unfoldable pub force_write_back : Sim → ℕ → Result Sim
  force_write_back s p = do c ← cache_at s p; flush_from (c.ways * c.sets) s p 0

unfoldable pub reset_stats : Cache → Cache
reset_stats self =
    let zero_stats : Stats = record { count = 0; byte = 0 } in
    record self {
      load = zero_stats;
      store = zero_stats;
      hit = zero_stats;
      miss = zero_stats;
      evict = zero_stats;
    }

unfoldable pub count_invalid_from : Cache → ℕ → ℕ → ℕ → Result ℕ
count_invalid_from self zero i count = ok count
count_invalid_from self (suc n) i count = do
  e ← read self.placement i
  count_invalid_from self n (i + 1) (if e.invalid then count + 1 else count)

unfoldable pub count_invalid_entries : Cache → Result ℕ
count_invalid_entries self = count_invalid_from self (self.ways * self.sets) 0 0

unfoldable pub mark_invalid_from : ℕ → ℕ → Cache → Result Cache
mark_invalid_from zero i self = ok self
mark_invalid_from (suc n) i self = do
  e ← read self.placement i
  placement ← write self.placement i (record e { invalid = true })
  mark_invalid_from n (i + 1) (record self { placement = placement })

unfoldable pub mark_all_invalid : Cache → Result Cache
mark_all_invalid self = mark_invalid_from (self.ways * self.sets) 0 self

-- The addresses `start` to `start + n - 1`.
abbrev pub addresses_from : ℕ → ℕ → List ℕ → List ℕ
addresses_from zero start rest = rest
addresses_from (suc n) start rest = start ∷ addresses_from n (start + 1) rest

-- The set that `Cache_cached_get` builds, as the list of the addresses that it adds.
unfoldable pub cached_from : Cache → ℕ → ℕ → Result (List ℕ)
cached_from self zero i = ok []
cached_from self (suc n) i = do
  e ← read self.placement i
  rest ← cached_from self n (i + 1)
  ok (
      if e.invalid
      then rest
      else addresses_from self.cl_size (get_addr_from_cl_id self e.cl_id) rest)

unfoldable pub cached : Cache → Result (List ℕ)
cached self = cached_from self (self.sets * self.ways) 0

-- The errors of the methods that iterate.
pub data Error : Type 0 where
  no_sequence wrong_length no_load_sequence no_store_sequence : Error
  not_iterable load_not_iterable store_not_iterable : Error

-- An argument that should be a sequence of addresses (`no_iterator` is a sequence that gives no
-- iterator), and an element of the argument of `loadstore`.
pub data Addrs : Type 0 where
  is_none : Addrs
  no_addrs : Addrs
  no_iterator : Addrs
  addrs : List ℕ → Addrs

pub data Item : Type 0 where
  no_item : Item
  odd_item : Item
  pair : Addrs → Addrs → Item

-- The argument `length`, by default 1. `Cache_load` parses it as an unsigned int, which wraps.
abbrev pub given_length : Option ℕ → ℕ
given_length none = 1
given_length (some n) = n

module _ (calls : Ops) (p : ℕ) where
  unfoldable pub cache_load : Sim → ℕ → Option ℕ → Result Sim
  cache_load s addr length = do
    (_, s') ← calls.load s p (record { addr = addr; length = given_length length % 2 ^ 32 })
    ok s'

  unfoldable pub cache_store : Sim → ℕ → Option ℕ → Result Sim
  cache_store s addr length =
      calls.store s p (record { addr = addr; length = given_length length }) false

module _ (calls : Ops) (p length : ℕ) where
  unfoldable pub load_all : Sim → List ℕ → Result Sim
  load_all s [] = ok s
  load_all s (addr ∷ rest) = do
    (_, s') ← calls.load s p (record { addr = addr; length = length })
    load_all s' rest

  unfoldable pub store_all : Sim → List ℕ → Result Sim
  store_all s [] = ok s
  store_all s (addr ∷ rest) = do
    s' ← calls.store s p (record { addr = addr; length = length }) false
    store_all s' rest

  -- `none` is an argument that is not iterable.
  unfoldable pub iterload : Sim → Option (List ℕ) → Result (Option Error × Sim)
  iterload s none = ok (some not_iterable, s)
  iterload s (some addresses) = do s' ← load_all s addresses; ok (none, s')

  unfoldable pub iterstore : Sim → Option (List ℕ) → Result (Option Error × Sim)
  iterstore s none = ok (some not_iterable, s)
  iterstore s (some addresses) = do s' ← store_all s addresses; ok (none, s')

  unfoldable pub load_part : Sim → Addrs → Result (Option Error × Sim)
  load_part s is_none = ok (none, s)
  load_part s no_addrs = ok (some no_load_sequence, s)
  load_part s no_iterator = ok (some load_not_iterable, s)
  load_part s (addrs addresses) = do s' ← load_all s addresses; ok (none, s')

  unfoldable pub store_part : Sim → Addrs → Result (Option Error × Sim)
  store_part s is_none = ok (none, s)
  store_part s no_addrs = ok (some no_store_sequence, s)
  store_part s no_iterator = ok (some store_not_iterable, s)
  store_part s (addrs addresses) = do s' ← store_all s addresses; ok (none, s')

  -- The body of the loop of `Cache_loadstore`.
  unfoldable pub loadstore_item : Sim → Item → Result (Option Error × Sim)
  loadstore_item s no_item = ok (some no_sequence, s)
  loadstore_item s odd_item = ok (some wrong_length, s)
  loadstore_item s (pair loads stores) = do
    (error, s₁) ← load_part s loads
    option_case error (store_part s₁ stores) (λ e. ok (some e, s₁))

  unfoldable pub loadstore_items : Sim → List Item → Result (Option Error × Sim)
  loadstore_items s [] = ok (none, s)
  loadstore_items s (item ∷ rest) = do
    (error, s₁) ← loadstore_item s item
    option_case error (loadstore_items s₁ rest) (λ e. ok (some e, s₁))

  unfoldable pub loadstore : Sim → Option (List Item) → Result (Option Error × Sim)
  loadstore s none = ok (some not_iterable, s)
  loadstore s (some items) = loadstore_items s items
