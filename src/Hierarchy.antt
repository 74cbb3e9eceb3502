-- ===== src/Hierarchy.antt =====
-- `Cache__inject`, `Cache__load` and `Cache__store` of cachesim/backend.c over a hierarchy of caches.
-- A level calls the levels that it is linked to; these calls are the record `Ops` that each function
-- takes, and `ops` ties the knot with fuel for the depth of the calls.
pub mod Local
pub mod Steps
pub mod Handles
pub mod Dispose
pub mod Inject
pub mod Effects
pub mod Load
pub mod Loads
pub mod Store
pub mod Safety
pub mod Homes
pub mod Order
pub mod Reference
pub mod Inclusion
pub mod Tracking
pub mod Tally
pub mod Hits
pub mod Absorbed
use pycachesim.Base.{
  ℕ, zero, suc, ◌+◌, ◌-◌, ◌*◌, ◌<◌, Bool, true, false, not, ◌&&◌, ◌||◌, Option, none, some, List,
  ◌==◌, ltb, if◌then◌else◌, set, min, Result, ok, fault, option_case, ◌>>=◌, read, write,
  out_of_bounds, out_of_fuel,
}
use pycachesim.Cache.{
  Cache, Entry, AddrRange, bump, get_cacheline_id, get_set_id, get_addr_from_cl_id,
  get_range_from_cl_id, get_range_from_cl_id_and_range, line_rounds, get_location,
}
use pycachesim.Replace.{bit_base, test_bit, write_bit, replace, draws_random, move_to_front}

-- The caches, a pointer being an index, and the results of rand(): the stream of all of them, and
-- the number of calls made.
pub record Sim : Type 0 where
  pub caches : List Cache
  pub rand : ℕ → ℕ
  pub draws : ℕ

abbrev pub cache_at : Sim → ℕ → Result Cache
cache_at s p = read s.caches p

-- The object that `p` points to becomes `c`.
abbrev pub put : Sim → ℕ → Cache → Sim
put s p c = record s { caches = set s.caches p c }

-- What a cache calls of another. -1 is `none`.
pub record Ops : Type 0 where
  pub load : Sim → ℕ → AddrRange → Result (Option ℕ × Sim)
  pub store : Sim → ℕ → AddrRange → Bool → Result Sim
  pub inject : Sim → ℕ → Entry → Result (ℕ × Sim)

-- `EVICT.count++; EVICT.byte += n`, and likewise for the four others.
abbrev pub count_evict : ℕ → Cache → Cache
count_evict n c = record c { evict = bump c.evict n }

abbrev pub count_store : ℕ → Cache → Cache
count_store n c = record c { store = bump c.store n }

abbrev pub count_load : ℕ → Cache → Cache
count_load n c = record c { load = bump c.load n }

abbrev pub count_hit : ℕ → Cache → Cache
count_hit n c = record c { hit = bump c.hit n }

abbrev pub count_miss : ℕ → Cache → Cache
count_miss n c = record c { miss = bump c.miss n }

-- The loop over the bits of an evicted line: a set bit means no non-temporal store; all are cleared.
unfoldable pub take_bits : ℕ → ℕ → Bool → Cache → Result (Bool × Cache)
take_bits zero b non_temporal self = ok (non_temporal, self)
take_bits (suc n) b non_temporal self = do
  marked ← test_bit self b
  self' ← write_bit self b false
  take_bits n (b + 1) (not marked && non_temporal) self'

-- Whether the store of an evicted line may be non-temporal.
unfoldable pub evict_bits : Cache → ℕ → ℕ → Result (Bool × Cache)
unfolding take_bits
evict_bits self set_id replace_idx =
    if self.write_combining == 1
    then take_bits self.subblock_bits (bit_base self set_id replace_idx) true self
    else ok (false, self)

module _ (below : Ops) where
  -- The replaced entry is dirty: store it to the next level.
  unfoldable pub write_back_line : Sim → ℕ → ℕ → ℕ → Entry → Result Sim
  write_back_line s p set_id replace_idx old = do
    c ← cache_at s p
    let c = count_evict c.cl_size c
    option_case c.store_to (ok (put s p c)) λ q. do
      (non_temporal, c') ← evict_bits c set_id replace_idx
      below.store (put s p c') q (get_range_from_cl_id c' old.cl_id) non_temporal

  -- The replaced entry goes to the victim cache, if there is one.
  unfoldable pub deliver_victim : Sim → ℕ → Entry → Result Sim
  deliver_victim s p old = do
    c ← cache_at s p
    option_case c.victims_to (ok s) λ v. do
      (_, s₁) ← below.inject s v old
      c₁ ← cache_at s₁ p
      let s₂ = put s₁ p (count_evict c₁.cl_size c₁)
      d ← cache_at s₂ v
      ok (put s₂ v (count_store c₁.cl_size d))

  -- What happens to the replaced entry.
  unfoldable pub dispose : Sim → ℕ → ℕ → ℕ → Entry → Result Sim
  dispose s p set_id replace_idx old = if old.invalid then ok s else do
    c ← cache_at s p
    if (c.write_back == 1) && old.dirty
        then write_back_line s p set_id replace_idx old
        else deliver_victim s p old

  unfoldable pub inject : Sim → ℕ → Entry → Result (ℕ × Sim)
  inject s p entry = do
    c ← cache_at s p
    set_id ← get_set_id c entry.cl_id
    (replace_idx, old, c') ← replace (s.rand s.draws) c set_id entry
    let s₁ = record s {
      caches = set s.caches p c';
      draws = if draws_random c then s.draws + 1 else s.draws;
    }
    s₂ ← dispose s₁ p set_id replace_idx old
    ok (replace_idx, s₂)

  -- A hit at the way `location`. The result is `placement_idx`.
  unfoldable pub load_hit : Sim → ℕ → AddrRange → ℕ → ℕ → Result (ℕ × Sim)
  load_hit s p range set_id location = do
    c ← cache_at s p
    let c = count_hit (min c.cl_size range.length) c
    entry ← read c.placement (set_id * c.ways + location)
    if (c.replacement_policy_id == 0) || (c.replacement_policy_id == 3)
        then ok (c.ways - 1, put s p c)
        else do c' ← move_to_front c set_id location entry; ok (0, put s p c')

  -- On a miss: the victim cache if it holds the line, else the next level.
  unfoldable pub fetch_victim : Sim → ℕ → ℕ → Result (Bool × Sim)
  fetch_victim s p cl_id = do
    c ← cache_at s p
    option_case c.victims_to (ok (false, s)) λ v. do
      d ← cache_at s v
      victim_set_id ← get_set_id d cl_id
      location ← get_location d cl_id victim_set_id
      option_case location (ok (false, s))
          λ _. do (_, s') ← below.load s v (get_range_from_cl_id c cl_id); ok (true, s')

  unfoldable pub fetch : Sim → ℕ → ℕ → Result Sim
  fetch s p cl_id = do
    (victim_hit, s₁) ← fetch_victim s p cl_id
    c ← cache_at s₁ p
    if victim_hit
        then ok s₁
        else option_case c.load_from (ok s₁)
            λ q. do (_, s₂) ← below.load s₁ q (get_range_from_cl_id c cl_id); ok s₂

  unfoldable pub load_miss : Sim → ℕ → AddrRange → ℕ → Result (ℕ × Sim)
  load_miss s p range cl_id = do
    c ← cache_at s p
    s₁ ← fetch (put s p (count_miss (min c.cl_size range.length) c)) p cl_id
    inject s₁ p (record { cl_id = cl_id; dirty = false; invalid = false })

  -- One round of the loop of `Cache__load`.
  unfoldable pub load_line : Sim → ℕ → AddrRange → ℕ → Result (ℕ × Sim)
  load_line s p range cl_id = do
    c ← cache_at s p
    set_id ← get_set_id c cl_id
    location ← get_location c cl_id set_id
    option_case location (load_miss s p range cl_id) (load_hit s p range set_id)

  unfoldable pub load_lines : ℕ → Sim → ℕ → AddrRange → ℕ → Option ℕ → Result (Option ℕ × Sim)
  load_lines zero s p range cl_id placement_idx = ok (placement_idx, s)
  load_lines (suc n) s p range cl_id placement_idx = do
    (i, s') ← load_line s p range cl_id
    load_lines n s' p range (cl_id + 1) (some i)

  unfoldable pub load : Sim → ℕ → AddrRange → Result (Option ℕ × Sim)
  load s p range = do
    c ← cache_at s p
    let s₁ = put s p (count_load range.length c)
    load_lines (line_rounds c range) s₁ p range (get_cacheline_id c range.addr) none

  -- The write-allocate and the injection without a load: where the line is then.
  unfoldable pub allocate : Sim → ℕ → Bool → ℕ → Option ℕ → Result (Option ℕ × Sim)
  allocate s p non_temporal cl_id location = do
    c ← cache_at s p
    if (c.write_allocate == 1) && not non_temporal
        then option_case location (load s p (get_range_from_cl_id c cl_id)) (λ i. ok (some i, s))
        else option_case location
            (if c.write_back == 1
              then (do
                (i, s') ← inject s p (record { cl_id = cl_id; dirty = true; invalid = false })
                ok (some i, s'))
              else ok (none, s))
            (λ i. ok (some i, s))

-- The loop that sets a bit for each byte that is stored; the counter is `set_id*ways*subblock_bits +
-- location*subblock_bits + i`. For the location -1 the base lies one line lower, and an index
-- below 0 is a fault.
unfoldable pub mark_bits : ℕ → ℕ → Cache → Result Cache
mark_bits zero b self = ok self
mark_bits (suc n) b self = do self' ← write_bit self b true; mark_bits n (b + 1) self'

unfoldable pub mark_at : Cache → ℕ → Option ℕ → ℕ → ℕ → Result Cache
mark_at self set_id (some i) first n = mark_bits n (bit_base self set_id i + first) self
mark_at self set_id none first n =
    let base = bit_base self set_id 0 + first in
    if (ltb base self.subblock_bits) && ltb 0 n
    then fault out_of_bounds
    else mark_bits n (base - self.subblock_bits) self

unfoldable pub mark_stored : Cache → AddrRange → ℕ → ℕ → Option ℕ → Result Cache
unfolding mark_bits mark_at
mark_stored self range cl_id set_id location =
    if self.write_combining == 1
    then (let cl_start = get_addr_from_cl_id self cl_id in
        let start = if ltb cl_start range.addr then range.addr else cl_start in
        let end =
          if ltb (range.addr + range.length) (cl_start + self.cl_size)
          then range.addr + range.length
          else cl_start + self.cl_size in
        mark_at self set_id location (start - cl_start) (end - start))
    else ok self

-- `self->placement[...].dirty = 1`
unfoldable pub mark_dirty : Cache → ℕ → Result Cache
mark_dirty self k = do
  e ← read self.placement k
  placement ← write self.placement k (record e { dirty = true })
  ok (record self { placement = placement })

module _ (below : Ops) where
  -- Write-through, or a line that is not cached: store to the next level.
  unfoldable pub store_through : Sim → ℕ → AddrRange → Bool → ℕ → Result Sim
  store_through s p range non_temporal cl_id = do
    c ← cache_at s p
    option_case c.store_to (ok s) λ q.
        let store_range = get_range_from_cl_id_and_range c cl_id range in
        below.store (put s p (count_evict store_range.length c)) q store_range non_temporal

  -- Where the line is, or that it is nowhere, decides between write-back and write-through.
  unfoldable pub settle : Sim → ℕ → AddrRange → Bool → ℕ → ℕ → Option ℕ → Result Sim
  settle s p range non_temporal cl_id set_id (some i) = do
    c ← cache_at s p
    if c.write_back == 1
        then (do c' ← mark_dirty c (set_id * c.ways + i); ok (put s p c'))
        else store_through s p range non_temporal cl_id
  settle s p range non_temporal cl_id set_id none = store_through s p range non_temporal cl_id

  -- One round of the loop of `Cache__store`.
  unfoldable pub store_line : Sim → ℕ → AddrRange → Bool → ℕ → Result Sim
  store_line s p range non_temporal cl_id = do
    c ← cache_at s p
    set_id ← get_set_id c cl_id
    location ← get_location c cl_id set_id
    (location', s₁) ← allocate below s p non_temporal cl_id location
    c₁ ← cache_at s₁ p
    c₂ ← mark_stored c₁ range cl_id set_id location'
    settle (put s₁ p c₂) p range non_temporal cl_id set_id location'

  unfoldable pub store_lines : ℕ → Sim → ℕ → AddrRange → Bool → ℕ → Result Sim
  store_lines zero s p range non_temporal cl_id = ok s
  store_lines (suc n) s p range non_temporal cl_id = do
    s' ← store_line s p range non_temporal cl_id
    store_lines n s' p range non_temporal (cl_id + 1)

  unfoldable pub store : Sim → ℕ → AddrRange → Bool → Result Sim
  store s p range non_temporal = do
    c ← cache_at s p
    let s₁ = put s p (count_store range.length c)
    store_lines (line_rounds c range) s₁ p range non_temporal (get_cacheline_id c range.addr)

-- The functions with calls to a depth of `fuel`.
unfoldable pub ops : ℕ → Ops
ops zero = record {
  load = λ _ _ _. fault out_of_fuel;
  store = λ _ _ _ _. fault out_of_fuel;
  inject = λ _ _ _. fault out_of_fuel;
}
ops (suc fuel) =
    let below = ops fuel in record { load = load below; store = store below; inject = inject below }
