-- ===== src/Cache.antt =====
-- The data of cachesim/backend.h: `cache_entry`, `addr_range`, `struct stats` and `Cache`, and the
-- functions of cachesim/backend.c that only read one cache: cache lines, sets, ranges, the search
-- of a set. A pointer to a cache is its index in the simulator's list of caches (`Hierarchy`), and
-- NULL is `none`. A number is a natural number: addresses are not negative.
pub mod Range
pub mod Search
use pycachesim.CString.{Text}
use pycachesim.Base.{
  ℕ, zero, suc, ◌+◌, ◌-◌, ◌*◌, ◌/◌, ◌%◌, ◌^◌, Bool, true, false, not, ◌&&◌, Option, none, some,
  List, ◌==◌, ltb, if◌then◌else◌, Result, ok, fault, ◌>>=◌, read, division_by_zero,
}

-- The bit fields `dirty : 1` and `invalid : 1` are Booleans.
pub record Entry : Type 0 where
  pub cl_id : ℕ
  pub dirty : Bool
  pub invalid : Bool

pub record AddrRange : Type 0 where
  pub addr : ℕ
  pub length : ℕ

pub record Stats : Type 0 where
  pub count : ℕ
  pub byte : ℕ

-- `subblock_bitfield` is NULL or an array of chars.
pub record Cache : Type 0 where
  pub name : Text
  pub sets : ℕ
  pub ways : ℕ
  pub cl_size : ℕ
  pub cl_bits : ℕ
  pub subblock_size : ℕ
  pub subblock_bits : ℕ
  pub replacement_policy_id : ℕ
  pub write_back : ℕ
  pub write_allocate : ℕ
  pub write_combining : ℕ
  pub load_from : Option ℕ
  pub store_to : Option ℕ
  pub victims_to : Option ℕ
  pub swap_on_load : ℕ
  pub placement : List Entry
  pub subblock_bitfield : Option (List ℕ)
  pub load : Stats
  pub store : Stats
  pub hit : Stats
  pub miss : Stats
  pub evict : Stats
  pub verbosity : ℕ

-- `s.count++; s.byte += n`
unfoldable pub bump : Stats → ℕ → Stats
bump s n = record { count = s.count + 1; byte = s.byte + n }

unfoldable pub get_cacheline_id : Cache → ℕ → ℕ
get_cacheline_id self addr = addr / 2 ^ self.cl_bits

-- `cl_id % self->sets`, a fault where there is no set.
unfoldable pub get_set_id : Cache → ℕ → Result ℕ
get_set_id self cl_id = if self.sets == 0 then fault division_by_zero else ok (cl_id % self.sets)

unfoldable pub get_addr_from_cl_id : Cache → ℕ → ℕ
get_addr_from_cl_id self cl_id = cl_id * 2 ^ self.cl_bits

unfoldable pub get_range_from_cl_id : Cache → ℕ → AddrRange
get_range_from_cl_id self cl_id = record {
  addr = get_addr_from_cl_id self cl_id;
  length = self.cl_size;
}

unfoldable pub get_range_from_cl_id_and_range : Cache → ℕ → AddrRange → AddrRange
get_range_from_cl_id_and_range self cl_id range =
    let start = get_addr_from_cl_id self cl_id in
    let addr = if ltb range.addr start then start else range.addr in
    record {
      addr = addr;
      length =
          if ltb (addr + self.cl_size) (range.addr + range.length)
          then self.cl_size
          else range.addr + range.length - addr;
    }

-- The rounds of `for(cl_id = first; cl_id <= last_cl_id; cl_id++)` over the lines of a range, with
-- `last_cl_id` the line of `range.addr+range.length-1`. At address 0 and length 0 that is -1.
unfoldable pub line_rounds : Cache → AddrRange → ℕ
line_rounds self range =
    if range.addr + range.length == 0
    then 0
    else get_cacheline_id self (range.addr + range.length - 1)
      + 1
      - get_cacheline_id self range.addr

-- `invalid == 0 && cl_id == cl_id`
unfoldable pub holds : Entry → ℕ → Bool
holds e cl_id = not e.invalid && e.cl_id == cl_id

-- The loop of `Cache__get_location`, with the number of rounds left; `none` is -1.
unfoldable pub location_from : Cache → ℕ → ℕ → ℕ → ℕ → Result (Option ℕ)
location_from self cl_id set_id zero i = ok none
location_from self cl_id set_id (suc n) i =
    let rest = location_from self cl_id set_id n (i + 1) in
    do e ← read self.placement (set_id * self.ways + i); if holds e cl_id then ok (some i) else rest

unfoldable pub get_location : Cache → ℕ → ℕ → Result (Option ℕ)
unfolding location_from
get_location self cl_id set_id = location_from self cl_id set_id self.ways 0
