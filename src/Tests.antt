-- ===== src/Tests.antt =====
-- Small caches on which the theorems are used: two levels, the second one with a victim cache.
pub mod Shapes
pub mod Parts
pub mod Levels
pub mod Methods
pub mod Files
pub mod Reading
pub mod Orders
pub mod Sizes
pub mod Benchmarks
pub mod Tools
pub mod Runs
use pycachesim.CString.{bytes}
use pycachesim.Base.{
  ℕ, zero, suc, ◌+◌, Bool, true, false, Option, none, some, List, [], ◌∷◌, replicate,
}
use pycachesim.Cache.{Cache, Entry, AddrRange, Stats}
use pycachesim.Hierarchy.{Sim}
use pycachesim.Linking.{CacheDef}

abbrev pub no_line : Entry
no_line = record { cl_id = 0; dirty = false; invalid = true }

abbrev pub line : ℕ → Entry
line l = record { cl_id = l; dirty = false; invalid = false }

abbrev pub dirty_line : ℕ → Entry
dirty_line l = record { cl_id = l; dirty = true; invalid = false }

abbrev pub zero_count : Stats
zero_count = record { count = 0; byte = 0 }

-- Two sets of two ways, lines of four bytes, LRU, write-back and write-allocate.
abbrev pub first_level : Cache
first_level = record {
  name = bytes "L1";
  sets = 2;
  ways = 2;
  cl_size = 4;
  cl_bits = 2;
  subblock_size = 4;
  subblock_bits = 1;
  replacement_policy_id = 1;
  write_back = 1;
  write_allocate = 1;
  write_combining = 0;
  load_from = some 1;
  store_to = some 1;
  victims_to = none;
  swap_on_load = 0;
  placement = line 4 ∷ dirty_line 6 ∷ line 1 ∷ no_line ∷ [];
  subblock_bitfield = none;
  load = zero_count;
  store = zero_count;
  hit = zero_count;
  miss = zero_count;
  evict = zero_count;
  verbosity = 0;
}

-- It combines writes, and hands its victims on.
abbrev pub second_level : Cache
second_level = record first_level {
  name = bytes "L2";
  replacement_policy_id = 0;
  subblock_size = 1;
  subblock_bits = 4;
  write_combining = 1;
  load_from = none;
  store_to = none;
  victims_to = some 2;
  placement = replicate 4 no_line;
  subblock_bitfield = some (0 ∷ 0 ∷ []);
}

abbrev pub victim_cache : Cache
victim_cache = record first_level {
  name = bytes "L3";
  replacement_policy_id = 3;
  load_from = none;
  store_to = none;
  placement = replicate 4 no_line;
}

abbrev pub mru_cache : Cache
mru_cache = record first_level { replacement_policy_id = 2 }

abbrev pub start : Sim
start = record { caches = first_level ∷ second_level ∷ victim_cache ∷ []; rand = λ n. n; draws = 0 }

abbrev pub range_at : ℕ → ℕ → AddrRange
range_at a n = record { addr = a; length = n }

-- The definitions of two levels, the first one linked to the second.
abbrev pub two_defs : List CacheDef
two_defs =
    record { name = some (bytes "L2"); load_from = none; store_to = none; victims_to = none }
    ∷ record {
      name = some (bytes "L1");
      load_from = some (bytes "L2");
      store_to = some (bytes "L2");
      victims_to = none;
    }
    ∷ []
