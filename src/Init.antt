-- ===== src/Init.antt =====
-- `Cache_init` of cachesim/backend.c, which builds a cache object from the arguments of its Python
-- constructor. The interpreter has parsed the arguments: the unsigned ones are below 2^32. Memory
-- that is allocated holds any chars until it is written; allocation does not fail.
pub mod Fresh
pub mod Outcome
use pycachesim.CString.{Text}
use pycachesim.Base.{
  ℕ, zero, suc, ◌+◌, ◌*◌, ◌/◌, ◌%◌, Bool, true, false, not, ◌&&◌, ◌||◌, Option, none, some, List,
  [], ◌∷◌, ◌==◌, if◌then◌else◌, Result, ok, fault, ◌>>=◌, division_by_zero,
}
use pycachesim.Api.{reset_stats}
use pycachesim.Bits.{bitclear, bitnslots}
use pycachesim.Cache.{Cache, Entry, Stats}
use pycachesim.Numbers.{log2_uint, is_power_of_two}

-- An argument that should be another cache or None.
pub data Link : Type 0 where
  no_cache : Link
  to_cache : ℕ → Link
  other_object : Link

pub record InitArgs : Type 0 where
  pub name : Text
  pub sets : ℕ
  pub ways : ℕ
  pub cl_size : ℕ
  pub replacement_policy_id : ℕ
  pub write_back : ℕ
  pub write_allocate : ℕ
  pub write_combining : ℕ
  pub subblock_size : ℕ
  pub load_from : Link
  pub store_to : Link
  pub victims_to : Link
  pub swap_on_load : ℕ
  pub verbosity : ℕ

-- The exceptions that are raised: a TypeError for a link, or a ValueError.
pub data InitError : Type 0 where
  load_from_type store_to_type victims_to_type cl_size_no_power subblock_no_divisor : InitError

-- The return value -1 with an exception, or 0 and the object.
pub data Init : Type 0 where
  failed : InitError → Init
  built : Cache → Init

abbrev pub is_other : Link → Bool
is_other other_object = true
is_other no_cache = false
is_other (to_cache q) = false

abbrev pub pointer : Link → Option ℕ
pointer (to_cache q) = some q
pointer no_cache = none
pointer other_object = none

-- The entries after the loop that sets `invalid` and `dirty`: `cl_id` is what the memory held.
unfoldable pub fresh_entries : (ℕ → ℕ) → ℕ → ℕ → List Entry
fresh_entries memory zero i = []
fresh_entries memory (suc n) i =
    record { cl_id = memory i; dirty = false; invalid = true } ∷ fresh_entries memory n (i + 1)

-- Allocated chars.
unfoldable pub fresh_chars : (ℕ → ℕ) → ℕ → ℕ → List ℕ
fresh_chars memory zero i = []
fresh_chars memory (suc n) i = memory i ∷ fresh_chars memory n (i + 1)

-- The loop "Clear all bits", with the rounds left and the counter.
unfoldable pub clear_bits : ℕ → ℕ → List ℕ → Result (List ℕ)
clear_bits zero i a = ok a
clear_bits (suc n) i a = do a' ← bitclear a i; clear_bits n (i + 1) a'

-- The allocation of the bits, of which there are `n`.
unfoldable pub new_bits : (ℕ → ℕ) → ℕ → Result (List ℕ)
new_bits chars n = clear_bits (bitnslots n) 0 (fresh_chars chars (bitnslots n) 0)

unfoldable pub new_field : (ℕ → ℕ) → InitArgs → ℕ → Result (Option (List ℕ))
new_field chars args subblock_bits =
    if not (args.write_combining == 0) && not (args.subblock_size == args.cl_size)
    then (do a ← new_bits chars (args.sets * args.ways * subblock_bits); ok (some a))
    else ok none

-- From the check of `cl_size` on.
unfoldable pub init_sizes : (ℕ → ℕ) → (ℕ → ℕ) → InitArgs → Result Init
init_sizes memory chars args =
    if not (is_power_of_two args.cl_size) then ok (failed cl_size_no_power) else do
      cl_bits ← log2_uint args.cl_size
      if args.subblock_size == 0
          then fault division_by_zero
          else if not (args.cl_size % args.subblock_size == 0)
          then ok (failed subblock_no_divisor)
          else do
            field ← new_field chars args (args.cl_size / args.subblock_size)
            let no_stats : Stats = record { count = 0; byte = 0 }
            ok (
                built (
                  reset_stats (record {
                    name = args.name;
                    sets = args.sets;
                    ways = args.ways;
                    cl_size = args.cl_size;
                    cl_bits = cl_bits;
                    subblock_size = args.subblock_size;
                    subblock_bits = args.cl_size / args.subblock_size;
                    replacement_policy_id = args.replacement_policy_id;
                    write_back = args.write_back;
                    write_allocate = args.write_allocate;
                    write_combining = args.write_combining;
                    load_from = pointer args.load_from;
                    store_to = pointer args.store_to;
                    victims_to = pointer args.victims_to;
                    swap_on_load = args.swap_on_load;
                    placement = fresh_entries memory (args.sets * args.ways) 0;
                    subblock_bitfield = field;
                    load = no_stats;
                    store = no_stats;
                    hit = no_stats;
                    miss = no_stats;
                    evict = no_stats;
                    verbosity = args.verbosity;
                  })))

unfoldable pub cache_init : (ℕ → ℕ) → (ℕ → ℕ) → InitArgs → Result Init
cache_init memory chars args =
    if is_other args.load_from
    then ok (failed load_from_type)
    else if is_other args.store_to
    then ok (failed store_to_type)
    else if is_other args.victims_to
    then ok (failed victims_to_type)
    else init_sizes memory chars args
