-- ===== src/Settings.antt =====
-- One line of a cache definition file in `get_cacheSim_from_file` of cachesim/backend.c: the settings are
-- assigned to an object that is all zeros, which is then checked and allocated. The line has
-- been cut into keys and values, and numbers are read: a Setting is a key with its value.
pub mod Reasons
pub mod Checks
use pycachesim.CString.{Text}
use pycachesim.Base.{
  ℕ, zero, suc, ◌*◌, ◌/◌, ◌%◌, Bool, true, false, not, ◌&&◌, Option, none, some, List, [], ◌∷◌,
  ◌==◌, if◌then◌else◌, Result, ok, ◌>>=◌,
}
use pycachesim.Cache.{Cache, Stats}
use pycachesim.Init.{fresh_entries, new_bits}
use pycachesim.Numbers.{log2_uint, is_power_of_two}

pub data Setting : Type 0 where
  name : Text → Setting
  sets ways cl_size cl_bits subblock_size subblock_bits : ℕ → Setting
  replacement_policy_id write_back write_allocate write_combining swap_on_load : ℕ → Setting
  load_from store_to victims_to : Text → Setting
  unrecognized : Text → Setting

-- The object while the line is read, with the three buffers for its links.
pub record Draft : Type 0 where
  pub name : Option Text
  pub sets : ℕ
  pub ways : ℕ
  pub cl_size : ℕ
  pub cl_bits : ℕ
  pub subblock_size : ℕ
  pub subblock_bits : ℕ
  pub replacement_policy_id : ℕ
  pub write_back : ℕ
  pub write_allocate : ℕ
  pub write_combining : ℕ
  pub swap_on_load : ℕ
  pub load_from : Option Text
  pub store_to : Option Text
  pub victims_to : Option Text

abbrev pub zero_draft : Draft
zero_draft = record {
  name = none;
  sets = 0;
  ways = 0;
  cl_size = 0;
  cl_bits = 0;
  subblock_size = 0;
  subblock_bits = 0;
  replacement_policy_id = 0;
  write_back = 0;
  write_allocate = 0;
  write_combining = 0;
  swap_on_load = 0;
  load_from = none;
  store_to = none;
  victims_to = none;
}

unfoldable pub assign : Setting → Draft → Draft
assign (name s) d = record d { name = some s }
assign (sets n) d = record d { sets = n }
assign (ways n) d = record d { ways = n }
assign (cl_size n) d = record d { cl_size = n }
assign (cl_bits n) d = record d { cl_bits = n }
assign (subblock_size n) d = record d { subblock_size = n }
assign (subblock_bits n) d = record d { subblock_bits = n }
assign (replacement_policy_id n) d = record d { replacement_policy_id = n }
assign (write_back n) d = record d { write_back = n }
assign (write_allocate n) d = record d { write_allocate = n }
assign (write_combining n) d = record d { write_combining = n }
assign (swap_on_load n) d = record d { swap_on_load = n }
assign (load_from s) d = record d { load_from = some s }
assign (store_to s) d = record d { store_to = some s }
assign (victims_to s) d = record d { victims_to = some s }
assign (unrecognized s) d = d

unfoldable pub assign_all : List Setting → Draft → Draft
assign_all [] d = d
assign_all (s ∷ rest) d = assign_all rest (assign s d)

-- The reasons to exit, or the cache, not yet linked.
pub data Exit : Type 0 where
  no_name no_sets no_ways no_cl_size cl_size_no_power subblock_no_divisor : Exit

pub data Checked : Type 0 where
  exits : Exit → Checked
  checked : Cache → Checked

abbrev pub subblock_of : Draft → ℕ
subblock_of d = if d.subblock_size == 0 then d.cl_size else d.subblock_size

unfoldable pub draft_field : (ℕ → ℕ) → Draft → Result (Option (List ℕ))
draft_field chars d =
    if not (d.write_combining == 0) && not (subblock_of d == d.cl_size)
    then (do a ← new_bits chars (d.sets * d.ways * (d.cl_size / subblock_of d)); ok (some a))
    else ok none

unfoldable pub allocate_draft : (ℕ → ℕ) → (ℕ → ℕ) → Text → Draft → ℕ → Result Checked
allocate_draft memory chars title d bits = do
  field ← draft_field chars d
  let no_stats : Stats = record { count = 0; byte = 0 }
  ok (
      checked (record {
        name = title;
        sets = d.sets;
        ways = d.ways;
        cl_size = d.cl_size;
        cl_bits = bits;
        subblock_size = subblock_of d;
        subblock_bits = d.cl_size / subblock_of d;
        replacement_policy_id = d.replacement_policy_id;
        write_back = d.write_back;
        write_allocate = d.write_allocate;
        write_combining = d.write_combining;
        load_from = none;
        store_to = none;
        victims_to = none;
        swap_on_load = d.swap_on_load;
        placement = fresh_entries memory (d.sets * d.ways) 0;
        subblock_bitfield = field;
        load = no_stats;
        store = no_stats;
        hit = no_stats;
        miss = no_stats;
        evict = no_stats;
        verbosity = 0;
      }))

-- The checks of a cache with the name `title`.
unfoldable pub check_sizes : (ℕ → ℕ) → (ℕ → ℕ) → Text → Draft → Result Checked
check_sizes memory chars title d =
    if d.sets == 0
    then ok (exits no_sets)
    else if d.ways == 0
    then ok (exits no_ways)
    else if d.cl_size == 0
    then ok (exits no_cl_size)
    else if not (is_power_of_two d.cl_size)
    then ok (exits cl_size_no_power)
    else do
      bits ← log2_uint d.cl_size
      if not (d.cl_size % subblock_of d == 0)
          then ok (exits subblock_no_divisor)
          else allocate_draft memory chars title d bits

unfoldable pub check_draft : (ℕ → ℕ) → (ℕ → ℕ) → Draft → Option Text → Result Checked
check_draft memory chars d none = ok (exits no_name)
check_draft memory chars d (some title) = check_sizes memory chars title d

unfoldable pub read_cache : (ℕ → ℕ) → (ℕ → ℕ) → List Setting → Result Checked
read_cache memory chars settings =
    let d = assign_all settings zero_draft in check_draft memory chars d d.name
