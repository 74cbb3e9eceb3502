-- ===== src/Tests/Parts.antt =====
-- The theorems on single caches, bits and numbers, used on small ones.
use pycachesim.CString.{bytes}
use pycachesim.Base.{
  ℕ, ◌+◌, ◌-◌, ◌≤◌, ◌<◌, ◌≡◌, ◌↔◌, refl, true, some, ◌∷◌, arith, length, get_elem?, set, erase_at,
  Returns,
}
use pycachesim.Bits.{bitnslots}
use pycachesim.Cache.{
  get_cacheline_id, get_addr_from_cl_id, get_range_from_cl_id_and_range, line_rounds,
}
use pycachesim.Cache.Range.{In, line_rounds-touched_iff, get_range_from_cl_id_and_range-overlap}
use pycachesim.Init.{InitArgs, no_cache, to_cache, new_bits, fresh_chars, cache_init}
use pycachesim.Init.Fresh.{IsCleared, new_bits-IsCleared}
use pycachesim.Init.Outcome.{IsOutcome, cache_init-IsOutcome}
use pycachesim.Numbers.{is_power_of_two}
use pycachesim.Numbers.Laws.{IsPower, is_power_of_two-IsPower}
use pycachesim.Replace.{replace, move_to_front}
use pycachesim.Replace.Queue.{queue, replace-queue, replace-mru, move_to_front-queue}
use pycachesim.Tests.{first_level, mru_cache, line, dirty_line, range_at}
use pycachesim.Tests.Shapes.{first_level-HasShape, mru_cache-HasShape}

is_power_of_two-IsPower_example : (is_power_of_two 64 ≡ true) ↔ IsPower 64
is_power_of_two-IsPower_example = is_power_of_two-IsPower 64

line_rounds-touched_iff_example :
    ((get_cacheline_id first_level 6 ≤ 2)
      × (2 < get_cacheline_id first_level 6 + line_rounds first_level (range_at 6 5)))
    ↔ ((a : ℕ) × In a (range_at 6 5) × (get_cacheline_id first_level a ≡ 2))
line_rounds-touched_iff_example =
    line_rounds-touched_iff first_level refl (range_at 6 5) 2 (omega arith)

line_of : get_cacheline_id first_level 9 ≡ 2
unfolding get_cacheline_id
line_of = refl

starts_inside :
    (get_addr_from_cl_id first_level 1 < 6)
    × (6 < get_addr_from_cl_id first_level 1 + 4)
    × (get_addr_from_cl_id first_level 1 + 4 < 11)
unfolding get_addr_from_cl_id
starts_inside = (omega arith, omega arith, omega arith)

get_range_from_cl_id_and_range-overlap_example :
    (a : ℕ) × In a (get_range_from_cl_id_and_range first_level 1 (range_at 6 5))
    × (get_cacheline_id first_level a ≡ 1 + 1)
get_range_from_cl_id_and_range-overlap_example =
    get_range_from_cl_id_and_range-overlap first_level refl 1 (range_at 6 5) starts_inside.0
      starts_inside.1 starts_inside.2

replace-queue_example :
    Returns
      (λ (i, old, c').
        (i ≡ 0)
        × (get_elem? (queue first_level 0) (2 - 1) ≡ some old)
        × (queue c' 0 ≡ line 8 ∷ erase_at (2 - 1) (queue first_level 0)))
      (replace 3 first_level 0 (line 8))
replace-queue_example =
    replace-queue first_level 0 (line 8) first_level-HasShape (omega arith) 3 refl

replace-mru_example :
    Returns
      (λ (i, old, c').
        (i ≡ 2 - 1)
        × (get_elem? (queue mru_cache 0) 0 ≡ some old)
        × (queue c' 0 ≡ set (queue mru_cache 0) (2 - 1) (line 8)))
      (replace 3 mru_cache 0 (line 8))
replace-mru_example = replace-mru mru_cache 0 (line 8) mru_cache-HasShape (omega arith) 3 refl refl

move_to_front-queue_example :
    Returns
      (λ c'. queue c' 0 ≡ dirty_line 6 ∷ erase_at 1 (queue first_level 0))
      (move_to_front first_level 0 1 (dirty_line 6))
move_to_front-queue_example =
    move_to_front-queue first_level 0 (dirty_line 6) first_level-HasShape (omega arith) 1
      (omega arith) refl

all_ones : ℕ → ℕ
all_ones i = 255

all_ones-IsChar : (i : ℕ) → all_ones i < 256
unfolding all_ones
all_ones-IsChar i = omega arith

new_bits-IsCleared_example :
    Returns
      (λ a.
        (length a ≡ bitnslots 16)
        × IsCleared (fresh_chars all_ones (bitnslots 16) 0) 0 (bitnslots 16) a)
      (new_bits all_ones 16)
new_bits-IsCleared_example = new_bits-IsCleared all_ones 16 all_ones-IsChar

abbrev some_args : InitArgs
some_args = record {
  name = bytes "L1";
  sets = 2;
  ways = 2;
  cl_size = 4;
  replacement_policy_id = 1;
  write_back = 1;
  write_allocate = 1;
  write_combining = 1;
  subblock_size = 1;
  load_from = to_cache 1;
  store_to = to_cache 1;
  victims_to = no_cache;
  swap_on_load = 0;
  verbosity = 0;
}

cache_init-IsOutcome_example :
    Returns (IsOutcome some_args) (cache_init all_ones all_ones some_args)
cache_init-IsOutcome_example =
    cache_init-IsOutcome all_ones all_ones some_args all_ones-IsChar (record {
      sets_pos = omega arith;
      ways_pos = omega arith;
      small = omega arith;
      subblock_pos = omega arith;
      combining = λ on. (refl, refl, λ e. absurd (omega arith));
    })
