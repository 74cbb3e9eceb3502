-- ===== src/Tests/Runs.antt =====
-- Runs of the model on the hierarchy of the tests.
use pycachesim.Base.{ℕ, ◌≡◌, refl, List, [], ◌∷◌, map, ok, ◌>>=◌}
use pycachesim.Bits.{bitset, bitclear, bittest, byte_set, byte_clear, byte_test}
use pycachesim.Cache.{
  bump, get_cacheline_id, get_set_id, get_addr_from_cl_id, get_range_from_cl_id,
  get_range_from_cl_id_and_range, line_rounds, holds, location_from, get_location,
}
use pycachesim.Hierarchy.{
  Sim, ops, take_bits, evict_bits, write_back_line, deliver_victim, dispose, inject, load_hit,
  fetch_victim, fetch, load_miss, load_line, load_lines, load, allocate, mark_bits, mark_at,
  mark_stored, mark_dirty, store_through, settle, store_line, store_lines, store,
}
use pycachesim.Replace.{
  test_bit, write_bit, copy_bits, move_way, shift_down, choose_last, shift_up, choose_first,
  choose_random, choose, replace, draws_random, move_to_front,
}
use pycachesim.Tests.{start, range_at}

-- The counts of loads, stores, hits, misses and evictions of each cache.
counts : Sim → List (List ℕ)
counts s =
    map (λ c. c.load.count ∷ c.store.count ∷ c.hit.count ∷ c.miss.count ∷ c.evict.count ∷ [])
      s.caches

-- Lines 7 to 10 are loaded: four misses, one of which evicts the dirty line 6. The second level loads
-- these lines and, for the store of line 6, that line; it then hands line 8 to its victim cache.
load_run :
    ((ops 3).load start 0 (range_at 30 12) >>= λ r. ok (counts r.1))
    ≡ ok ((1 ∷ 0 ∷ 0 ∷ 4 ∷ 1 ∷ []) ∷ (5 ∷ 1 ∷ 0 ∷ 5 ∷ 1 ∷ []) ∷ (0 ∷ 1 ∷ 0 ∷ 0 ∷ 0 ∷ []) ∷ [])
unfolding counts ops load load_lines load_line load_miss load_hit fetch fetch_victim inject dispose
    write_back_line deliver_victim take_bits evict_bits store store_lines store_line allocate settle
    store_through mark_stored mark_at mark_bits mark_dirty test_bit write_bit copy_bits move_way
    shift_down choose_last shift_up choose_first choose_random choose replace draws_random
    move_to_front bitset bitclear bittest byte_set byte_clear byte_test bump get_cacheline_id
    get_set_id get_addr_from_cl_id get_range_from_cl_id get_range_from_cl_id_and_range line_rounds
    holds location_from get_location
load_run = refl
