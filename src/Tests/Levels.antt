-- ===== src/Tests/Levels.antt =====
-- The theorems on calls over a hierarchy, used on the three caches of the tests.
use pycachesim.Base.{
  ℕ, zero, suc, ◌+◌, ◌-◌, ◌*◌, ◌≡◌, refl, true, false, some, arith, get_elem?, replicate, min, ok,
  Returns,
}
use pycachesim.Api.{contains}
use pycachesim.Cache.{Cache, Entry, get_cacheline_id, line_rounds, holds}
use pycachesim.Hierarchy.{ops, count_load, count_store}
use pycachesim.Hierarchy.Absorbed.{StoreOnly, store-StoreOnly}
use pycachesim.Hierarchy.Hits.{HitOnly, load-HitOnly}
use pycachesim.Hierarchy.Homes.{IsHomed, AllHomed, InHomes, calls-AllHomed}
use pycachesim.Hierarchy.Effects.{Present}
use pycachesim.Hierarchy.Safety.{Outcome, load-Outcome, store-Outcome, inject-Outcome}
use pycachesim.Hierarchy.Tally.{LoadCounted, load-LoadCounted, load-contains, store-counts}
use pycachesim.Tests.{
  first_level, second_level, victim_cache, start, line, dirty_line, no_line, range_at,
}
use pycachesim.Tests.Shapes.{start-IsValid, of_three}

load-Outcome_example : Returns (λ r. Outcome 3 0 start r.1) ((ops 3).load start 0 (range_at 30 12))
load-Outcome_example = load-Outcome 3 start 0 start-IsValid (omega arith) (range_at 30 12)

store-Outcome_example : Returns (Outcome 3 0 start) ((ops 3).store start 0 (range_at 30 12) true)
store-Outcome_example = store-Outcome 3 start 0 start-IsValid (omega arith) (range_at 30 12) true

inject-Outcome_example :
    Returns (λ r. Outcome 3 1 start r.1) ((ops 3).inject start 1 (dirty_line 8))
inject-Outcome_example = inject-Outcome 3 start 1 start-IsValid (omega arith) (dirty_line 8) refl

load-LoadCounted_example :
    Returns
      (λ r. LoadCounted 0 first_level (range_at 30 12) r.1)
      ((ops 3).load start 0 (range_at 30 12))
load-LoadCounted_example =
    load-LoadCounted 3 start 0 first_level (range_at 30 12) start-IsValid (omega arith) refl

load-contains_example :
    Returns
      (λ r.
        (own : Cache) × (get_elem? r.1.caches 0 ≡ some own)
        × (contains own (30 + 12 - 1) ≡ ok true))
      ((ops 3).load start 0 (range_at 30 12))
load-contains_example =
    load-contains 3 start 0 first_level (range_at 30 12) start-IsValid (omega arith) refl
      (omega arith)

held_line : Present first_level (get_cacheline_id first_level 16)
unfolding get_cacheline_id holds
held_line = (0, record { in_set = omega arith; entry = line 4; at = refl; held = refl })

one_round : line_rounds first_level (range_at 16 4) ≡ 1
unfolding line_rounds get_cacheline_id
one_round = refl

load-HitOnly_example :
    Returns
      (λ r. HitOnly 0 (count_load 4 first_level) (min 4 4) start r.1)
      ((ops 3).load start 0 (range_at 16 4))
load-HitOnly_example =
    load-HitOnly 3 start 0 first_level (range_at 16 4) start-IsValid (omega arith) refl one_round
      held_line

pub first_level-IsHomed : IsHomed first_level
first_level-IsHomed zero zero e hj hk at valid = ground (arith, at)
first_level-IsHomed zero (suc zero) e hj hk at valid = ground (arith, at)
first_level-IsHomed (suc zero) zero e hj hk at valid = ground (arith, at)
first_level-IsHomed (suc zero) (suc zero) e hj hk at valid = ground (arith, at)
first_level-IsHomed (suc (suc j)) k e hj hk at valid = absurd (omega arith)
first_level-IsHomed zero (suc (suc k)) e hj hk at valid = absurd (omega arith)
first_level-IsHomed (suc zero) (suc (suc k)) e hj hk at valid = absurd (omega arith)

only_invalid : (n i : ℕ) (e : Entry) → get_elem? (replicate n no_line) i ≡ some e → e.invalid ≡ true
only_invalid zero i e at = cc
only_invalid (suc n) zero e at = ground (arith, at)
only_invalid (suc n) (suc i) e at = only_invalid n i e at

empty-InHomes : (n sets ways : ℕ) → InHomes (replicate n no_line) sets ways
empty-InHomes n sets ways j k e hj hk at valid =
    let contra = only_invalid n (j * ways + k) e at in cc

start-AllHomed : AllHomed start
start-AllHomed =
    of_three (λ _ c. IsHomed c) first_level second_level victim_cache first_level-IsHomed
      (empty-InHomes 4 2 2) (empty-InHomes 4 2 2)

store-StoreOnly_example :
    Returns
      (StoreOnly 0 (count_store 4 first_level) (get_cacheline_id first_level 16) start)
      ((ops 3).store start 0 (range_at 16 4) true)
store-StoreOnly_example =
    store-StoreOnly 3 start 0 first_level (range_at 16 4) true start-IsValid (omega arith) refl
      one_round refl held_line

store-counts_example :
    Returns
      (λ t.
        (own : Cache) × (get_elem? t.caches 0 ≡ some own)
        × (own.store.count ≡ 0 + 1)
        × (own.store.byte ≡ 0 + 12))
      ((ops 3).store start 0 (range_at 30 12) true)
store-counts_example =
    store-counts 3 start 0 first_level (range_at 30 12) true start-IsValid (omega arith) refl

calls-AllHomed_example :
    Returns (λ r. AllHomed r.1) ((ops 3).load start 0 (range_at 30 12))
    × Returns AllHomed ((ops 3).store start 0 (range_at 30 12) false)
    × Returns (λ r. AllHomed r.1) ((ops 3).inject start 0 (dirty_line 8))
calls-AllHomed_example =
    calls-AllHomed 3 start 0 start-IsValid (omega arith) start-AllHomed (range_at 30 12) false
      (dirty_line 8) refl
