-- ===== src/Tests/Methods.antt =====
-- The theorems on the methods of the Python object, used on the caches of the tests.
use pycachesim.Base.{◌≡◌, ◌↔◌, refl, true, some, List, [], ◌∷◌, map, arith, ok, ◌>>=◌, Returns}
use pycachesim.Api.{
  contains, cached, mark_all_invalid, force_write_back, addrs, no_addrs, is_none, Item, pair,
  odd_item, loadstore,
}
use pycachesim.Api.Contents.{Among, contains-cached}
use pycachesim.Api.Flat.{IsEmptied, mark_all_invalid-IsEmptied}
use pycachesim.Api.Due.{dirty_lines, cleaned}
use pycachesim.Api.Flush.{Flushed, force_write_back-Flushed}
use pycachesim.Api.Accesses.{run_accesses, accesses, first_error, loadstore-run}
use pycachesim.Api.Iterate.{loadstore-Outcome}
use pycachesim.Hierarchy.{ops}
use pycachesim.Hierarchy.Safety.{Outcome}
use pycachesim.Replace.Shape.{Kept}
use pycachesim.Tests.{first_level, start}
use pycachesim.Tests.Levels.{first_level-IsHomed}
use pycachesim.Tests.Shapes.{start-IsValid, first_level-HasShape}

contains-cached_example :
    Returns
      (λ l. Returns (λ b. (b ≡ true) ↔ Among 18 l) (contains first_level 18))
      (cached first_level)
contains-cached_example = contains-cached first_level first_level-HasShape first_level-IsHomed 18

mark_all_invalid-IsEmptied_example :
    Returns (λ c'. Kept first_level c' × IsEmptied c') (mark_all_invalid first_level)
mark_all_invalid-IsEmptied_example = mark_all_invalid-IsEmptied first_level first_level-HasShape

force_write_back-Flushed_example :
    Returns
      (Flushed 3 0 first_level
        (dirty_lines first_level.placement)
        (map cleaned first_level.placement)
        start)
      (force_write_back (ops 3) start 0)
force_write_back-Flushed_example =
    force_write_back-Flushed 3 start 0 first_level start-IsValid (omega arith) refl

abbrev some_items : List Item
some_items = pair (addrs (0 ∷ 40 ∷ [])) (addrs (8 ∷ [])) ∷ pair is_none no_addrs ∷ odd_item ∷ []

loadstore-run_example :
    loadstore (ops 3) 0 8 start (some some_items)
    ≡ (run_accesses (ops 3) 0 8 start (accesses some_items) >>= λ t. ok (first_error some_items, t))
loadstore-run_example = loadstore-run (ops 3) 0 8 start some_items

loadstore-Outcome_example :
    Returns
      (λ (error, t). (error ≡ first_error some_items) × Outcome 3 0 start t)
      (loadstore (ops 3) 0 8 start (some some_items))
loadstore-Outcome_example = loadstore-Outcome 3 0 8 (omega arith) start some_items start-IsValid
