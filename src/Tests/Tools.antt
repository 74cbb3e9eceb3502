-- ===== src/Tests/Tools.antt =====
-- The theorems on the walks along the links and on the Pin tool, used on small hierarchies and programs.
use pycachesim.Base.{
  ℕ, ◌≡◌, refl, true, false, none, some, List, [], ◌∷◌, arith, get_elem?, Returns,
}
use pycachesim.Cache.{Cache}
use pycachesim.CString.{bytes}
use pycachesim.Hierarchy.{ops}
use pycachesim.Pin.{Ins, Img, Marks, no_marks, Tool, image_load}
use pycachesim.Pin.Counting.{Stored, run_events-Stored}
use pycachesim.Pin.Markers.{IsMarked, image_load-IsMarked}
use pycachesim.Pin.Runs.{Event, at_start, at_stop, at_ins, run_events, run_events-modes}
use pycachesim.Tests.{first_level, start, range_at}
use pycachesim.Tests.Shapes.{start-IsValid, of_three}
use pycachesim.Walks.{print_stats, dealloc}
use pycachesim.Walks.Chain.{LoadChain, ChainReports, dealloc-LoadChain, print_stats-ChainReports}

dealloc-LoadChain_example : Returns (LoadChain start.caches 0) (dealloc 3 start.caches [] 0)
dealloc-LoadChain_example = dealloc-LoadChain 3 start start-IsValid 0 (omega arith)

-- Each cache of `start` stores to the one that it loads from; the second one has a victim cache.
one_next : (q : ℕ) (c : Cache) → get_elem? start.caches q ≡ some c → c.store_to ≡ c.load_from
one_next = of_three (λ _ c. c.store_to ≡ c.load_from) _ _ _ refl refl refl

print_stats-ChainReports_example :
    Returns (ChainReports start.caches 0) (print_stats 3 start.caches 0)
print_stats-ChainReports_example =
    print_stats-ChainReports 3 start start-IsValid one_next 0 (omega arith)

abbrev ins_at : ℕ → Ins
ins_at a = record {
  address = a;
  target = none;
  is_memory_read = true;
  is_standard_memop = true;
  is_memory_write = true;
}

abbrev call_at : ℕ → ℕ → Ins
call_at a target = record {
  address = a;
  target = some target;
  is_memory_read = false;
  is_standard_memop = false;
  is_memory_write = true;
}

abbrev marks : Marks
marks = record no_marks { start_call = 100; start_ins = 7; stop_call = 200; stop_ins = 9 }

abbrev executed : Ins → Event
executed ins = at_ins (record { ins = ins; reads = range_at 16 4; writes = range_at 30 12 })

abbrev events : List Event
events = executed (ins_at 3) ∷ at_start ∷ executed (ins_at 8) ∷ at_stop ∷ executed (ins_at 12) ∷ []

abbrev idle : Tool
idle = record { active = false; sim = start }

run_events-modes_example :
    run_events (ops 3) 0 true marks events idle ≡ run_events (ops 3) 0 false marks events idle
run_events-modes_example = run_events-modes (ops 3) 0 marks events idle (refl, (refl, (refl, tt)))

run_events-Stored_example :
    Returns (λ u. Stored 3 0 first_level 1 12 u.sim) (run_events (ops 3) 0 true marks events idle)
run_events-Stored_example =
    run_events-Stored 3 0 (omega arith) true marks events first_level idle start-IsValid refl

abbrev image : Img
image = record {
  is_main_executable = true;
  symbols =
      record { name = bytes "_magic_pin_start"; address = 100 }
      ∷ record { name = bytes "_magic_pin_stop"; address = 200 }
      ∷ [];
  sections = ((call_at 7 100 ∷ ins_at 8 ∷ []) ∷ (call_at 9 200 ∷ []) ∷ []) ∷ [];
}

image_load-IsMarked_example :
    IsMarked false 100 200
      (call_at 7 100 ∷ ins_at 8 ∷ call_at 9 200 ∷ [])
      (image_load (λ t. t) false image no_marks)
image_load-IsMarked_example = image_load-IsMarked (λ t. t) false image refl
