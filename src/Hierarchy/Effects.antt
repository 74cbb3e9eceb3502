-- ===== src/Hierarchy/Effects.antt =====
-- What `Cache__load` of cachesim/backend.c leaves of its cache after one line.
use native.Mathlib.Nat.{mod-lt}
use pycachesim.Base.{
  ℕ, ◌-◌, ◌%◌, ◌<◌, ◌≡◌, ◌⊎◌, Bool, true, false, ◌||◌, some, ◌∷◌, arith, ◌==◌, get_elem?, erase_at,
  Returns,
}
use pycachesim.Cache.{Cache, bump, get_location}
use pycachesim.Cache.Search.{Absent, Found, HeldAt, get_location-Found}
use pycachesim.Hierarchy.{Sim}
use pycachesim.Replace.Choice.{is_queue}
use pycachesim.Replace.Entries.{set_in_room}
use pycachesim.Replace.Queue.{queue, OthersKept}
use pycachesim.Replace.Shape.{HasShape}

-- The search of a set of a cache in shape.
pub search_set :
    (c : Cache) (cl_id : ℕ)
    → HasShape c
    → Returns (Found c cl_id (cl_id % c.sets) 0) (get_location c cl_id (cl_id % c.sets))
search_set c cl_id shape =
    let pos = shape.sets_pos in
    let room = shape.room in
    let inside = set_in_room c.ways (mod-lt cl_id pos) in
    get_location-Found c cl_id (cl_id % c.sets) (omega arith)

-- A way of its set holds the line.
abbrev pub Present : Cache → ℕ → Type 0
Present c cl_id = (i : ℕ) × HeldAt c cl_id (cl_id % c.sets) i

-- FIFO and RR leave the order of a set on a hit.
abbrev pub keeps_order : Cache → Bool
keeps_order c = (c.replacement_policy_id == 0) || (c.replacement_policy_id == 3)

-- What became of the set of a line and of the other sets, and what was counted: the line was there and
-- all stayed; it was there and went to the front; or it was not there and came in, under FIFO and
-- LRU at the front, for the end of the queue.
pub data Moved (c : Cache) (cl_id n : ℕ) (own : Cache) : Type 0 where
  stays :
      (i : ℕ)
      → HeldAt c cl_id (cl_id % c.sets) i
      → Absent c cl_id (cl_id % c.sets) 0 i
      → keeps_order c ≡ true
      → own.placement ≡ c.placement
      → own.hit ≡ bump c.hit n
      → own.miss ≡ c.miss
      → Moved c cl_id n own
  goes_up :
      (i : ℕ) (h : HeldAt c cl_id (cl_id % c.sets) i)
      → Absent c cl_id (cl_id % c.sets) 0 i
      → keeps_order c ≡ false
      → queue own (cl_id % c.sets) ≡ h.entry ∷ erase_at i (queue c (cl_id % c.sets))
      → OthersKept c own (cl_id % c.sets)
      → own.hit ≡ bump c.hit n
      → own.miss ≡ c.miss
      → Moved c cl_id n own
  comes_in :
      Absent c cl_id (cl_id % c.sets) 0 c.ways
      → (is_queue c ≡ true
          → queue own (cl_id % c.sets)
            ≡ record { cl_id = cl_id; dirty = false; invalid = false }
              ∷ erase_at (c.ways - 1) (queue c (cl_id % c.sets)))
      → OthersKept c own (cl_id % c.sets)
      → own.hit ≡ c.hit
      → own.miss ≡ bump c.miss n
      → Moved c cl_id n own

-- What a load of a line leaves of the cache `p`, which was `c`: the line is present; the load was
-- counted as a hit or as a miss, of `n` bytes; the counters of loads and stores are the same.
pub record LineLoaded (p : ℕ) (c : Cache) (cl_id n : ℕ) (i : ℕ) (t : Sim) : Type 0 where
  pub in_set : i < c.ways
  pub own : Cache
  pub at : get_elem? t.caches p ≡ some own
  pub load : own.load ≡ c.load
  pub store : own.store ≡ c.store
  pub counted :
      ((own.hit ≡ bump c.hit n) × (own.miss ≡ c.miss))
      ⊎ ((own.hit ≡ c.hit) × (own.miss ≡ bump c.miss n))
  pub present : Present own cl_id
  pub moved : Moved c cl_id n own
