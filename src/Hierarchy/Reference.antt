-- ===== src/Hierarchy/Reference.antt =====
-- The textbook cache that a FIFO or LRU cache of cachesim/backend.c stands for, whatever is behind it:
-- a list of lines for each set, and the numbers of hits and misses; and one line that is loaded.
use native.Mathlib.Decide.{ℕ_discrete}
use native.Mathlib.Nat.{mod-lt}
use mathlib.Core.Path.{ap₂}
use pycachesim.Base.{
  ℕ, zero, suc, ◌+◌, ◌-◌, ◌*◌, ◌/◌, ◌%◌, ◌<◌, ◌≡◌, refl, sym, ap, ◌∙◌, Bool, true, false, some,
  List, [], ◌∷◌, arith, ◌==◌, eq→==, if◌then◌else◌, get_elem?, erase_at, take,
}
use pycachesim.Cache.{Cache, Entry, bump}
use pycachesim.Cache.Search.{holds-valid, holds-cl_id, HeldAt, Absent}
use pycachesim.Hierarchy.Effects.{Moved, stays, goes_up, comes_in}
use pycachesim.Hierarchy.Order.{IsOrdered-front}
use pycachesim.Replace.Choice.{is_queue}
use pycachesim.Replace.Packed.{
  lines_of, mem, remove, IsPacked, lines_of-erase_last, lines_of-erase_held, mem-lines_of_absent,
}
use pycachesim.Replace.Queue.{queue, queue-ext, get_elem?-queue, length-queue, OthersKept}
use pycachesim.Replace.Shape.{HasShape}

pub record Model : Type 0 where
  pub sets : ℕ → List ℕ
  pub hits : ℕ
  pub misses : ℕ

-- `count` sets of `ways` lines, the newest first: under LRU the one that was used last, else the one
-- that came in last.
module _ (lru : Bool) (count ways : ℕ) where
  unfoldable pub touch : ℕ → List ℕ → List ℕ
  touch l q = if mem l q then (if lru then l ∷ remove l q else q) else take ways (l ∷ q)

  unfoldable pub use_line : ℕ → Model → Model
  unfolding touch
  use_line l m =
      let q = m.sets (l % count) in
      let there = mem l q in
      record {
        sets = λ k. if k == l % count then touch l q else m.sets k;
        hits = if there then m.hits + 1 else m.hits;
        misses = if there then m.misses else m.misses + 1;
      }

  unfoldable pub use_lines : ℕ → ℕ → Model → Model
  use_lines zero l m = m
  use_lines (suc n) l m = use_lines n (l + 1) (use_line l m)

  -- The lines of `size` bytes that the `len` bytes from `addr` on lie in.
  unfoldable pub use_range : ℕ → ℕ → ℕ → Model → Model
  use_range size len addr m = use_lines ((addr + len - 1) / size + 1 - addr / size) (addr / size) m

  unfoldable pub use_ranges : ℕ → ℕ → List ℕ → Model → Model
  use_ranges size len [] m = m
  use_ranges size len (addr ∷ rest) m = use_ranges size len rest (use_range size len addr m)

Model-ext :
    {m m' : Model}
    → ((k : ℕ) → m.sets k ≡ m'.sets k)
    → m.hits ≡ m'.hits
    → m.misses ≡ m'.misses
    → m ≡ m'
Model-ext sets hits misses = λ i. record { sets = λ k. sets k i; hits = hits i; misses = misses i }

abbrev pub is_lru : Cache → Bool
is_lru c = c.replacement_policy_id == 1

-- What a cache stands for.
abbrev pub view : Cache → Model
view c = record { sets = λ k. lines_of (queue c k); hits = c.hit.count; misses = c.miss.count }

module _ (c own : Cache) (l n : ℕ) (shape : HasShape c) (on : is_queue c ≡ true)
    (packed : (k : ℕ) → IsPacked (queue c k)) (ways : own.ways ≡ c.ways) where
  abbrev old_set : List Entry
  old_set = queue c (l % c.sets)

  abbrev expected : Model
  expected = use_line (is_lru c) c.sets c.ways l (view c)

  in_queue : (i : ℕ) (h : HeldAt c l (l % c.sets) i) → get_elem? old_set i ≡ some h.entry
  in_queue i h =
      let lt = h.in_set in let at = h.at in ground (arith, get_elem?-queue c (l % c.sets) i)

  way_of :
      (k : ℕ) (x : Entry)
      → get_elem? old_set k ≡ some x
      → (k < c.ways) × (get_elem? c.placement (l % c.sets * c.ways + k) ≡ some x)
  way_of k x at = (
    ground (arith, get_elem?-queue c (l % c.sets) k, at),
    ground (arith, get_elem?-queue c (l % c.sets) k, at),
  )

  -- A change of the line's set only.
  one_set :
      OthersKept c own (l % c.sets)
      → lines_of (queue own (l % c.sets)) ≡ touch (is_lru c) c.sets c.ways l (lines_of old_set)
      → (k : ℕ) → lines_of (queue own k) ≡ expected.sets k
  unfolding use_line
  one_set others this k = elim (ℕ_discrete k (l % c.sets)) [
    | yes e ↦ rw e (let same = eq→== (l % c.sets) (l % c.sets) refl in rw same this)
    | no e ↦ let other : (k == l % c.sets) ≡ false = ground arith in rw (other, others k e) refl
  ]

  as_hit :
      mem l (lines_of old_set) ≡ true
      → own.hit ≡ bump c.hit n
      → own.miss ≡ c.miss
      → (own.hit.count ≡ expected.hits) × (own.miss.count ≡ expected.misses)
  unfolding use_line bump
  as_hit there hit miss = (rw (there, hit) refl, rw (there, miss) refl)

  as_miss :
      mem l (lines_of old_set) ≡ false
      → own.hit ≡ c.hit
      → own.miss ≡ bump c.miss n
      → (own.hit.count ≡ expected.hits) × (own.miss.count ≡ expected.misses)
  unfolding use_line bump
  as_miss absent hit miss = (rw (absent, hit) refl, rw (absent, miss) refl)

  -- The first way that holds the line.
  first_held :
      (i : ℕ)
      → HeldAt c l (l % c.sets) i
      → Absent c l (l % c.sets) 0 i
      → (mem l (lines_of old_set) ≡ true)
        × (lines_of (erase_at i old_set) ≡ remove l (lines_of old_set))
  first_held i h first =
      lines_of-erase_held l i old_set (in_queue i h) h.held
        (λ k x lt at. first k x (omega arith) lt (way_of k x at).1)

  -- What the operation does to a set is what the textbook cache does to its list.
  set_is_touched :
      Moved c l n own
      → lines_of (queue own (l % c.sets)) ≡ touch (is_lru c) c.sets c.ways l (lines_of old_set)
  unfolding touch
  set_is_touched (stays i h first keeps entries hit miss) =
      let (there, rest) = first_held i h first in
      let off : is_lru c ≡ false = ground (arith, on, keeps) in
      rw (there, off, queue-ext c own (l % c.sets) entries ways) refl
  set_is_touched (goes_up i h first keeps front others hit miss) =
      let (there, rest) = first_held i h first in
      let lru : is_lru c ≡ true = ground (arith, on, keeps) in
      let valid = holds-valid h.entry l h.held in
      rw (there, lru, front, valid) (ap₂ ◌∷◌ (holds-cl_id h.entry l h.held) rest)
  set_is_touched (comes_in absent front others hit miss) =
      let pos = shape.ways_pos in
      let in_sets = mod-lt l shape.sets_pos in
      let whole : c.ways ≡ suc (c.ways - 1) = omega arith in
      let no_there =
        mem-lines_of_absent l old_set
          (λ k x at. absent k x (omega arith) (way_of k x at).0 (way_of k x at).1) in
      rw (no_there, front on)
        (ap (◌∷◌ l) (
            lines_of-erase_last (c.ways - 1) old_set
              (length-queue c (l % c.sets) shape in_sets ∙ whole) (packed (l % c.sets)))
          ∙ ap (λ w. take w (l ∷ lines_of old_set)) (sym whole))

  same_others : Moved c l n own → OthersKept c own (l % c.sets)
  same_others (stays i h first keeps entries hit miss) k ne = queue-ext c own k entries ways
  same_others (goes_up i h first keeps front others hit miss) k ne = others k ne
  same_others (comes_in absent front others hit miss) k ne = others k ne

  counted : Moved c l n own → (own.hit.count ≡ expected.hits) × (own.miss.count ≡ expected.misses)
  counted (stays i h first keeps entries hit miss) = as_hit (first_held i h first).0 hit miss
  counted (goes_up i h first keeps front others hit miss) = as_hit (first_held i h first).0 hit miss
  counted (comes_in absent front others hit miss) =
      as_miss
        (mem-lines_of_absent l old_set
          (λ k x at. absent k x (omega arith) (way_of k x at).0 (way_of k x at).1))
        hit miss

  -- A line that is loaded is a line that the textbook cache uses.
  pub Moved-use_line : Moved c l n own → view own ≡ expected
  Moved-use_line m =
      let (hits, misses) = counted m in
      Model-ext (one_set (same_others m) (set_is_touched m)) hits misses

  pub Moved-IsPacked : Moved c l n own → (k : ℕ) → IsPacked (queue own k)
  Moved-IsPacked (stays i h first keeps entries hit miss) k =
      rw (queue-ext c own k entries ways) (packed k)
  Moved-IsPacked (goes_up i h first keeps front others hit miss) k =
      IsOrdered-front c own (l % c.sets) i h.entry (holds-valid h.entry l h.held) front others
        packed k
  Moved-IsPacked (comes_in absent front others hit miss) k =
      IsOrdered-front c own (l % c.sets) (c.ways - 1) _ refl (front on) others packed k
