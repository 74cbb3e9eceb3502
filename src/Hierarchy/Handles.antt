-- ===== src/Hierarchy/Handles.antt =====
-- What the calls behind a cache are taken to do, and small facts about one cache that the functions
-- of cachesim/backend.c share.
use pycachesim.Base.{
  ℕ, zero, suc, ◌+◌, ◌%◌, ◌≤◌, ◌<◌, ◌≡◌, refl, ap, ◌∙◌, Bool, true, false, not, ◌&&◌, some, arith,
  ◌==◌, get_elem?, get_elem?-set_self, lt_of_get_elem?, ok, Returns, returns, bind, weaken,
  if-Returns,
}
use pycachesim.Cache.{Cache, Entry, AddrRange, get_set_id}
use pycachesim.Hierarchy.{Sim, put, Ops, count_evict, take_bits, evict_bits}
use pycachesim.Hierarchy.Steps.{IsValid, Steps}
use pycachesim.Replace.{bit_base}
use pycachesim.Replace.Shape.{
  HasShape, Kept, Kept-trans, Kept-refl, test_bit-returns, write_bit-Kept,
}
use pycachesim.Replace.Shift.{bit_count, bits_in_room}

-- The caches from `b` on are handled: each call returns, after changes from its cache on.
pub record Handles (size : ℕ) (below : Ops) (b : ℕ) : Type 0 where
  pub load :
      (s : Sim) (q : ℕ) (range : AddrRange)
      → IsValid size s
      → b ≤ q
      → q < size
      → Returns (λ r. Steps q s r.1) (below.load s q range)
  pub store :
      (s : Sim) (q : ℕ) (range : AddrRange) (non_temporal : Bool)
      → IsValid size s
      → b ≤ q
      → q < size
      → Returns (λ t. Steps q s t) (below.store s q range non_temporal)
  pub inject :
      (s : Sim) (q : ℕ) (entry : Entry)
      → IsValid size s
      → b ≤ q
      → q < size
      → entry.invalid ≡ false
      → Returns (λ r. Steps q s r.1) (below.inject s q entry)

take_bits-Kept :
    (n b : ℕ) (non_temporal : Bool) (c : Cache)
    → HasShape c
    → (c.write_combining == 1) ≡ true
    → b + n ≤ bit_count c
    → Returns (λ r. Kept c r.1 × (r.1.placement ≡ c.placement)) (take_bits n b non_temporal c)
unfolding take_bits
take_bits-Kept zero b nt c shape on h = returns (Kept-refl shape, refl)
take_bits-Kept (suc n) b nt c shape on h =
    bind (test_bit-returns c shape on b (omega arith)) (λ marked _.
      bind (write_bit-Kept c shape on b (omega arith) false) (λ c' k.
        let same = ap bit_count k.0.only in
        let on' = ap (λ x. x.write_combining == 1) k.0.only ∙ on in
        weaken (take_bits-Kept n (b + 1) (not marked && nt) c' k.0.shape on' (omega arith))
          (λ r k'. (Kept-trans k.0 k'.0, k'.1 ∙ k.1))))

-- Taking the bits of an evicted line stays inside the bit field.
pub evict_bits-Kept :
    (c : Cache) (set_id i : ℕ)
    → HasShape c
    → set_id < c.sets
    → i < c.ways
    → Returns (λ r. Kept c r.1 × (r.1.placement ≡ c.placement)) (evict_bits c set_id i)
unfolding evict_bits
evict_bits-Kept c set_id i shape in_sets lt =
    if-Returns (c.write_combining == 1)
      (λ on.
        take_bits-Kept c.subblock_bits (bit_base c set_id i) true c shape on
          (bits_in_room c.subblock_bits in_sets lt))
      (λ off. returns (Kept-refl shape, refl))

pub at_self :
    (s : Sim) (p : ℕ) {c : Cache} (c' : Cache)
    → get_elem? s.caches p ≡ some c
    → get_elem? (put s p c').caches p ≡ some c'
at_self s p c' at = get_elem?-set_self s.caches p c' (lt_of_get_elem? s.caches p at)

pub get_set_id-ok : (c : Cache) (cl_id : ℕ) → HasShape c → get_set_id c cl_id ≡ ok (cl_id % c.sets)
unfolding get_set_id
get_set_id-ok c cl_id shape = let pos = shape.sets_pos in ground arith

-- The counters of loads, stores, hits and misses are the same.
pub record Quiet (c c' : Cache) : Type 0 where
  pub load : c'.load ≡ c.load
  pub store : c'.store ≡ c.store
  pub hit : c'.hit ≡ c.hit
  pub miss : c'.miss ≡ c.miss

pub Quiet-trans : {c c' c'' : Cache} → Quiet c c' → Quiet c' c'' → Quiet c c''
Quiet-trans q r = record {
  load = r.load ∙ q.load;
  store = r.store ∙ q.store;
  hit = r.hit ∙ q.hit;
  miss = r.miss ∙ q.miss;
}

pub Quiet-refl : (c : Cache) → Quiet c c
Quiet-refl c = record { load = refl; store = refl; hit = refl; miss = refl }

pub Quiet-evict : (n : ℕ) (c : Cache) → Quiet c (count_evict n c)
Quiet-evict n c = record { load = refl; store = refl; hit = refl; miss = refl }

pub Kept-Quiet : {c c' : Cache} → Kept c c' → Quiet c c'
Kept-Quiet k = record {
  load = ap (λ x. x.load) k.only;
  store = ap (λ x. x.store) k.only;
  hit = ap (λ x. x.hit) k.only;
  miss = ap (λ x. x.miss) k.only;
}

-- What the cache `p` is in `t`, if it was `c` and its entries have not changed.
pub record OwnAfter (p : ℕ) (c : Cache) (t : Sim) : Type 0 where
  pub own : Cache
  pub at : get_elem? t.caches p ≡ some own
  pub quiet : Quiet c own
  pub entries : own.placement ≡ c.placement
