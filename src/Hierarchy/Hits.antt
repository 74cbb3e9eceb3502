-- ===== src/Hierarchy/Hits.antt =====
-- `Cache__load` of cachesim/backend.c for a line that the cache holds.
use native.Mathlib.Nat.{mod-lt}
use pycachesim.Base.{
  ℕ, zero, suc, ◌%◌, ◌<◌, ◌≡◌, ◌≢◌, refl, sym, ap, ◌∙◌, Option, some, arith, min, get_elem?, ◌==◌,
  ◌||◌, get_elem?-set_ne, Returns, returns, bind, if-Returns, option_case,
}
use pycachesim.Cache.{Cache, AddrRange, bump, line_rounds, get_cacheline_id}
use pycachesim.Cache.Search.{Found, here, nowhere, HeldAt}
use pycachesim.Hierarchy.{
  Sim, Ops, ops, put, count_load, count_hit, load_hit, load_miss, load_line, load_lines, load,
}
use pycachesim.Hierarchy.Handles.{at_self, get_set_id-ok}
use pycachesim.Hierarchy.Effects.{Present, search_set}
use pycachesim.Hierarchy.Local.{Local, loaded, was_hit, Local-HasShape}
use pycachesim.Hierarchy.Steps.{IsValid}
use pycachesim.Replace.Entries.{move_to_front-IsUpdated}
use pycachesim.Replace.Shape.{HasShape}

-- One hit of `n` bytes in the cache `p`, which was `c`, and no change of any other cache.
pub record HitOnly (p : ℕ) (c : Cache) (n : ℕ) (s t : Sim) : Type 0 where
  pub own : Cache
  pub at : get_elem? t.caches p ≡ some own
  pub load : own.load ≡ c.load
  pub store : own.store ≡ c.store
  pub hit : own.hit ≡ bump c.hit n
  pub miss : own.miss ≡ c.miss
  pub evict : own.evict ≡ c.evict
  pub others : (q : ℕ) → q ≢ p → get_elem? t.caches q ≡ get_elem? s.caches q

module _ (below : Ops) (p : ℕ) (s : Sim) (c : Cache) (shape : HasShape c)
    (at : get_elem? s.caches p ≡ some c) (range : AddrRange) (cl_id : ℕ) where
  hit_only :
      (own : Cache)
      → own.load ≡ c.load
      → own.store ≡ c.store
      → own.hit ≡ bump c.hit (min c.cl_size range.length)
      → own.miss ≡ c.miss
      → own.evict ≡ c.evict
      → HitOnly p c (min c.cl_size range.length) s (put s p own)
  hit_only own load store hit miss evict = record {
    own = own;
    at = at_self s p own at;
    load = load;
    store = store;
    hit = hit;
    miss = miss;
    evict = evict;
    others = λ q ne. get_elem?-set_ne s.caches p q own (λ e. ne (sym e));
  }

  load_hit-HitOnly :
      (i : ℕ)
      → HeldAt c cl_id (cl_id % c.sets) i
      → Returns
          (λ r. HitOnly p c (min c.cl_size range.length) s r.1)
          (load_hit below s p range (cl_id % c.sets) i)
  unfolding load_hit
  load_hit-HitOnly i held =
      let c₁ = count_hit (min c.cl_size range.length) c in
      let l : Local c c₁ = was_hit (min c.cl_size range.length) in
      let in_sets : cl_id % c.sets < c.sets = mod-lt cl_id shape.sets_pos in
      rw at (
        rw held.at (
          if-Returns ((c.replacement_policy_id == 0) || (c.replacement_policy_id == 3))
            (λ _. returns (hit_only c₁ refl refl refl refl refl))
            (λ _.
              bind
                (move_to_front-IsUpdated c₁ (cl_id % c.sets) i held.entry (Local-HasShape l shape)
                  in_sets held.in_set held.at)
                (λ c' (k, u). returns (
                  hit_only c' (ap (λ x. x.load) k.only) (ap (λ x. x.store) k.only)
                    (ap (λ x. x.hit) k.only) (ap (λ x. x.miss) k.only)
                    (ap (λ x. x.evict) k.only))))))

  load_line-HitOnly :
      Present c cl_id
      → Returns
          (λ r. HitOnly p c (min c.cl_size range.length) s r.1)
          (load_line below s p range cl_id)
  unfolding load_line
  load_line-HitOnly (i, held) = rw at (
      rw (get_set_id-ok c cl_id shape)
        (bind (search_set c cl_id shape) (λ location found. answer location found)))
    where
      answer :
          (location : Option ℕ)
          → Found c cl_id (cl_id % c.sets) 0 location
          → Returns
              (λ r. HitOnly p c (min c.cl_size range.length) s r.1)
              (option_case location
                (load_miss below s p range cl_id)
                (load_hit below s p range (cl_id % c.sets)))
      answer _ (here h held' absent) = load_hit-HitOnly _ held'
      answer _ (nowhere absent) =
          let out = absent i held.entry (omega arith) held.in_set held.at in
          let is_held = held.held in cc

module _ (size : ℕ) (s : Sim) (p : ℕ) (c : Cache) (range : AddrRange) (valid : IsValid size s)
    (inside : p < size) (at : get_elem? s.caches p ≡ some c) where
  -- In a valid hierarchy, a load of a range inside one line that the cache holds counts one load and one hit; it counts no
  -- store, no miss and no eviction, and changes no other cache.
  pub load-HitOnly :
      line_rounds c range ≡ 1
      → Present c (get_cacheline_id c range.addr)
      → Returns
          (λ r. HitOnly p (count_load range.length c) (min c.cl_size range.length) s r.1)
          ((ops size).load s p range)
  unfolding ops load load_lines
  load-HitOnly one_line present = with_fuel size refl
    where
      with_fuel :
          (n : ℕ)
          → n ≡ size
          → Returns
              (λ r. HitOnly p (count_load range.length c) (min c.cl_size range.length) s r.1)
              ((ops n).load s p range)
      with_fuel zero e = absurd (omega arith)
      with_fuel (suc n) e =
          let c₁ = count_load range.length c in
          let l : Local c c₁ = loaded range.length in
          let shape₁ = Local-HasShape l (valid.shape p c at) in
          let (i, held) = present in
          let present' : Present c₁ (get_cacheline_id c range.addr) = (
            i,
            record { in_set = held.in_set; entry = held.entry; at = held.at; held = held.held },
          ) in
          rw at (
            rw one_line (
              bind
                (load_line-HitOnly (ops n) p (put s p c₁) c₁ shape₁ (at_self s p c₁ at) range
                  (get_cacheline_id c range.addr) present')
                (λ (j, t) h. returns (record {
                  own = h.own;
                  at = h.at;
                  load = h.load;
                  store = h.store;
                  hit = h.hit;
                  miss = h.miss;
                  evict = h.evict;
                  others =
                      λ q ne. h.others q ne ∙ get_elem?-set_ne s.caches p q c₁ (λ e. ne (sym e));
                }))))
