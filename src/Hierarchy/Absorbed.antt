-- ===== src/Hierarchy/Absorbed.antt =====
-- `Cache__store` of cachesim/backend.c for a line that a write-back cache holds.
use native.Mathlib.Nat.{mod-lt}
use pycachesim.Base.{
  ℕ, zero, suc, ◌+◌, ◌*◌, ◌%◌, ◌<◌, ◌≡◌, ◌≢◌, refl, sym, ap, ◌∙◌, Bool, true, not, ◌&&◌, Option,
  some, arith, ◌==◌, get_elem?, get_elem?-set_ne, set, ◌>>=◌, Returns, returns, bind, if-Returns,
}
use pycachesim.Cache.{Cache, Entry, AddrRange, holds, line_rounds, get_cacheline_id}
use pycachesim.Cache.Search.{Found, here, nowhere}
use pycachesim.Hierarchy.{
  Sim, put, cache_at, Ops, ops, count_store, allocate, mark_stored, mark_dirty, settle, store_line,
  store_lines, store,
}
use pycachesim.Hierarchy.Handles.{at_self, get_set_id-ok}
use pycachesim.Hierarchy.Effects.{search_set, Present}
use pycachesim.Hierarchy.Local.{Local, stored, Local-HasShape}
use pycachesim.Hierarchy.Steps.{IsValid}
use pycachesim.Hierarchy.Store.{mark_stored-Kept}
use pycachesim.Replace.Shape.{HasShape, Kept}

-- The entries of `c` with one that holds the line marked as dirty.
pub record Dirtied (c : Cache) (cl_id : ℕ) (own : Cache) : Type 0 where
  pub way : ℕ
  pub in_set : way < c.ways
  pub entry : Entry
  pub was : get_elem? c.placement (cl_id % c.sets * c.ways + way) ≡ some entry
  pub held : holds entry cl_id ≡ true
  pub now :
      own.placement
      ≡ set c.placement (cl_id % c.sets * c.ways + way) (record entry { dirty = true })

-- The cache `p`, which was `c`, after a store that only marks an entry, and no change of any other cache.
pub record StoreOnly (p : ℕ) (c : Cache) (cl_id : ℕ) (s t : Sim) : Type 0 where
  pub own : Cache
  pub at : get_elem? t.caches p ≡ some own
  pub load : own.load ≡ c.load
  pub store : own.store ≡ c.store
  pub hit : own.hit ≡ c.hit
  pub miss : own.miss ≡ c.miss
  pub evict : own.evict ≡ c.evict
  pub dirtied : Dirtied c cl_id own
  pub others : (q : ℕ) → q ≢ p → get_elem? t.caches q ≡ get_elem? s.caches q

module _ (below : Ops) (p : ℕ) (s : Sim) (c : Cache) (shape : HasShape c)
    (at : get_elem? s.caches p ≡ some c) (back : (c.write_back == 1) ≡ true) (range : AddrRange)
    (nt : Bool) (cl_id : ℕ) where
  settle-StoreOnly :
      (i : ℕ) (e : Entry) (c₂ : Cache)
      → i < c.ways
      → get_elem? c.placement (cl_id % c.sets * c.ways + i) ≡ some e
      → holds e cl_id ≡ true
      → Kept c c₂
      → c₂.placement ≡ c.placement
      → Returns
          (StoreOnly p c cl_id s)
          (settle below (put s p c₂) p range nt cl_id (cl_id % c.sets) (some i))
  unfolding settle mark_dirty
  settle-StoreOnly i e c₂ lt at_i held kept same =
      let back₂ : (c₂.write_back == 1) ≡ true = ap (λ x. x.write_back == 1) kept.only ∙ back in
      let k = cl_id % c.sets * c.ways + i in
      let index : cl_id % c.sets * c₂.ways + i ≡ k =
        ap (λ x. cl_id % c.sets * x.ways + i) kept.only in
      let at_e : get_elem? c₂.placement (cl_id % c.sets * c₂.ways + i) ≡ some e =
        ap (get_elem? c₂.placement) index ∙ ap (λ l. get_elem? l k) same ∙ at_i in
      let marked = set c₂.placement (cl_id % c.sets * c₂.ways + i) (record e { dirty = true }) in
      let c₃ = record c₂ { placement = marked } in
      rw (at_self s p c₂ at) (
        rw back₂ (
          rw at_e (
            returns (record {
              own = c₃;
              at = at_self (put s p c₂) p c₃ (at_self s p c₂ at);
              load = ap (λ x. x.load) kept.only;
              store = ap (λ x. x.store) kept.only;
              hit = ap (λ x. x.hit) kept.only;
              miss = ap (λ x. x.miss) kept.only;
              evict = ap (λ x. x.evict) kept.only;
              dirtied = record {
                way = i;
                in_set = lt;
                entry = e;
                was = at_i;
                held = held;
                now =
                    ap (λ n. set c₂.placement n (record e { dirty = true })) index
                    ∙ ap (λ l. set l k (record e { dirty = true })) same;
              };
              others = λ q ne.
                  get_elem?-set_ne (set s.caches p c₂) p q c₃ (λ x. ne (sym x))
                  ∙ get_elem?-set_ne s.caches p q c₂ (λ x. ne (sym x));
            }))))

  -- No line is allocated.
  allocate-held : (i : ℕ) → Returns (λ r. r ≡ (some i, s)) (allocate below s p nt cl_id (some i))
  unfolding allocate
  allocate-held i =
      rw at (if-Returns ((c.write_allocate == 1) && not nt) (λ _. returns refl) (λ _. returns refl))

  store-Found :
      (location : Option ℕ)
      → Present c cl_id
      → Found c cl_id (cl_id % c.sets) 0 location
      → Returns (StoreOnly p c cl_id s) (
          allocate below s p nt cl_id location >>= λ r. cache_at r.1 p >>= λ c₁.
          mark_stored c₁ range cl_id (cl_id % c.sets) r.0 >>= λ c₂.
          settle below (put r.1 p c₂) p range nt cl_id (cl_id % c.sets) r.0)
  store-Found _ present (here {j} h held absent) = bind (allocate-held j) (λ r is.
      rw (is, at)
        (bind
          (mark_stored-Kept c range cl_id (cl_id % c.sets) (some j) shape
            (mod-lt cl_id shape.sets_pos) held.in_set)
          (λ c₂ (kept, same).
            settle-StoreOnly j held.entry c₂ held.in_set held.at held.held kept same)))
  store-Found _ (i, held) (nowhere absent) =
      let out = absent i held.entry (omega arith) held.in_set held.at in
      let is_held = held.held in cc

  store_line-StoreOnly :
      Present c cl_id → Returns (StoreOnly p c cl_id s) (store_line below s p range nt cl_id)
  unfolding store_line
  store_line-StoreOnly present = rw at (
      rw (get_set_id-ok c cl_id shape)
        (bind (search_set c cl_id shape) (λ location found. store-Found location present found)))

module _ (size : ℕ) (s : Sim) (p : ℕ) (c : Cache) (range : AddrRange) (nt : Bool)
    (valid : IsValid size s) (inside : p < size) (at : get_elem? s.caches p ≡ some c) where
  -- In a valid hierarchy, a store, temporal or not, of a range inside one line that a write-back cache
  -- holds counts one store; it counts no load, hit, miss or eviction, marks an entry that holds the line
  -- as dirty, and changes no other entry and no other cache.
  pub store-StoreOnly :
      line_rounds c range ≡ 1
      → (c.write_back == 1) ≡ true
      → Present c (get_cacheline_id c range.addr)
      → Returns
          (StoreOnly p (count_store range.length c) (get_cacheline_id c range.addr) s)
          ((ops size).store s p range nt)
  unfolding ops store store_lines
  store-StoreOnly one_line back present = with_fuel size refl
    where
      with_fuel :
          (n : ℕ)
          → n ≡ size
          → Returns
              (StoreOnly p (count_store range.length c) (get_cacheline_id c range.addr) s)
              ((ops n).store s p range nt)
      with_fuel zero e = absurd (omega arith)
      with_fuel (suc n) e =
          let c₁ = count_store range.length c in
          let l : Local c c₁ = stored range.length in
          let shape₁ = Local-HasShape l (valid.shape p c at) in
          let (i, held) = present in
          let present' : Present c₁ (get_cacheline_id c range.addr) = (
            i,
            record { in_set = held.in_set; entry = held.entry; at = held.at; held = held.held },
          ) in
          rw at (
            rw one_line (
              bind
                (store_line-StoreOnly (ops n) p (put s p c₁) c₁ shape₁ (at_self s p c₁ at) back
                  range nt (get_cacheline_id c range.addr) present')
                (λ t h. returns (record {
                  own = h.own;
                  at = h.at;
                  load = h.load;
                  store = h.store;
                  hit = h.hit;
                  miss = h.miss;
                  evict = h.evict;
                  dirtied = h.dirtied;
                  others =
                      λ q ne. h.others q ne ∙ get_elem?-set_ne s.caches p q c₁ (λ x. ne (sym x));
                }))))
