-- ===== src/Api/Flush.antt =====
-- `Cache_force_write_back` of cachesim/backend.c over a hierarchy: one round of its loop, and all of them.
use native.Mathlib.Nat.{mul-le-mul_right, suc-mul}
use pycachesim.Base.{
  ℕ, zero, suc, ◌+◌, ◌*◌, ◌≤◌, ◌<◌, ◌≡◌, refl, sym, ap, ◌∙◌, Bool, true, false, ◌&&◌, some, List,
  arith, ◌==◌, inl, inr, Bool-cases, get_elem?, get_elem?_of_lt, set, set_absent, length-set,
  get_elem?-set_ne, take, drop, ◌++◌, map, Returns, returns, bind, weaken, if-Returns,
  option_case-Returns,
}
use pycachesim.Api.{
  flush_bits, flush_mode, clear_dirty, flush_line, flush_entry, flush_from, force_write_back,
}
use pycachesim.Api.Due.{
  cleaned, is_due, dirty_lines, map_from-suc, map_from-end, dirty_lines-end, due, dirty_lines-suc,
  cleaned-due, cleaned-is_due,
}
use pycachesim.Cache.{Cache, Entry, bump}
use pycachesim.Hierarchy.{Sim, Ops, put, count_evict, ops}
use pycachesim.Hierarchy.Dispose.{store_behind}
use pycachesim.Hierarchy.Handles.{
  Handles, at_self, Quiet, Quiet-refl, Quiet-evict, Quiet-trans, Kept-Quiet,
}
use pycachesim.Hierarchy.Local.{
  Local, config, Kept-config, evicted, marked, and_then, Local-HasShape,
}
use pycachesim.Hierarchy.Safety.{ops-Handles}
use pycachesim.Hierarchy.Steps.{
  IsValid, IsLinked-config, at_put, Steps, one, Steps-IsValid, Steps-frame,
}
use pycachesim.Replace.Shape.{
  HasShape, Kept, Kept-trans, Kept-refl, Kept-placement, test_bit-returns, write_bit-Kept,
}
use pycachesim.Replace.Shift.{bit_count}

-- A new object for the cache `p`, of the same configuration and in shape.
IsValid-put :
    {size : ℕ} (s : Sim) (p : ℕ) (c c' : Cache)
    → IsValid size s
    → get_elem? s.caches p ≡ some c
    → HasShape c'
    → config c' ≡ config c
    → IsValid size (put s p c')
IsValid-put s p c c' v at shape same = record {
  count = length-set s.caches p c' ∙ v.count;
  shape = λ q x here. elim (at_put s {c' = c'} q at here) [
    | inl before ↦ v.shape q x before
    | inr (is_p, is_new) ↦ rw is_new shape
  ];
  linked = λ q x here. elim (at_put s {c' = c'} q at here) [
    | inl before ↦ v.linked q x before
    | inr (is_p, is_new) ↦ rw (is_p, is_new) (IsLinked-config same (v.linked p c at))
  ];
}

flush_bits-Kept :
    (n b : ℕ) (non_temporal : Bool) (c : Cache)
    → HasShape c
    → (c.write_combining == 1) ≡ true
    → b + n ≤ bit_count c
    → Returns
        (λ r. Kept c r.1 × (r.1.placement ≡ c.placement) × (r.1.evict ≡ c.evict))
        (flush_bits n b non_temporal c)
unfolding flush_bits
flush_bits-Kept zero b nt c shape on h = returns (Kept-refl shape, refl, refl)
flush_bits-Kept (suc n) b nt c shape on h =
    bind (test_bit-returns c shape on b (omega arith)) (λ marked _.
      bind (write_bit-Kept c shape on b (omega arith) false) (λ c' k.
        let same = ap bit_count k.0.only in
        let on' = ap (λ x. x.write_combining == 1) k.0.only ∙ on in
        weaken (flush_bits-Kept n (b + 1) (marked && nt) c' k.0.shape on' (omega arith))
          (λ r k'. (Kept-trans k.0 k'.0, k'.1 ∙ k.1, k'.2 ∙ ap (λ x. x.evict) k.0.only))))

flush_mode-Kept :
    (c : Cache) (i : ℕ)
    → HasShape c
    → i < c.sets * c.ways
    → Returns
        (λ r. Kept c r.1 × (r.1.placement ≡ c.placement) × (r.1.evict ≡ c.evict))
        (flush_mode c i)
unfolding flush_mode
flush_mode-Kept c i shape lt =
    if-Returns (c.write_combining == 1)
      (λ on.
        let room = mul-le-mul_right c.subblock_bits lt in
        flush_bits-Kept c.subblock_bits (i * c.subblock_bits) true c shape on
          (omega (arith, suc-mul i c.subblock_bits)))
      (λ off. returns (Kept-refl shape, refl, refl))

-- What a write-back of entries leaves: the hierarchy is valid and the caches in front are the same;
-- of the cache itself its evictions have grown by `n` lines, and its entries are `entries`.
pub record Flushed (size p : ℕ) (c : Cache) (n : ℕ) (entries : List Entry) (s t : Sim)
    : Type 0 where
  pub valid : IsValid size t
  pub front : (q : ℕ) → q < p → get_elem? t.caches q ≡ get_elem? s.caches q
  pub own : Cache
  pub at : get_elem? t.caches p ≡ some own
  pub same : config own ≡ config c
  pub quiet : Quiet c own
  pub count : own.evict.count ≡ c.evict.count + n
  pub byte : own.evict.byte ≡ c.evict.byte + n * c.cl_size
  pub is : own.placement ≡ entries

module _ {size : ℕ} (below : Ops) (p : ℕ) (handles : Handles size below (suc p)) where
  module _ (s : Sim) (c : Cache) (valid : IsValid size s) (at : get_elem? s.caches p ≡ some c) where
    flush_line-Flushed :
        (i cl_id : ℕ)
        → i < c.sets * c.ways
        → Returns (Flushed size p c 1 c.placement s) (flush_line below s p i cl_id)
    unfolding flush_line bump
    flush_line-Flushed i cl_id lt =
        let c₁ = count_evict c.cl_size c in
        let l : Local c c₁ = evicted c.cl_size in
        let r : Steps p s (put s p c₁) = one (omega arith) at l in
        rw at (
          option_case-Returns c.store_to
            (λ _. returns (record {
              valid = Steps-IsValid r valid;
              front = λ q h. Steps-frame q r h;
              own = c₁;
              at = at_self s p c₁ at;
              same = refl;
              quiet = Quiet-evict c.cl_size c;
              count = refl;
              byte = omega arith;
              is = refl;
            }))
            (λ q link.
              let (behind, inside) = (valid.linked p c at).store_to q link in
              bind (flush_mode-Kept c₁ i (Local-HasShape l (valid.shape p c at)) lt)
                (λ (nt, c₂) (k, entries, evict).
                  weaken
                    (store_behind below p handles s c valid at q _ nt c₂ behind inside
                      (and_then l (marked k entries)))
                    (λ t (r', at_t). record {
                      valid = Steps-IsValid r' valid;
                      front = λ q h. Steps-frame q r' h;
                      own = c₂;
                      at = at_t;
                      same = Kept-config k;
                      quiet = Quiet-trans (Quiet-evict c.cl_size c) (Kept-Quiet k);
                      count = ap (λ x. x.count) evict;
                      byte = ap (λ x. x.byte) evict ∙ omega arith;
                      is = entries;
                    }))))

    -- One round of the loop.
    flush_entry-Flushed :
        (i : ℕ) (e : Entry)
        → i < c.sets * c.ways
        → get_elem? c.placement i ≡ some e
        → Returns
            (Flushed size p c (due e) (set c.placement i (cleaned e)) s)
            (flush_entry below s p i)
    unfolding flush_entry clear_dirty
    flush_entry-Flushed i e lt at_i =
        let shape = valid.shape p c at in
        let room = shape.room in
        rw (at, at_i)
          (elim (Bool-cases (is_due e)) [
            | inl on ↦ rw on (
                bind (flush_line-Flushed i e.cl_id lt) (λ t f.
                  let at_own : get_elem? f.own.placement i ≡ some e =
                    ap (λ l. get_elem? l i) f.is ∙ at_i in
                  let placement = set f.own.placement i (record e { dirty = false }) in
                  let own = record f.own { placement = placement } in
                  let kept =
                    Kept-placement {c = f.own} placement (f.valid.shape p f.own f.at)
                      (length-set f.own.placement i _) in
                  rw f.at (
                    rw at_own (
                      returns (record {
                        valid = IsValid-put t p f.own own f.valid f.at kept.shape refl;
                        front =
                            λ q h. get_elem?-set_ne t.caches p q own (omega arith) ∙ f.front q h;
                        own = own;
                        at = at_self t p own f.at;
                        same = f.same;
                        quiet = Quiet-trans f.quiet (Kept-Quiet kept);
                        count = f.count;
                        byte = f.byte;
                        is =
                            ap (λ l. set l i (record e { dirty = false })) f.is
                            ∙ ap (set c.placement i) (cleaned-is_due e on);
                      })))))
            | inr off ↦ rw off (
                returns (record {
                  valid = valid;
                  front = λ q h. refl;
                  own = c;
                  at = at;
                  same = refl;
                  quiet = Quiet-refl c;
                  count = omega arith;
                  byte = omega arith;
                  is = sym (
                      ap (set c.placement i) (cleaned-due e off) ∙ set_absent c.placement i e at_i);
                }))
          ])

  Flushed-trans :
      {c : Cache} {s s₁ t : Sim} {n m : ℕ} {entries last : List Entry}
      → (f : Flushed size p c n entries s s₁) → Flushed size p f.own m last s₁ t
      → Flushed size p c (n + m) last s t
  Flushed-trans {c} {n} {m} f g =
      let line : f.own.cl_size ≡ c.cl_size = ap (λ x. x.cl_size) f.same in
      let bytes : m * f.own.cl_size ≡ m * c.cl_size = ap (◌*◌ m) line in
      let split : (n + m) * c.cl_size ≡ n * c.cl_size + m * c.cl_size = grind arith in
      record {
        valid = g.valid;
        front = λ q h. g.front q h ∙ f.front q h;
        own = g.own;
        at = g.at;
        same = g.same ∙ f.same;
        quiet = Quiet-trans f.quiet g.quiet;
        count = omega (arith, f.count, g.count);
        byte = omega (arith, f.byte, g.byte);
        is = g.is;
      }

  flush_from-Flushed :
      (n i : ℕ) (s : Sim) (c : Cache)
      → IsValid size s
      → get_elem? s.caches p ≡ some c
      → i + n ≡ c.sets * c.ways
      → Returns
          (Flushed size p c
            (dirty_lines (drop i c.placement))
            (take i c.placement ++ map cleaned (drop i c.placement))
            s)
          (flush_from below n s p i)
  unfolding flush_from
  flush_from-Flushed zero i s c valid at h =
      let room = (valid.shape p c at).room in
      let none_left = dirty_lines-end c.placement i (omega arith) in
      returns (record {
        valid = valid;
        front = λ q h'. refl;
        own = c;
        at = at;
        same = refl;
        quiet = Quiet-refl c;
        count = omega arith;
        byte = rw none_left (omega arith);
        is = sym (map_from-end cleaned c.placement i (omega arith));
      })
  flush_from-Flushed (suc n) i s c valid at h =
      let room = (valid.shape p c at).room in
      let (e, at_i) = get_elem?_of_lt c.placement i (omega arith) in
      let next : i + 1 ≡ suc i = omega arith in
      bind (flush_entry-Flushed s c valid at i e (omega arith) at_i) (λ s₁ f.
        let sizes : f.own.sets * f.own.ways ≡ c.sets * c.ways = ap (λ x. x.sets * x.ways) f.same in
        rw next (
          weaken (flush_from-Flushed n (suc i) s₁ f.own f.valid f.at (omega arith)) (λ t g.
            rw
              (
                sym (dirty_lines-suc c.placement i e (cleaned e) at_i),
                sym (map_from-suc cleaned c.placement i e at_i),
                sym f.is,
              )
              (Flushed-trans f g))))

module _ (size : ℕ) (s : Sim) (p : ℕ) (c : Cache) (valid : IsValid size s) (inside : p < size)
    (at : get_elem? s.caches p ≡ some c) where
  -- On a cache of a valid hierarchy `Cache_force_write_back` returns; its entries are then the same, but
  -- no valid one is dirty; it has counted an eviction of a line for each valid dirty entry, and no load,
  -- store, hit or miss; the hierarchy is valid and the caches in front have not changed.
  pub force_write_back-Flushed :
      Returns
        (Flushed size p c (dirty_lines c.placement) (map cleaned c.placement) s)
        (force_write_back (ops size) s p)
  unfolding force_write_back
  force_write_back-Flushed = rw at (
      flush_from-Flushed (ops size) p (ops-Handles size size (suc p) (omega arith))
        (c.ways * c.sets) 0 s c valid at (omega arith))
