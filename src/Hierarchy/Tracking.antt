-- ===== src/Hierarchy/Tracking.antt =====
-- `Cache__load` of cachesim/backend.c on a FIFO or LRU cache, against the textbook cache.
use pycachesim.Base.{
  ℕ, zero, suc, ◌+◌, ◌-◌, ◌/◌, ◌<◌, ◌≡◌, refl, ap, ◌∙◌, false, true, some, none, Option, arith,
  ◌==◌, get_elem?, Returns, returns, bind, weaken,
}
use pycachesim.Cache.{Cache, AddrRange, line_rounds, get_cacheline_id}
use pycachesim.Hierarchy.{Sim, Ops, ops, put, count_load, load_lines, load}
use pycachesim.Hierarchy.Handles.{Handles, at_self}
use pycachesim.Hierarchy.Load.{load_line-Steps}
use pycachesim.Hierarchy.Local.{Local, config, loaded}
use pycachesim.Hierarchy.Reference.{
  Model, use_lines, use_range, is_lru, view, Moved-use_line, Moved-IsPacked,
}
use pycachesim.Hierarchy.Safety.{ops-Handles}
use pycachesim.Hierarchy.Steps.{IsValid, Steps, Steps-IsValid, one, own-config}
use pycachesim.Replace.Choice.{is_queue}
use pycachesim.Replace.Packed.{IsPacked}
use pycachesim.Replace.Queue.{queue}
use pycachesim.Replace.Shape.{HasShape}

-- A cache under FIFO or LRU whose sets have their valid entries in front.
pub record Tracked (c : Cache) : Type 0 where
  pub queued : is_queue c ≡ true
  pub packed : (k : ℕ) → IsPacked (queue c k)

-- The cache `p`, which was `c`, stands for `m` in `t`.
pub record StandsFor (size p : ℕ) (c : Cache) (m : Model) (t : Sim) : Type 0 where
  pub valid : IsValid size t
  pub own : Cache
  pub at : get_elem? t.caches p ≡ some own
  pub same : config own ≡ config c
  pub tracked : Tracked own
  pub stands : view own ≡ m

module _ {size : ℕ} (below : Ops) (p : ℕ) (handles : Handles size below (suc p)) where
  load_lines-StandsFor :
      (n : ℕ) (s : Sim) (c : Cache) (range : AddrRange) (cl_id : ℕ) (start : Option ℕ)
      → IsValid size s
      → get_elem? s.caches p ≡ some c
      → Tracked c
      → Returns
          (λ r. StandsFor size p c (use_lines (is_lru c) c.sets c.ways n cl_id (view c)) r.1)
          (load_lines below n s p range cl_id start)
  unfolding load_lines use_lines
  load_lines-StandsFor zero s c range cl_id start valid at tracked =
      returns
        (record { valid = valid; own = c; at = at; same = refl; tracked = tracked; stands = refl })
  load_lines-StandsFor (suc n) s c range cl_id start valid at tracked =
      bind (load_line-Steps below p handles s c range cl_id valid at) (λ (i, s₁) (r, o).
        let valid₁ = Steps-IsValid r valid in
        let same = own-config p c o.own r at o.at in
        let ways : o.own.ways ≡ c.ways = ap (λ x. x.ways) same in
        let shape = valid.shape p c at in
        let on = tracked.queued in
        let tracked₁ : Tracked o.own = record {
          queued = ap (λ x. is_queue x) same ∙ on;
          packed = Moved-IsPacked c o.own cl_id _ shape on tracked.packed ways o.moved;
        } in
        let used = Moved-use_line c o.own cl_id _ shape on tracked.packed ways o.moved in
        weaken (load_lines-StandsFor n s₁ o.own range (cl_id + 1) (some i) valid₁ o.at tracked₁)
          (λ _ k. record {
            valid = k.valid;
            own = k.own;
            at = k.at;
            same = k.same ∙ same;
            tracked = k.tracked;
            stands =
                k.stands
                ∙ ap (λ x. use_lines (is_lru x) x.sets x.ways n (cl_id + 1) (view o.own)) same
                ∙ ap (use_lines (is_lru c) c.sets c.ways n (cl_id + 1)) used;
          }))

-- The lines of a range of at least one byte, by divisions.
line_rounds-divisions :
    (c : Cache) (addr len : ℕ)
    → HasShape c
    → 0 < len
    → line_rounds c (record { addr = addr; length = len })
      ≡ (addr + len - 1) / c.cl_size + 1 - addr / c.cl_size
unfolding line_rounds get_cacheline_id
line_rounds-divisions c addr len shape pos =
    let some_byte : (addr + len == 0) ≡ false = ground arith in rw (some_byte, shape.size) refl

get_cacheline_id-division :
    (c : Cache) (addr : ℕ) → HasShape c → get_cacheline_id c addr ≡ addr / c.cl_size
unfolding get_cacheline_id
get_cacheline_id-division c addr shape = rw shape.size refl

module _ (size : ℕ) (s : Sim) (p : ℕ) (c : Cache) (addr len : ℕ) (valid : IsValid size s)
    (inside : p < size) (at : get_elem? s.caches p ≡ some c) (tracked : Tracked c)
    (pos : 0 < len) where
  pub load-StandsFor :
      Returns
        (λ r.
          StandsFor size p c (use_range (is_lru c) c.sets c.ways c.cl_size len addr (view c)) r.1)
        ((ops size).load s p (record { addr = addr; length = len }))
  unfolding ops load use_range
  load-StandsFor = with_fuel size refl
    where
      with_fuel :
          (n : ℕ)
          → n ≡ size
          → Returns
              (λ r.
                StandsFor size p c
                  (use_range (is_lru c) c.sets c.ways c.cl_size len addr (view c))
                  r.1)
              ((ops n).load s p (record { addr = addr; length = len }))
      with_fuel zero e = absurd (omega arith)
      with_fuel (suc n) e =
          let c₁ = count_load len c in
          let l : Local c c₁ = loaded len in
          let shape = valid.shape p c at in
          let tracked₁ : Tracked c₁ = record { queued = tracked.queued; packed = tracked.packed } in
          let first = get_cacheline_id-division c addr shape in
          let r : Steps p s (put s p c₁) = one (omega arith) at l in
          rw at (
            rw (line_rounds-divisions c addr len shape pos, first)
              (weaken
                (load_lines-StandsFor (ops n) p (ops-Handles size n (suc p) (omega arith)) _
                  (put s p c₁) c₁ _ _ none (Steps-IsValid r valid) (at_self s p c₁ at) tracked₁)
                (λ _ k. record {
                  valid = k.valid;
                  own = k.own;
                  at = k.at;
                  same = k.same;
                  tracked = k.tracked;
                  stands = k.stands;
                })))
