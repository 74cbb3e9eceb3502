-- ===== src/Hierarchy/Inject.antt =====
-- `Cache__inject` of cachesim/backend.c as changes to its cache and to those behind it.
use pycachesim.Base.{
  ℕ, suc, ◌+◌, ◌-◌, ◌*◌, ◌%◌, ◌<◌, ◌≡◌, refl, ap, ◌∙◌, true, false, some, ◌∷◌, arith, get_elem?,
  set, erase_at, Returns, Returns-both, returns, bind, weaken, Bool-cases, inl, inr, if◌then◌else◌,
}
use native.Mathlib.Nat.{mod-lt}
use pycachesim.Cache.{Cache, Entry}
use pycachesim.Hierarchy.{Sim, Ops, inject}
use pycachesim.Hierarchy.Handles.{Handles, at_self, get_set_id-ok, Quiet, Quiet-trans, Kept-Quiet}
use pycachesim.Hierarchy.Dispose.{dispose-Steps}
use pycachesim.Hierarchy.Local.{Local, replaced, Local-config}
use pycachesim.Hierarchy.Steps.{IsValid, Steps, drawn, Steps-trans, one, Steps-IsValid, own-config}
use pycachesim.Replace.{replace, draws_random}
use pycachesim.Replace.Choice.{is_queue}
use pycachesim.Replace.Queue.{queue, queue-ext, replace-queue}
use pycachesim.Replace.Entries.{IsReplacement, IsUpdated, replace-Replaced}
use pycachesim.Replace.Shape.{HasShape}

-- What `Cache__inject` of `entry` into the cache `p`, which was `c`, leaves of it: the entry is at the
-- way `i` of its set, which is updated, and the counters of loads, stores, hits and misses are the same.
pub record Injected (p : ℕ) (c : Cache) (entry : Entry) (i : ℕ) (t : Sim) : Type 0 where
  pub in_set : i < c.ways
  pub own : Cache
  pub at : get_elem? t.caches p ≡ some own
  pub quiet : Quiet c own
  pub updated : IsUpdated c.placement (entry.cl_id % c.sets * c.ways) c.ways i entry own.placement
  pub front :
      is_queue c ≡ true
      → queue own (entry.cl_id % c.sets)
        ≡ entry ∷ erase_at (c.ways - 1) (queue c (entry.cl_id % c.sets))

-- What a replacement leaves, and for FIFO and LRU the queue of its set.
replace-queued :
    (draw : ℕ) (c : Cache) (set_id : ℕ) (entry : Entry)
    → HasShape c
    → set_id < c.sets
    → Returns
        (λ r.
          IsReplacement c set_id entry r
          × (is_queue c ≡ true → queue r.2 set_id ≡ entry ∷ erase_at (c.ways - 1) (queue c set_id)))
        (replace draw c set_id entry)
replace-queued draw c set_id entry shape in_sets =
    Returns-both (replace-Replaced draw c set_id entry shape in_sets)
      (elim (Bool-cases (is_queue c)) [
        | inl on ↦ weaken (replace-queue c set_id entry shape in_sets draw on) (λ _ (_, _, e) _. e)
        | inr off ↦ weaken (replace-Replaced draw c set_id entry shape in_sets) (λ _ _ on. cc)
      ])

module _ {size : ℕ} (below : Ops) (p : ℕ) (handles : Handles size below (suc p)) where
  -- `Cache__inject` of a valid entry returns the index of a way.
  pub inject-Steps :
      (s : Sim) (c : Cache) (entry : Entry)
      → IsValid size s
      → get_elem? s.caches p ≡ some c
      → entry.invalid ≡ false
      → Returns (λ r. Steps p s r.1 × Injected p c entry r.0 r.1) (inject below s p entry)
  unfolding inject
  inject-Steps s c entry valid at is_valid =
      let shape = valid.shape p c at in
      let pos = shape.sets_pos in
      let in_sets : entry.cl_id % c.sets < c.sets = mod-lt entry.cl_id pos in
      rw at (
        rw (get_set_id-ok c entry.cl_id shape) (
          bind (replace-queued (s.rand s.draws) c (entry.cl_id % c.sets) entry shape in_sets)
            (λ (i, old, c') (r, queued).
              let l : Local c c' = replaced refl is_valid r queued in
              let n = if draws_random c then s.draws + 1 else s.draws in
              let r₁ : Steps p s (record s { caches = set s.caches p c'; draws = n }) =
                drawn n (one (omega arith) at l) in
              let same = Local-config l in
              let sets = ap (λ x. x.sets) same in
              let ways = ap (λ x. x.ways) same in
              let in_set = r.in_set in
              bind
                (dispose-Steps below p handles _ c' (Steps-IsValid r₁ valid) (at_self s p c' at) old
                  (entry.cl_id % c.sets) i (omega arith) (omega arith))
                (λ t (r', o).
                  let same_ways : o.own.ways ≡ c'.ways =
                    ap (λ x. x.ways) (own-config p c' o.own r' (at_self s p c' at) o.at) in
                  returns (
                    Steps-trans r₁ r',
                    record {
                      in_set = in_set;
                      own = o.own;
                      at = o.at;
                      quiet = Quiet-trans (Kept-Quiet r.kept) o.quiet;
                      updated = rw o.entries r.updated;
                      front = λ on.
                          queue-ext c' o.own (entry.cl_id % c.sets) o.entries same_ways ∙ queued on;
                    },
                  )))))
