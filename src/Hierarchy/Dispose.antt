-- ===== src/Hierarchy/Dispose.antt =====
-- The end of `Cache__inject` of cachesim/backend.c, what happens to the entry that was replaced, as changes
-- to its cache and to those behind it.
use pycachesim.Base.{
  ℕ, suc, ◌<◌, ◌≡◌, refl, ◌∙◌, Bool, false, ◌&&◌, some, arith, ◌==◌, get_elem?, get_elem?-set_ne,
  get_elem?_of_lt, ok, ◌>>=◌, Returns, returns, bind, weaken, if-Returns, option_case-Returns,
}
use pycachesim.Cache.{Cache, Entry, AddrRange}
use pycachesim.Hierarchy.{
  Sim, put, cache_at, Ops, count_evict, count_store, write_back_line, deliver_victim, dispose,
}
use pycachesim.Hierarchy.Handles.{
  Handles, evict_bits-Kept, at_self, Quiet-refl, Quiet-evict, Quiet-trans, Kept-Quiet, OwnAfter,
}
use pycachesim.Hierarchy.Local.{Local, stored, evicted, marked, and_then, Local-HasShape}
use pycachesim.Hierarchy.Steps.{
  IsValid, Steps, done, Steps-trans, Steps-weaken, one, Steps-length, Steps-frame, Steps-IsValid,
}

module _ {size : ℕ} (below : Ops) (p : ℕ) (handles : Handles size below (suc p)) where
  module _ (s : Sim) (c : Cache) (valid : IsValid size s) (at : get_elem? s.caches p ≡ some c) where
    unchanged : OwnAfter p c s
    unchanged = record { own = c; at = at; quiet = Quiet-refl c; entries = refl }

    -- After a change to `p` the calls of the caches behind it go on from there.
    pub store_behind :
        (q : ℕ) (range : AddrRange) (nt : Bool) (c' : Cache)
        → p < q
        → q < size
        → Local c c'
        → Returns
            (λ t. Steps p s t × (get_elem? t.caches p ≡ some c'))
            (below.store (put s p c') q range nt)
    store_behind q range nt c' behind inside l =
        let r : Steps p s (put s p c') = one (omega arith) at l in
        weaken (handles.store (put s p c') q range nt (Steps-IsValid r valid) behind inside)
          (λ t r'. (
            Steps-trans r (Steps-weaken (omega arith) r'),
            Steps-frame p r' behind ∙ at_self s p c' at,
          ))

    write_back_line-Steps :
        (old : Entry) (set_id i : ℕ)
        → set_id < c.sets
        → i < c.ways
        → Returns (λ t. Steps p s t × OwnAfter p c t) (write_back_line below s p set_id i old)
    unfolding write_back_line
    write_back_line-Steps old set_id i in_sets lt =
        let c₁ = count_evict c.cl_size c in
        let l : Local c c₁ = evicted c.cl_size in
        rw at (
          option_case-Returns c.store_to
            (λ _. returns (
              one (omega arith) at l,
              record {
                own = c₁;
                at = at_self s p c₁ at;
                quiet = Quiet-evict c.cl_size c;
                entries = refl;
              },
            ))
            (λ q link.
              let (behind, inside) = (valid.linked p c at).store_to q link in
              bind (evict_bits-Kept c₁ set_id i (Local-HasShape l (valid.shape p c at)) in_sets lt)
                (λ (nt, c₂) (k, same).
                  weaken (store_behind q _ nt c₂ behind inside (and_then l (marked k same)))
                    (λ t (r, at_t). (
                      r,
                      record {
                        own = c₂;
                        at = at_t;
                        quiet = Quiet-trans (Quiet-evict c.cl_size c) (Kept-Quiet k);
                        entries = same;
                      },
                    )))))

    deliver_victim-Steps :
        (old : Entry)
        → old.invalid ≡ false
        → Returns (λ t. Steps p s t × OwnAfter p c t) (deliver_victim below s p old)
    unfolding deliver_victim
    deliver_victim-Steps old is_valid = rw at (
        option_case-Returns c.victims_to (λ _. returns (done, unchanged))
          (λ v link.
            let (behind, inside) = (valid.linked p c at).victims_to v link in
            bind (handles.inject s v old valid behind inside is_valid)
              (λ (_, s₁) r. delivered v s₁ behind inside r)))
      where
        delivered :
            (v : ℕ) (s₁ : Sim)
            → p < v
            → v < size
            → Steps v s s₁
            → Returns
                (λ t. Steps p s t × OwnAfter p c t)
                (cache_at s₁ p >>= λ c₁. cache_at (put s₁ p (count_evict c₁.cl_size c₁)) v >>= λ d.
                  ok (put (put s₁ p (count_evict c₁.cl_size c₁)) v (count_store c₁.cl_size d)))
        delivered v s₁ behind inside r =
            let at₁ : get_elem? s₁.caches p ≡ some c = Steps-frame p r behind ∙ at in
            let c₁ = count_evict c.cl_size c in
            let s₂ = put s₁ p c₁ in
            let l : Local c c₁ = evicted c.cl_size in
            let r₂ : Steps p s s₂ =
              Steps-trans (Steps-weaken (omega arith) r) (one (omega arith) at₁ l) in
            let (d, at_d) =
              get_elem?_of_lt s₂.caches v (omega (arith, Steps-length r₂, valid.count)) in
            let l' : Local d (count_store c.cl_size d) = stored c.cl_size in
            let own : OwnAfter p c (put s₂ v (count_store c.cl_size d)) = record {
              own = c₁;
              at = get_elem?-set_ne s₂.caches v p _ (omega arith) ∙ at_self s₁ p c₁ at₁;
              quiet = Quiet-evict c.cl_size c;
              entries = refl;
            } in
            rw at₁ (rw at_d (returns (Steps-trans r₂ (one (omega arith) at_d l'), own)))

    pub dispose-Steps :
        (old : Entry) (set_id i : ℕ)
        → set_id < c.sets
        → i < c.ways
        → Returns (λ t. Steps p s t × OwnAfter p c t) (dispose below s p set_id i old)
    unfolding dispose
    dispose-Steps old set_id i in_sets lt =
        if-Returns old.invalid (λ _. returns (done, unchanged))
          (λ is_valid. rw at (
            if-Returns ((c.write_back == 1) && old.dirty)
              (λ _. write_back_line-Steps old set_id i in_sets lt)
              (λ _. deliver_victim-Steps old is_valid)))
