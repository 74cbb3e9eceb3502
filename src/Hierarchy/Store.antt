-- ===== src/Hierarchy/Store.antt =====
-- `Cache__store` of cachesim/backend.c as changes to its cache and to those behind it.
use native.Mathlib.Nat.{mod-lt}
use pycachesim.Base.{
  ℕ, zero, suc, ◌+◌, ◌*◌, ◌%◌, ◌≤◌, ◌<◌, ◌≡◌, refl, ap, ◌∙◌, Bool, true, false, not, ◌&&◌, Option,
  none, some, arith, ◌==◌, eq→==, length, get_elem?, get_elem?_of_lt, ok, ◌>>=◌, Returns, returns,
  bind, weaken, read, write, if-Returns, option_case-Returns, inl, inr,
}
use pycachesim.Cache.{Cache, Entry, AddrRange, line_rounds, get_cacheline_id, get_range_from_cl_id}
use pycachesim.Cache.Range.{line_rounds-get_range_from_cl_id}
use pycachesim.Cache.Search.{Found, here, nowhere}
use pycachesim.Hierarchy.{
  Sim, put, cache_at, Ops, count_store, allocate, mark_bits, mark_at, mark_stored, mark_dirty,
  store_through, settle, store_line, store_lines, store,
}
use pycachesim.Hierarchy.Handles.{Handles, at_self, get_set_id-ok}
use pycachesim.Hierarchy.Dispose.{store_behind}
use pycachesim.Hierarchy.Inject.{inject-Steps}
use pycachesim.Hierarchy.Effects.{search_set}
use pycachesim.Hierarchy.Loads.{LastWay, load-Steps}
use pycachesim.Hierarchy.Local.{Local, config, stored, evicted, marked, dirtied, Kept-config}
use pycachesim.Hierarchy.Steps.{IsValid, Steps, done, Steps-trans, one, Steps-IsValid, own-config}
use pycachesim.Replace.Shape.{HasShape, Kept, Kept-refl, Kept-trans, write_bit-Kept}
use pycachesim.Replace.Shift.{bit_count, bits_in_room, way_in_room}

-- Where a line is before its bits are marked: at a way, or nowhere in a cache that does not write
-- back.
abbrev pub Settled : Cache → Option ℕ → Type 0
Settled c none = (c.write_back == 1) ≡ false
Settled c (some i) = i < c.ways

-- The cache `p`, which was `c`, has counted no store.
abbrev pub NoStore : ℕ → Cache → Sim → Type 0
NoStore p c t = (own : Cache) × (get_elem? t.caches p ≡ some own) × (own.store ≡ c.store)

module _ {size : ℕ} (below : Ops) (p : ℕ) (handles : Handles size below (suc p)) where
  module _ (s : Sim) (c : Cache) (valid : IsValid size s) (at : get_elem? s.caches p ≡ some c)
      (cl_id : ℕ) where
    allocated :
        {r : Option ℕ}
        → LastWay (line_rounds c (get_range_from_cl_id c cl_id)) c.ways none r
        → Settled c r
    allocated {r} last =
        let one_round = line_rounds-get_range_from_cl_id c (valid.shape p c at).size cl_id in
        go r last one_round
      where
        go : (r : Option ℕ) {n : ℕ} → LastWay n c.ways none r → n ≡ 1 → Settled c r
        go r (inl (z, e)) e' = absurd (omega arith)
        go none (inr (i, e, lt)) e' = cc
        go (some j) (inr (i, e, lt)) e' = ground arith

    allocate-Steps :
        (nt : Bool) {set_id : ℕ} (location : Option ℕ)
        → Found c cl_id set_id 0 location
        → Returns
            (λ r. Steps p s r.1 × NoStore p c r.1 × Settled c r.0)
            (allocate below s p nt cl_id location)
    unfolding allocate
    allocate-Steps nt _ (here h held absent) = rw at (
        if-Returns ((c.write_allocate == 1) && not nt)
          (λ _. returns (done, (c, at, refl), held.in_set))
          (λ _. returns (done, (c, at, refl), held.in_set)))
    allocate-Steps nt _ (nowhere absent) = rw at (
        if-Returns ((c.write_allocate == 1) && not nt)
          (λ _.
            weaken (load-Steps below p handles s c _ valid at)
              (λ r (steps, l). (steps, (l.own, l.at, l.store), allocated l.last)))
          (λ _.
            if-Returns (c.write_back == 1)
              (λ _.
                bind (inject-Steps below p handles s c _ valid at refl)
                  (λ (i, t) (steps, o). returns (steps, (o.own, o.at, o.quiet.store), o.in_set)))
              (λ off. returns (done, (c, at, refl), off))))

mark_bits-Kept :
    (n b : ℕ) (c : Cache)
    → HasShape c
    → (c.write_combining == 1) ≡ true
    → (0 < n → b + n ≤ bit_count c)
    → Returns (λ c'. Kept c c' × (c'.placement ≡ c.placement)) (mark_bits n b c)
unfolding mark_bits
mark_bits-Kept zero b c shape on h = returns (Kept-refl shape, refl)
mark_bits-Kept (suc n) b c shape on h =
    let room = h (omega arith) in
    bind (write_bit-Kept c shape on b (omega arith) true) (λ c' k.
      let same = ap bit_count k.0.only in
      let on' = ap (λ x. x.write_combining == 1) k.0.only ∙ on in
      weaken (mark_bits-Kept n (b + 1) c' k.0.shape on' (λ _. omega arith))
        (λ c'' k'. (Kept-trans k.0 k'.0, k'.1 ∙ k.1)))

-- Marking the stored bytes stays inside the bit field.
pub mark_stored-Kept :
    (c : Cache) (range : AddrRange) (cl_id set_id : ℕ) (location : Option ℕ)
    → HasShape c
    → set_id < c.sets
    → Settled c location
    → Returns
        (λ c'. Kept c c' × (c'.placement ≡ c.placement))
        (mark_stored c range cl_id set_id location)
unfolding mark_stored mark_at
mark_stored-Kept c range cl_id set_id none shape in_sets off =
    if-Returns (c.write_combining == 1) (λ on. let back = eq→== _ _ (shape.combining on).back in cc)
      (λ _. returns (Kept-refl shape, refl))
mark_stored-Kept c range cl_id set_id (some i) shape in_sets lt =
    if-Returns (c.write_combining == 1)
      (λ on.
        let whole = (shape.combining on).whole in
        let room = bits_in_room c.subblock_bits in_sets lt in
        mark_bits-Kept _ _ c shape on (λ pos. ground arith))
      (λ _. returns (Kept-refl shape, refl))

mark_dirty-Local :
    (c : Cache) (k : ℕ)
    → k < length c.placement
    → Returns (λ c'. Local c c' × (c'.store ≡ c.store)) (mark_dirty c k)
unfolding mark_dirty
mark_dirty-Local c k lt = let (e, at) = get_elem?_of_lt c.placement k lt in written e at
  where
    written :
        (e : Entry)
        → get_elem? c.placement k ≡ some e
        → Returns
            (λ c'. Local c c' × (c'.store ≡ c.store))
            (read c.placement k >>= λ e.
              write c.placement k (record e { dirty = true }) >>= λ placement.
              ok (record c { placement = placement }))
    written e at = rw at (returns (dirtied k e at, refl))

Settled-config : (c c' : Cache) (r : Option ℕ) → config c' ≡ config c → Settled c r → Settled c' r
Settled-config c c' none e h = ap (λ x. x.write_back == 1) e ∙ h
Settled-config c c' (some i) e h = let ways = ap (λ x. x.ways) e in omega arith

module _ {size : ℕ} (below : Ops) (p : ℕ) (handles : Handles size below (suc p)) where
  module _ (s : Sim) (c : Cache) (valid : IsValid size s) (at : get_elem? s.caches p ≡ some c)
      (range : AddrRange) (nt : Bool) (cl_id : ℕ) where
    store_through-Steps :
        Returns (λ t. Steps p s t × NoStore p c t) (store_through below s p range nt cl_id)
    unfolding store_through
    store_through-Steps = rw at (
        option_case-Returns c.store_to (λ _. returns (done, (c, at, refl)))
          (λ q link.
            let (behind, inside) = (valid.linked p c at).store_to q link in
            weaken (store_behind below p handles s c valid at q _ nt _ behind inside (evicted _))
              (λ t r. (r.0, (_, r.1, refl)))))

    settle-Steps :
        (set_id : ℕ) (location : Option ℕ)
        → set_id < c.sets
        → Settled c location
        → Returns
            (λ t. Steps p s t × NoStore p c t)
            (settle below s p range nt cl_id set_id location)
    unfolding settle
    settle-Steps set_id none in_sets off = store_through-Steps
    settle-Steps set_id (some i) in_sets lt =
        let room = (valid.shape p c at).room in
        let k = set_id * c.ways + i in
        let inside : k < c.sets * c.ways = way_in_room in_sets lt in
        rw at (
          if-Returns (c.write_back == 1)
            (λ _.
              bind (mark_dirty-Local c k (omega arith))
                (λ c' (l, same). returns (one (omega arith) at l, (c', at_self s p c' at, same))))
            (λ _. store_through-Steps))

  module _ (s : Sim) (c : Cache) (valid : IsValid size s) (at : get_elem? s.caches p ≡ some c)
      (range : AddrRange) (nt : Bool) (cl_id : ℕ) where
    -- One line is stored.
    store_line-Steps :
        Returns (λ t. Steps p s t × NoStore p c t) (store_line below s p range nt cl_id)
    unfolding store_line
    store_line-Steps =
        let shape = valid.shape p c at in
        let pos = shape.sets_pos in
        rw at (
          rw (get_set_id-ok c cl_id shape) (
            bind (search_set c cl_id shape) (λ location found.
              bind (allocate-Steps below p handles s c valid at cl_id nt location found)
                (λ (location', s₁) (r, (c₁, at₁, no_store), settled).
                  finish location' s₁ c₁ r at₁ no_store (own-config p c c₁ r at at₁) settled))))
      where
        finish :
            (location' : Option ℕ) (s₁ : Sim) (c₁ : Cache)
            → Steps p s s₁
            → get_elem? s₁.caches p ≡ some c₁
            → c₁.store ≡ c.store
            → config c₁ ≡ config c
            → Settled c location'
            → Returns
                (λ t. Steps p s t × NoStore p c t)
                (cache_at s₁ p >>= λ c₁.
                  mark_stored c₁ range cl_id (cl_id % c.sets) location' >>= λ c₂.
                  settle below (put s₁ p c₂) p range nt cl_id (cl_id % c.sets) location')
        finish location' s₁ c₁ r at₁ no_store same settled =
            let valid₁ = Steps-IsValid r valid in
            let shape₁ = valid₁.shape p c₁ at₁ in
            let sets = ap (λ x. x.sets) same in
            let in_sets : cl_id % c.sets < c₁.sets =
              omega (arith, mod-lt cl_id (valid.shape p c at).sets_pos) in
            let settled₁ = Settled-config c c₁ location' same settled in
            rw at₁ (
              bind
                (mark_stored-Kept c₁ range cl_id (cl_id % c.sets) location' shape₁ in_sets settled₁)
                (λ c₂ (k, same_entries).
                  let r₂ = Steps-trans r (one (omega arith) at₁ (marked k same_entries)) in
                  let sets₂ = ap (λ x. x.sets) k.only in
                  weaken
                    (settle-Steps (put s₁ p c₂) c₂ (Steps-IsValid r₂ valid) (at_self s₁ p c₂ at₁)
                      range nt cl_id (cl_id % c.sets) location' (omega arith)
                      (Settled-config c₁ c₂ location' (Kept-config k) settled₁))
                    (λ t (r', (own, at_own, none_here)). (
                      Steps-trans r₂ r',
                      (own, at_own, none_here ∙ ap (λ x. x.store) k.only ∙ no_store),
                    ))))

  module _ (range : AddrRange) (nt : Bool) where
    store_lines-Steps :
        (n : ℕ) (s : Sim) (c : Cache) (cl_id : ℕ)
        → IsValid size s
        → get_elem? s.caches p ≡ some c
        → Returns (λ t. Steps p s t × NoStore p c t) (store_lines below n s p range nt cl_id)
    unfolding store_lines
    store_lines-Steps zero s c cl_id valid at = returns (done, (c, at, refl))
    store_lines-Steps (suc n) s c cl_id valid at =
        bind (store_line-Steps s c valid at range nt cl_id) (λ s₁ (r, (c₁, at₁, same)).
          weaken (store_lines-Steps n s₁ c₁ (cl_id + 1) (Steps-IsValid r valid) at₁)
            (λ t (r', (own, at_own, same')). (Steps-trans r r', (own, at_own, same' ∙ same))))

    -- What `Cache__store` leaves of its cache: it has counted one store.
    pub store-Steps :
        (s : Sim) (c : Cache)
        → IsValid size s
        → get_elem? s.caches p ≡ some c
        → Returns
            (λ t. Steps p s t × NoStore p (count_store range.length c) t)
            (store below s p range nt)
    unfolding store
    store-Steps s c valid at =
        let c₁ = count_store range.length c in
        let l : Local c c₁ = stored range.length in
        let r : Steps p s (put s p c₁) = one (omega arith) at l in
        rw at (
          weaken
            (store_lines-Steps (line_rounds c range) (put s p c₁) c₁ (get_cacheline_id c range.addr)
              (Steps-IsValid r valid) (at_self s p c₁ at))
            (λ t (r', no_store). (Steps-trans r r', no_store)))
