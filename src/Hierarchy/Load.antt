-- ===== src/Hierarchy/Load.antt =====
-- One line of `Cache__load` of cachesim/backend.c as changes to its cache and to those behind it.
use native.Mathlib.Nat.{mod-lt}
use pycachesim.Base.{
  ℕ, suc, ◌+◌, ◌*◌, ◌%◌, ◌<◌, ◌≡◌, eq→==, refl, ap, ◌∙◌, false, ◌||◌, Option, some, arith, ◌==◌,
  min, get_elem?, Returns-both, get_elem?_of_lt, Returns, returns, bind, weaken, if-Returns,
  option_case, option_case-Returns, inl, inr,
}
use pycachesim.Cache.{Cache, AddrRange, holds}
use pycachesim.Cache.Search.{holds-valid, Absent, Found, here, nowhere, HeldAt}
use pycachesim.Hierarchy.{
  Sim, put, Ops, count_hit, count_miss, load_hit, fetch_victim, fetch, load_miss, load_line,
}
use pycachesim.Hierarchy.Effects.{search_set, LineLoaded, stays, goes_up, comes_in}
use pycachesim.Hierarchy.Handles.{Handles, at_self, get_set_id-ok, Kept-Quiet}
use pycachesim.Hierarchy.Inject.{inject-Steps}
use pycachesim.Hierarchy.Local.{Local, was_hit, missed, to_front, and_then, Local-HasShape}
use pycachesim.Hierarchy.Steps.{
  IsValid, Steps, done, Steps-trans, Steps-weaken, one, Steps-frame, Steps-IsValid, own-config,
}
use pycachesim.Replace.Entries.{move_to_front-IsUpdated}
use pycachesim.Replace.Queue.{IsUpdated-OthersKept, move_to_front-queue}

module _ {size : ℕ} (below : Ops) (p : ℕ) (handles : Handles size below (suc p)) where
  module _ (s : Sim) (c : Cache) (valid : IsValid size s) (at : get_elem? s.caches p ≡ some c)
      (cl_id : ℕ) where
    load_hit-Steps :
        (range : AddrRange) (i : ℕ)
        → HeldAt c cl_id (cl_id % c.sets) i
        → Absent c cl_id (cl_id % c.sets) 0 i
        → Returns
            (λ r. Steps p s r.1 × LineLoaded p c cl_id (min c.cl_size range.length) r.0 r.1)
            (load_hit below s p range (cl_id % c.sets) i)
    unfolding load_hit
    load_hit-Steps range i held first =
        let n = min c.cl_size range.length in
        let c₁ = count_hit n c in
        let l : Local c c₁ = was_hit n in
        let shape = valid.shape p c at in
        let shape₁ = Local-HasShape l shape in
        let pos = shape₁.ways_pos in
        let in_sets : cl_id % c.sets < c.sets = mod-lt cl_id shape.sets_pos in
        rw at (
          rw held.at (
            if-Returns ((c.replacement_policy_id == 0) || (c.replacement_policy_id == 3))
              (λ keeps. returns (
                one (omega arith) at l,
                record {
                  in_set = omega arith;
                  own = c₁;
                  at = at_self s p c₁ at;
                  load = refl;
                  store = refl;
                  counted = inl (refl, refl);
                  present = (
                    i,
                    record {
                      in_set = held.in_set;
                      entry = held.entry;
                      at = held.at;
                      held = held.held;
                    },
                  );
                  moved = stays i held first keeps refl refl refl;
                },
              ))
              (λ reorders.
                bind
                  (Returns-both
                    (move_to_front-IsUpdated c₁ (cl_id % c.sets) i held.entry shape₁ in_sets
                      held.in_set held.at)
                    (move_to_front-queue c₁ (cl_id % c.sets) held.entry shape₁ in_sets i held.in_set
                      held.at))
                  (λ c' ((k, u), order).
                    let q = Kept-Quiet k in
                    let sets : c'.sets ≡ c.sets = ap (λ x. x.sets) k.only in
                    let ways : c'.ways ≡ c.ways = ap (λ x. x.ways) k.only in
                    let base : cl_id % c'.sets * c'.ways ≡ cl_id % c.sets * c.ways =
                      ap (λ x. cl_id % x.sets * x.ways) k.only in
                    returns (
                      one (omega arith) at (
                          and_then l (
                            to_front in_sets held.in_set held.at
                              (holds-valid held.entry cl_id held.held) k u order)),
                      record {
                        in_set = pos;
                        own = c';
                        at = at_self s p c' at;
                        load = q.load;
                        store = q.store;
                        counted = inl (q.hit, q.miss);
                        present = (
                          0,
                          record {
                            in_set = omega arith;
                            entry = held.entry;
                            at = ap (λ b. get_elem? c'.placement (b + 0)) base ∙ u.new;
                            held = held.held;
                          },
                        );
                        moved =
                            goes_up i held first reorders order
                              (IsUpdated-OthersKept c c' (cl_id % c.sets) 0 held.entry ways u) q.hit
                              q.miss;
                      },
                    )))))

    -- The victim cache is asked only behind the cache.
    pub fetch_victim-Steps : Returns (λ r. Steps (suc p) s r.1) (fetch_victim below s p cl_id)
    unfolding fetch_victim
    fetch_victim-Steps = rw at (
        option_case-Returns c.victims_to (λ _. returns done)
          (λ v link.
            let (behind, inside) = (valid.linked p c at).victims_to v link in
            let (d, at_d) = get_elem?_of_lt s.caches v (omega (arith, valid.count)) in
            let shape_d = valid.shape v d at_d in
            rw at_d (
              rw (get_set_id-ok d cl_id shape_d) (
                bind (search_set d cl_id shape_d) (λ location _.
                  option_case-Returns location (λ _. returns done)
                    (λ _ _.
                      bind (handles.load s v _ valid behind inside)
                        (λ (_, t) r. returns (Steps-weaken behind r))))))))

  pub fetch-Steps :
      (s : Sim) (c : Cache) (cl_id : ℕ)
      → IsValid size s
      → get_elem? s.caches p ≡ some c
      → Returns (λ t. Steps (suc p) s t) (fetch below s p cl_id)
  unfolding fetch
  fetch-Steps s c cl_id valid at =
      bind (fetch_victim-Steps s c valid at cl_id) (λ (victim_hit, s₁) r.
        let at₁ : get_elem? s₁.caches p ≡ some c = Steps-frame p r (omega arith) ∙ at in
        let valid₁ = Steps-IsValid r valid in
        rw at₁ (
          if-Returns victim_hit (λ _. returns r)
            (λ _.
              option_case-Returns c.load_from (λ _. returns r)
                (λ q link.
                  let (behind, inside) = (valid₁.linked p c at₁).load_from q link in
                  bind (handles.load s₁ q _ valid₁ behind inside)
                    (λ (_, t) r'. returns (Steps-trans r (Steps-weaken behind r')))))))

  load_miss-Steps :
      (s : Sim) (c : Cache) (range : AddrRange) (cl_id : ℕ)
      → IsValid size s
      → get_elem? s.caches p ≡ some c
      → Absent c cl_id (cl_id % c.sets) 0 c.ways
      → Returns
          (λ r. Steps p s r.1 × LineLoaded p c cl_id (min c.cl_size range.length) r.0 r.1)
          (load_miss below s p range cl_id)
  unfolding load_miss holds
  load_miss-Steps s c range cl_id valid at absent =
      let n = min c.cl_size range.length in
      let c₁ = count_miss n c in
      let l : Local c c₁ = missed n in
      let r : Steps p s (put s p c₁) = one (omega arith) at l in
      let valid₁ = Steps-IsValid r valid in
      let at₁ = at_self s p c₁ at in
      rw at (
        bind (fetch-Steps (put s p c₁) c₁ cl_id valid₁ at₁) (λ s₂ r₂.
          let at₂ : get_elem? s₂.caches p ≡ some c₁ = Steps-frame p r₂ (omega arith) ∙ at₁ in
          weaken (inject-Steps below p handles s₂ c₁ _ (Steps-IsValid r₂ valid₁) at₂ refl)
            (λ (i, t) (r₃, o).
              let same = own-config p c₁ o.own r₃ at₂ o.at in
              let ways : o.own.ways ≡ c.ways = ap (λ x. x.ways) same in
              let base : cl_id % o.own.sets * o.own.ways ≡ cl_id % c.sets * c.ways =
                ap (λ x. cl_id % x.sets * x.ways) same in
              let in_set = o.in_set in
              (
                Steps-trans r (Steps-trans (Steps-weaken (omega arith) r₂) r₃),
                record {
                  in_set = in_set;
                  own = o.own;
                  at = o.at;
                  load = o.quiet.load;
                  store = o.quiet.store;
                  counted = inr (o.quiet.hit, o.quiet.miss);
                  present = (
                    i,
                    record {
                      in_set = omega arith;
                      entry = record { cl_id = cl_id; dirty = false; invalid = false };
                      at = ap (λ b. get_elem? o.own.placement (b + i)) base ∙ o.updated.new;
                      held = eq→== cl_id cl_id refl;
                    },
                  );
                  moved =
                      comes_in absent o.front
                        (IsUpdated-OthersKept c o.own (cl_id % c.sets) i _ ways o.updated)
                        o.quiet.hit o.quiet.miss;
                },
              ))))

  -- One line: a hit, or a miss.
  pub load_line-Steps :
      (s : Sim) (c : Cache) (range : AddrRange) (cl_id : ℕ)
      → IsValid size s
      → get_elem? s.caches p ≡ some c
      → Returns
          (λ r. Steps p s r.1 × LineLoaded p c cl_id (min c.cl_size range.length) r.0 r.1)
          (load_line below s p range cl_id)
  unfolding load_line
  load_line-Steps s c range cl_id valid at =
      let shape = valid.shape p c at in
      rw at (
        rw (get_set_id-ok c cl_id shape)
          (bind (search_set c cl_id shape) (λ location found. answer location found)))
    where
      answer :
          (location : Option ℕ)
          → Found c cl_id (cl_id % c.sets) 0 location
          → Returns
              (λ r. Steps p s r.1 × LineLoaded p c cl_id (min c.cl_size range.length) r.0 r.1)
              (option_case location
                (load_miss below s p range cl_id)
                (load_hit below s p range (cl_id % c.sets)))
      answer _ (here h held absent) = load_hit-Steps s c valid at cl_id range _ held absent
      answer _ (nowhere absent) = load_miss-Steps s c range cl_id valid at absent
