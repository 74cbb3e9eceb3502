-- ===== src/Hierarchy/Loads.antt =====
-- `Cache__load` of cachesim/backend.c over all the lines of a range.
use pycachesim.Base.{
  ℕ, zero, suc, ◌+◌, ◌*◌, ◌≤◌, ◌<◌, ◌≡◌, ◌⊎◌, inl, inr, refl, ap, ◌∙◌, Option, none, some, arith,
  min, get_elem?, Returns, returns, bind, weaken,
}
use pycachesim.Cache.{Cache, AddrRange, bump, line_rounds, get_cacheline_id}
use pycachesim.Hierarchy.{Sim, Ops, put, count_load, load_lines, load}
use pycachesim.Hierarchy.Handles.{Handles, at_self}
use pycachesim.Hierarchy.Effects.{Present, LineLoaded}
use pycachesim.Hierarchy.Load.{load_line-Steps}
use pycachesim.Hierarchy.Local.{Local, loaded}
use pycachesim.Hierarchy.Steps.{IsValid, Steps, done, Steps-trans, one, Steps-IsValid, own-config}

-- The result of a loop of `n` rounds over lines: what it started with, or a way.
abbrev pub LastWay : ℕ → ℕ → Option ℕ → Option ℕ → Type 0
LastWay n ways start r = ((n ≡ 0) × (r ≡ start)) ⊎ ((i : ℕ) × (r ≡ some i) × (i < ways))

-- What the loads of the `n` lines from `cl_id` on leave of the cache `p`, which was `c`: each line was
-- counted once, as a hit or as a miss, of `m` bytes; the last one is present.
pub record LinesLoaded (p : ℕ) (c : Cache) (cl_id n m : ℕ) (start r : Option ℕ) (t : Sim)
    : Type 0 where
  pub own : Cache
  pub at : get_elem? t.caches p ≡ some own
  pub load : own.load ≡ c.load
  pub store : own.store ≡ c.store
  pub lines : own.hit.count + own.miss.count ≡ c.hit.count + c.miss.count + n
  pub bytes : own.hit.byte + own.miss.byte ≡ c.hit.byte + c.miss.byte + n * m
  pub hit_le : c.hit.count ≤ own.hit.count
  pub miss_le : c.miss.count ≤ own.miss.count
  pub idle : n ≡ 0 → own ≡ c
  pub present : (k : ℕ) → n ≡ suc k → Present own (cl_id + k)
  pub last : LastWay n c.ways start r

LinesLoaded-suc :
    {p : ℕ} {c : Cache} {cl_id n m i : ℕ} {start r : Option ℕ} {s₁ t : Sim}
    → (o : LineLoaded p c cl_id m i s₁) → o.own.ways ≡ c.ways
    → LinesLoaded p o.own (cl_id + 1) n m (some i) r t
    → LinesLoaded p c cl_id (suc n) m start r t
unfolding bump
LinesLoaded-suc {c} {cl_id} {n} {m} {i} {start} {r} o ways l = record {
  own = l.own;
  at = l.at;
  load = l.load ∙ o.load;
  store = l.store ∙ o.store;
  lines = ground (arith, o.counted, l.lines);
  bytes = ground (arith, o.counted, l.bytes);
  hit_le = ground (arith, o.counted, l.hit_le);
  miss_le = ground (arith, o.counted, l.miss_le);
  idle = λ e. absurd (omega arith);
  present = λ k e. last_present k (omega arith) (l.present) (l.idle);
  last = last_way l.last;
}
  where
    last_present :
        (k : ℕ)
        → n ≡ k
        → ((j : ℕ) → n ≡ suc j → Present l.own (cl_id + 1 + j))
        → (n ≡ 0 → l.own ≡ o.own)
        → Present l.own (cl_id + k)
    last_present zero e rest idle =
        let same : cl_id + 0 ≡ cl_id = omega arith in rw (same, idle e) o.present
    last_present (suc j) e rest idle =
        let same : cl_id + suc j ≡ cl_id + 1 + j = omega arith in rw same (rest j e)

    last_way : LastWay n o.own.ways (some i) r → LastWay (suc n) c.ways start r
    last_way (inl (z, same)) = inr (i, same, o.in_set)
    last_way (inr (j, same, lt)) = inr (j, same, omega arith)

module _ {size : ℕ} (below : Ops) (p : ℕ) (handles : Handles size below (suc p)) where
  load_lines-Steps :
      (n : ℕ) (s : Sim) (c : Cache) (range : AddrRange) (cl_id : ℕ) (start : Option ℕ)
      → IsValid size s
      → get_elem? s.caches p ≡ some c
      → Returns
          (λ r. Steps p s r.1 × LinesLoaded p c cl_id n (min c.cl_size range.length) start r.0 r.1)
          (load_lines below n s p range cl_id start)
  unfolding load_lines
  load_lines-Steps zero s c range cl_id start valid at = returns (
    done,
    record {
      own = c;
      at = at;
      load = refl;
      store = refl;
      lines = omega arith;
      bytes = omega arith;
      hit_le = omega arith;
      miss_le = omega arith;
      idle = λ _. refl;
      present = λ k e. absurd (omega arith);
      last = inl (refl, refl);
    },
  )
  load_lines-Steps (suc n) s c range cl_id start valid at =
      bind (load_line-Steps below p handles s c range cl_id valid at) (λ (i, s₁) (r, o).
        let same = own-config p c o.own r at o.at in
        let ways = ap (λ x. x.ways) same in
        let amount : min o.own.cl_size range.length ≡ min c.cl_size range.length =
          ap (λ x. min x.cl_size range.length) same in
        weaken (load_lines-Steps n s₁ o.own range (cl_id + 1) (some i) (Steps-IsValid r valid) o.at)
          (λ (j, t) (r', l). (Steps-trans r r', LinesLoaded-suc o ways (rw amount at l))))

  -- What `Cache__load` leaves of its cache: the lines of the range, and one load of its length.
  pub load-Steps :
      (s : Sim) (c : Cache) (range : AddrRange)
      → IsValid size s
      → get_elem? s.caches p ≡ some c
      → Returns
          (λ r.
            Steps p s r.1
            × LinesLoaded p
                (count_load range.length c)
                (get_cacheline_id c range.addr)
                (line_rounds c range)
                (min c.cl_size range.length)
                none
                r.0
                r.1)
          (load below s p range)
  unfolding load
  load-Steps s c range valid at =
      let c₁ = count_load range.length c in
      let l : Local c c₁ = loaded range.length in
      let r : Steps p s (put s p c₁) = one (omega arith) at l in
      rw at (
        weaken
          (load_lines-Steps (line_rounds c range) (put s p c₁) c₁ range
            (get_cacheline_id c range.addr) none (Steps-IsValid r valid) (at_self s p c₁ at))
          (λ t (r', l'). (Steps-trans r r', l')))
