-- ===== src/Api/Larger.antt =====
-- `Cache_iterload` of cachesim/backend.c on LRU caches of two sizes.
use pycachesim.Base.{
  ℕ, ◌-◌, ◌≤◌, ◌<◌, ◌≡◌, refl, sym, ap, ◌∙◌, true, none, some, List, arith, get_elem?, Returns,
  weaken,
}
use pycachesim.Api.{iterload}
use pycachesim.Api.Replay.{iterload-StandsFor}
use pycachesim.Cache.{Cache}
use pycachesim.Hierarchy.{Sim, ops}
use pycachesim.Hierarchy.Inclusion.{IsPart, use_ranges-IsPart}
use pycachesim.Hierarchy.Reference.{Model, use_ranges, is_lru, view}
use pycachesim.Hierarchy.Steps.{IsValid}
use pycachesim.Hierarchy.Tracking.{Tracked, StandsFor}

-- An LRU cache `p` of a valid hierarchy, whose valid entries are in front.
pub record IsLru (size p : ℕ) (s : Sim) (c : Cache) : Type 0 where
  pub valid : IsValid size s
  pub inside : p < size
  pub at : get_elem? s.caches p ≡ some c
  pub tracked : Tracked c
  pub lru : is_lru c ≡ true

-- Two caches with sets and lines alike, the second of at least as many ways, and what both hold and have
-- counted.
pub record IsLarger (c c' : Cache) : Type 0 where
  pub sets : c'.sets ≡ c.sets
  pub cl_size : c'.cl_size ≡ c.cl_size
  pub ways : c.ways ≤ c'.ways
  pub part : IsPart c.ways (view c) (view c')

-- The caches `p` and `p'` of two hierarchies, the second of which is the larger one.
pub record AreLarger (p p' : ℕ) (s s' : Sim) : Type 0 where
  pub own : Cache
  pub own' : Cache
  pub at : get_elem? s.caches p ≡ some own
  pub at' : get_elem? s'.caches p' ≡ some own'
  pub larger : IsLarger own own'

IsPart-resp :
    {w w' : ℕ} {a a' b b' : Model} → w' ≡ w → a' ≡ a → b' ≡ b → IsPart w a b → IsPart w' a' b'
IsPart-resp e f g part = rw (e, f, g) part

module _ {size p size' p' : ℕ} (len : ℕ) (pos : 0 < len) (xs : List ℕ) (s s' : Sim) (c c' : Cache)
    (k : IsLru size p s c) (k' : IsLru size' p' s' c') (h : IsLarger c c') where
  abbrev used : Model
  used = use_ranges (is_lru c) c.sets c.ways c.cl_size len xs (view c)

  abbrev used' : Model
  used' = use_ranges (is_lru c') c'.sets c'.ways c'.cl_size len xs (view c')

  used-IsPart : IsPart c.ways used used'
  used-IsPart =
      let some_ways = (k.valid.shape p c k.at).ways_pos in
      IsPart-resp refl (ap (λ b. use_ranges b c.sets c.ways c.cl_size len xs (view c)) k.lru)
        (ap (λ b. use_ranges b c'.sets c'.ways c'.cl_size len xs (view c')) k'.lru
          ∙ ap (λ n. use_ranges true n c'.ways c'.cl_size len xs (view c')) h.sets
          ∙ ap (λ n. use_ranges true c.sets c'.ways n len xs (view c')) h.cl_size)
        (use_ranges-IsPart c.sets (c.ways - 1) c.ways c'.ways (omega arith) h.ways c.cl_size len xs
          (view c) (view c') h.part)

  both-AreLarger :
      (t t' : Sim)
      → StandsFor size p c used t
      → StandsFor size' p' c' used' t'
      → AreLarger p p' t t'
  both-AreLarger t t' r r' =
      let ways : r.own.ways ≡ c.ways = ap (λ x. x.ways) r.same in
      let ways' : r'.own.ways ≡ c'.ways = ap (λ x. x.ways) r'.same in
      let fewer = h.ways in
      record {
        own = r.own;
        own' = r'.own;
        at = r.at;
        at' = r'.at;
        larger = record {
          sets = ap (λ x. x.sets) r'.same ∙ h.sets ∙ sym (ap (λ x. x.sets) r.same);
          cl_size = ap (λ x. x.cl_size) r'.same ∙ h.cl_size ∙ sym (ap (λ x. x.cl_size) r.same);
          ways = omega arith;
          part = IsPart-resp ways r.stands r'.stands used-IsPart;
        };
      }

  -- Take two LRU caches of valid hierarchies whose valid entries are in front, with equally many sets and
  -- lines of one size, and let the one of no more ways hold in each set the first lines of the other one,
  -- have no more hits and no fewer misses. After `Cache_iterload` over one list of addresses, of at least
  -- one byte each, on both, which returns without an error, this holds again, whatever is behind them: a
  -- larger LRU cache never has fewer hits.
  pub iterload-IsLarger :
      Returns
        (λ (error, t).
          (error ≡ none)
          × Returns
              (λ (error', t'). (error' ≡ none) × AreLarger p p' t t')
              (iterload (ops size') p' len s' (some xs)))
        (iterload (ops size) p len s (some xs))
  iterload-IsLarger =
      weaken (iterload-StandsFor size p len k.inside pos xs s c k.valid k.at k.tracked)
        (λ (e, t) (is_none, r). (
          is_none,
          weaken (iterload-StandsFor size' p' len k'.inside pos xs s' c' k'.valid k'.at k'.tracked)
              (λ (e', t') (is_none', r'). (is_none', both-AreLarger t t' r r')),
        ))
