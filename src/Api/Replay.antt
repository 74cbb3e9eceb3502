-- ===== src/Api/Replay.antt =====
-- `Cache_iterload` of cachesim/backend.c against the textbook cache.
use pycachesim.Base.{
  ℕ, ◌<◌, ◌≡◌, refl, ap, ◌∙◌, none, some, List, [], ◌∷◌, get_elem?, Returns, returns, bind, weaken,
}
use pycachesim.Api.{load_all, iterload}
use pycachesim.Cache.{Cache}
use pycachesim.Hierarchy.{Sim, ops}
use pycachesim.Hierarchy.Reference.{use_ranges, is_lru, view}
use pycachesim.Hierarchy.Steps.{IsValid}
use pycachesim.Hierarchy.Tracking.{Tracked, StandsFor, load-StandsFor}

module _ (size p len : ℕ) (inside : p < size) (pos : 0 < len) where
  load_all-StandsFor :
      (xs : List ℕ) (s : Sim) (c : Cache)
      → IsValid size s
      → get_elem? s.caches p ≡ some c
      → Tracked c
      → Returns
          (StandsFor size p c (use_ranges (is_lru c) c.sets c.ways c.cl_size len xs (view c)))
          (load_all (ops size) p len s xs)
  unfolding load_all use_ranges
  load_all-StandsFor [] s c valid at tracked =
      returns
        (record { valid = valid; own = c; at = at; same = refl; tracked = tracked; stands = refl })
  load_all-StandsFor (a ∷ rest) s c valid at tracked =
      bind (load-StandsFor size s p c a len valid inside at tracked pos) (λ (i, t) k.
        weaken (load_all-StandsFor rest t k.own k.valid k.at k.tracked) (λ u k'. record {
          valid = k'.valid;
          own = k'.own;
          at = k'.at;
          same = k'.same ∙ k.same;
          tracked = k'.tracked;
          stands =
              k'.stands
              ∙ ap (λ x. use_ranges (is_lru x) x.sets x.ways x.cl_size len rest (view k.own)) k.same
              ∙ ap (use_ranges (is_lru c) c.sets c.ways c.cl_size len rest) k.stands;
        }))

  -- On a FIFO or LRU cache of a valid hierarchy, whatever caches are behind it, whose sets have their
  -- valid entries in front of the invalid ones, `Cache_iterload` over a list of addresses, of at
  -- least one byte each, returns without an error. The cache then holds in every set the lines
  -- that the textbook FIFO or LRU cache holds after the same accesses, in its order, and has counted its
  -- hits and misses; the valid entries are in front again.
  pub iterload-StandsFor :
      (xs : List ℕ) (s : Sim) (c : Cache)
      → IsValid size s
      → get_elem? s.caches p ≡ some c
      → Tracked c
      → Returns
          (λ (error, t).
            (error ≡ none)
            × StandsFor size p c (use_ranges (is_lru c) c.sets c.ways c.cl_size len xs (view c)) t)
          (iterload (ops size) p len s (some xs))
  unfolding iterload
  iterload-StandsFor xs s c valid at tracked =
      bind (load_all-StandsFor xs s c valid at tracked) (λ t k. returns (refl, k))
