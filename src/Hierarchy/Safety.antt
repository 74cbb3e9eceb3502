-- ===== src/Hierarchy/Safety.antt =====
-- Calls of cachesim/backend.c on a cache of a hierarchy, with one unit of fuel for each cache.
use pycachesim.Base.{
  ℕ, zero, suc, ◌+◌, ◌≤◌, ◌<◌, ◌≡◌, ◌∙◌, Bool, false, some, arith, get_elem?, get_elem?_of_lt,
  Returns, weaken,
}
use pycachesim.Cache.{Cache, Entry, AddrRange}
use pycachesim.Hierarchy.{Sim, ops}
use pycachesim.Hierarchy.Handles.{Handles}
use pycachesim.Hierarchy.Inject.{inject-Steps}
use pycachesim.Hierarchy.Loads.{load-Steps}
use pycachesim.Hierarchy.Store.{store-Steps}
use pycachesim.Hierarchy.Steps.{IsValid, Steps, Steps-IsValid, Steps-frame, Steps-config}
use pycachesim.Hierarchy.Local.{config}

pub cache_of :
    {size : ℕ} (s : Sim) (q : ℕ)
    → IsValid size s
    → q < size
    → (c : Cache) × (get_elem? s.caches q ≡ some c)
cache_of s q valid lt = get_elem?_of_lt s.caches q (omega (arith, valid.count))

-- Fuel `n` serves the last `n` caches.
pub ops-Handles : (size n b : ℕ) → size ≤ b + n → Handles size (ops n) b
unfolding ops
ops-Handles size zero b h = record {
  load = λ s q range valid behind inside. absurd (omega arith);
  store = λ s q range nt valid behind inside. absurd (omega arith);
  inject = λ s q entry valid behind inside e. absurd (omega arith);
}
ops-Handles size (suc n) b h = record {
  load = λ s q range valid behind inside.
      let (c, at) = cache_of s q valid inside in
      weaken (load-Steps (ops n) q (ops-Handles size n (suc q) (omega arith)) s c range valid at)
        (λ r k. k.0);
  store = λ s q range nt valid behind inside.
      let (c, at) = cache_of s q valid inside in
      weaken
        (store-Steps (ops n) q (ops-Handles size n (suc q) (omega arith)) range nt s c valid at)
        (λ t k. k.0);
  inject = λ s q entry valid behind inside e.
      let (c, at) = cache_of s q valid inside in
      weaken
        (inject-Steps (ops n) q (ops-Handles size n (suc q) (omega arith)) s c entry valid at e)
        (λ r k. k.0);
}

-- What a call on the cache `p` keeps: the shape of all caches, those in front of `p`, and every
-- configuration.
pub record Outcome (size p : ℕ) (s t : Sim) : Type 0 where
  pub valid : IsValid size t
  pub front : (q : ℕ) → q < p → get_elem? t.caches q ≡ get_elem? s.caches q
  pub configs :
      (q : ℕ) (c : Cache)
      → get_elem? s.caches q ≡ some c
      → (c' : Cache) × (get_elem? t.caches q ≡ some c') × (config c' ≡ config c)

Outcome-Steps : {size p : ℕ} (s t : Sim) → IsValid size s → Steps p s t → Outcome size p s t
Outcome-Steps s t valid r = record {
  valid = Steps-IsValid r valid;
  front = λ q lt. Steps-frame q r lt;
  configs = λ q c at. Steps-config q c r at;
}

pub Outcome-trans :
    {size p : ℕ} {s t u : Sim} → Outcome size p s t → Outcome size p t u → Outcome size p s u
Outcome-trans o o' = record {
  valid = o'.valid;
  front = λ q lt. o'.front q lt ∙ o.front q lt;
  configs = λ q c at.
      let (c₁, at₁, same₁) = o.configs q c at in
      let (c₂, at₂, same₂) = o'.configs q c₁ at₁ in (c₂, at₂, same₂ ∙ same₁);
}

module _ (size : ℕ) (s : Sim) (p : ℕ) (valid : IsValid size s) (inside : p < size) where
  -- `Cache__load` on a cache of a valid hierarchy returns, without a fault and with one unit of fuel
  -- for each cache; the hierarchy is then valid, with the same configurations, and the caches in front
  -- of the one that was called have not changed.
  pub load-Outcome :
      (range : AddrRange) → Returns (λ r. Outcome size p s r.1) ((ops size).load s p range)
  load-Outcome range =
      weaken ((ops-Handles size size 0 (omega arith)).load s p range valid (omega arith) inside)
        (λ r k. Outcome-Steps s r.1 valid k)

  -- `Cache__store`, temporal or not, on a cache of a valid hierarchy returns, without a fault and with
  -- one unit of fuel for each cache; the hierarchy is then valid, with the same configurations, and the
  -- caches in front of the one that was called have not changed.
  pub store-Outcome :
      (range : AddrRange) (non_temporal : Bool)
      → Returns (Outcome size p s) ((ops size).store s p range non_temporal)
  store-Outcome range nt =
      weaken ((ops-Handles size size 0 (omega arith)).store s p range nt valid (omega arith) inside)
        (λ t k. Outcome-Steps s t valid k)

  -- `Cache__inject` of a valid entry into a cache of a valid hierarchy returns, without a fault and with
  -- one unit of fuel for each cache; the hierarchy is then valid, with the same configurations, and the
  -- caches in front of the one that was called have not changed.
  pub inject-Outcome :
      (entry : Entry)
      → entry.invalid ≡ false
      → Returns (λ r. Outcome size p s r.1) ((ops size).inject s p entry)
  inject-Outcome entry e =
      weaken ((ops-Handles size size 0 (omega arith)).inject s p entry valid (omega arith) inside e)
        (λ r k. Outcome-Steps s r.1 valid k)
