-- ===== src/Api/Iterate.antt =====
-- `Cache_iterload`, `Cache_iterstore` and `Cache_loadstore` of cachesim/backend.c over a hierarchy.
use native.Mathlib.Nat.{suc-mul}
use pycachesim.Base.{
  ℕ, ◌+◌, ◌*◌, ◌<◌, ◌≡◌, refl, ◌∙◌, false, none, some, List, [], ◌∷◌, arith, length, get_elem?,
  Returns, returns, bind, weaken, Returns-both,
}
use pycachesim.Api.{store_all, iterstore, Item, load_all, iterload, loadstore}
use pycachesim.Cache.{Cache, AddrRange}
use pycachesim.Hierarchy.{Sim, ops}
use pycachesim.Hierarchy.Safety.{Outcome, Outcome-trans, load-Outcome, store-Outcome}
use pycachesim.Hierarchy.Steps.{IsValid}
use pycachesim.Hierarchy.Tally.{load-LoadCounted, store-counts}
use pycachesim.Api.Accesses.{
  Access, load_at, store_at, accesses, first_error, run_accesses, loadstore-run,
}

-- What `n` loads of `length` bytes leave of the cache `p`, which was `c`.
pub record LoadsCounted (size p : ℕ) (c : Cache) (n length : ℕ) (t : Sim) : Type 0 where
  pub valid : IsValid size t
  pub own : Cache
  pub at : get_elem? t.caches p ≡ some own
  pub load_count : own.load.count ≡ c.load.count + n
  pub load_byte : own.load.byte ≡ c.load.byte + n * length
  pub store_same : own.store ≡ c.store

module _ (size p len : ℕ) (inside : p < size) where
  run_accesses-Outcome :
      (xs : List Access) (s : Sim)
      → IsValid size s
      → Returns (Outcome size p s) (run_accesses (ops size) p len s xs)
  run_accesses-Outcome [] s valid =
      returns (record { valid = valid; front = λ q lt. refl; configs = λ q c at. (c, at, refl) })
  run_accesses-Outcome (load_at a ∷ rest) s valid =
      bind (load-Outcome size s p valid inside (record { addr = a; length = len }))
        (λ (i, t) o. weaken (run_accesses-Outcome rest t o.valid) (λ u o'. Outcome-trans o o'))
  run_accesses-Outcome (store_at a ∷ rest) s valid =
      bind (store-Outcome size s p valid inside (record { addr = a; length = len }) false)
        (λ t o. weaken (run_accesses-Outcome rest t o.valid) (λ u o'. Outcome-trans o o'))

  -- On a cache of a valid hierarchy `Cache_loadstore` returns, with the error of the first malformed item
  -- or none; the hierarchy is valid, with the same configurations, and the caches in front of the one
  -- that was called have not changed.
  pub loadstore-Outcome :
      (s : Sim) (items : List Item)
      → IsValid size s
      → Returns
          (λ (error, t). (error ≡ first_error items) × Outcome size p s t)
          (loadstore (ops size) p len s (some items))
  loadstore-Outcome s items valid =
      rw (loadstore-run (ops size) p len s items)
        (bind (run_accesses-Outcome (accesses items) s valid) (λ t o. returns (refl, o)))

  load_all-LoadsCounted :
      (xs : List ℕ) (s : Sim) (c : Cache)
      → IsValid size s
      → get_elem? s.caches p ≡ some c
      → Returns (LoadsCounted size p c (length xs) len) (load_all (ops size) p len s xs)
  unfolding load_all
  load_all-LoadsCounted [] s c valid at = returns (record {
    valid = valid;
    own = c;
    at = at;
    load_count = omega arith;
    load_byte = omega arith;
    store_same = refl;
  })
  load_all-LoadsCounted (a ∷ rest) s c valid at =
      let range : AddrRange = record { addr = a; length = len } in
      bind
        (Returns-both (load-Outcome size s p valid inside range)
          (load-LoadCounted size s p c range valid inside at))
        (λ (i, t) (o, l). weaken (load_all-LoadsCounted rest t l.own o.valid l.at) (λ u k. record {
          valid = k.valid;
          own = k.own;
          at = k.at;
          load_count = omega (arith, k.load_count, l.load_count);
          load_byte = omega (arith, k.load_byte, l.load_byte, suc-mul (length rest) len);
          store_same = k.store_same ∙ l.store_same;
        }))

  -- On a cache of a valid hierarchy `Cache_iterload` over a list of addresses returns without an error; it
  -- counts one load of the given length for each address, and no store.
  pub iterload-LoadsCounted :
      (xs : List ℕ) (s : Sim) (c : Cache)
      → IsValid size s
      → get_elem? s.caches p ≡ some c
      → Returns
          (λ (error, t). (error ≡ none) × LoadsCounted size p c (length xs) len t)
          (iterload (ops size) p len s (some xs))
  unfolding iterload
  iterload-LoadsCounted xs s c valid at =
      bind (load_all-LoadsCounted xs s c valid at) (λ t k. returns (refl, k))

-- What `n` stores of `length` bytes leave of the cache `p`, which was `c`.
pub record StoresCounted (size p : ℕ) (c : Cache) (n length : ℕ) (t : Sim) : Type 0 where
  pub valid : IsValid size t
  pub own : Cache
  pub at : get_elem? t.caches p ≡ some own
  pub store_count : own.store.count ≡ c.store.count + n
  pub store_byte : own.store.byte ≡ c.store.byte + n * length

module _ (size p len : ℕ) (inside : p < size) where
  store_all-StoresCounted :
      (xs : List ℕ) (s : Sim) (c : Cache)
      → IsValid size s
      → get_elem? s.caches p ≡ some c
      → Returns (StoresCounted size p c (length xs) len) (store_all (ops size) p len s xs)
  unfolding store_all
  store_all-StoresCounted [] s c valid at = returns (record {
    valid = valid;
    own = c;
    at = at;
    store_count = omega arith;
    store_byte = omega arith;
  })
  store_all-StoresCounted (a ∷ rest) s c valid at =
      let range : AddrRange = record { addr = a; length = len } in
      bind
        (Returns-both (store-Outcome size s p valid inside range false)
          (store-counts size s p c range false valid inside at))
        (λ t (o, (own, at_own, count, byte)).
          weaken (store_all-StoresCounted rest t own o.valid at_own) (λ u k. record {
            valid = k.valid;
            own = k.own;
            at = k.at;
            store_count = omega (arith, k.store_count, count);
            store_byte = omega (arith, k.store_byte, byte, suc-mul (length rest) len);
          }))

  -- On a cache of a valid hierarchy `Cache_iterstore` over a list of addresses returns without an error;
  -- it counts one store of the given length for each address.
  pub iterstore-StoresCounted :
      (xs : List ℕ) (s : Sim) (c : Cache)
      → IsValid size s
      → get_elem? s.caches p ≡ some c
      → Returns
          (λ (error, t). (error ≡ none) × StoresCounted size p c (length xs) len t)
          (iterstore (ops size) p len s (some xs))
  unfolding iterstore
  iterstore-StoresCounted xs s c valid at =
      bind (store_all-StoresCounted xs s c valid at) (λ t k. returns (refl, k))
