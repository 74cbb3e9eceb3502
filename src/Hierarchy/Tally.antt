-- ===== src/Hierarchy/Tally.antt =====
-- The counters of a cache after a call of `Cache__load` or `Cache__store`, and the last line of a load.
use mathlib.Core.Path.{subst}
use pycachesim.Base.{
  Bool, ℕ, zero, suc, ◌+◌, ◌-◌, ◌*◌, ◌≤◌, ◌<◌, ◌≡◌, refl, sym, ap, ◌∙◌, none, true, some, arith,
  min, get_elem?, ok, Returns, weaken, result, ◌/◌, ◌^◌,
}
use pycachesim.Cache.{Cache, AddrRange, bump, line_rounds, get_cacheline_id}
use pycachesim.Api.{contains}
use pycachesim.Api.Contents.{contains-Present}
use pycachesim.Cache.Range.{line_rounds-last}
use pycachesim.Hierarchy.{Sim, ops, count_load}
use pycachesim.Hierarchy.Effects.{Present}
use pycachesim.Hierarchy.Loads.{LinesLoaded, load-Steps}
use pycachesim.Hierarchy.Safety.{ops-Handles}
use pycachesim.Hierarchy.Store.{store-Steps}
use pycachesim.Hierarchy.Steps.{IsValid, Steps, Steps-IsValid, own-config}

-- The counters of the cache `p`, which was `c`, after a load of a range.
pub record LoadCounted (p : ℕ) (c : Cache) (range : AddrRange) (t : Sim) : Type 0 where
  pub own : Cache
  pub at : get_elem? t.caches p ≡ some own
  pub load_count : own.load.count ≡ c.load.count + 1
  pub load_byte : own.load.byte ≡ c.load.byte + range.length
  pub store_same : own.store ≡ c.store
  pub lines : own.hit.count + own.miss.count ≡ c.hit.count + c.miss.count + line_rounds c range
  pub bytes :
      own.hit.byte + own.miss.byte
      ≡ c.hit.byte + c.miss.byte + line_rounds c range * min c.cl_size range.length
  pub hit_le : c.hit.count ≤ own.hit.count
  pub miss_le : c.miss.count ≤ own.miss.count

module _ (size : ℕ) (s : Sim) (p : ℕ) (c : Cache) (range : AddrRange) (valid : IsValid size s)
    (inside : p < size) (at : get_elem? s.caches p ≡ some c) where
  -- The postcondition of `Loads`, for the knot that is tied with enough fuel.
  pub ops_load-LinesLoaded :
      Returns
        (λ r.
          Steps p s r.1
          × LinesLoaded p
              (count_load range.length c)
              (get_cacheline_id c range.addr)
              (line_rounds c range)
              (min c.cl_size range.length)
              none
              r.0
              r.1)
        ((ops size).load s p range)
  unfolding ops
  ops_load-LinesLoaded = with_fuel size refl
    where
      with_fuel :
          (n : ℕ)
          → n ≡ size
          → Returns
              (λ r.
                Steps p s r.1
                × LinesLoaded p
                    (count_load range.length c)
                    (get_cacheline_id c range.addr)
                    (line_rounds c range)
                    (min c.cl_size range.length)
                    none
                    r.0
                    r.1)
              ((ops n).load s p range)
      with_fuel zero e = absurd (omega arith)
      with_fuel (suc n) e =
          load-Steps (ops n) p (ops-Handles size n (suc p) (omega arith)) s c range valid at

  -- In a valid hierarchy a load counts one load of the length of its range, and every line of the range as one hit or one
  -- miss, of the length of the range or of the line, whichever is less; it counts no store.
  pub load-LoadCounted : Returns (λ r. LoadCounted p c range r.1) ((ops size).load s p range)
  unfolding bump
  load-LoadCounted = weaken ops_load-LinesLoaded (λ r (_, l). record {
    own = l.own;
    at = l.at;
    load_count = ap (λ x. x.count) l.load;
    load_byte = ap (λ x. x.byte) l.load;
    store_same = l.store;
    lines = l.lines;
    bytes = l.bytes;
    hit_le = l.hit_le;
    miss_le = l.miss_le;
  })

  -- In a valid hierarchy, after a load of a range that is not empty, the cache holds the range's last address.
  pub load-contains :
      0 < range.length
      → Returns
          (λ r.
            (own : Cache) × (get_elem? r.1.caches p ≡ some own)
            × (contains own (range.addr + range.length - 1) ≡ ok true))
          ((ops size).load s p range)
  unfolding get_cacheline_id
  load-contains pos = weaken ops_load-LinesLoaded (λ r (steps, l).
      let same = own-config p c l.own steps at l.at in
      let shape = (Steps-IsValid steps valid).shape p l.own l.at in
      let (b, answer, present) =
        result (contains-Present l.own shape (range.addr + range.length - 1)) in
      let (k, rounds, last) = line_rounds-last c range pos in
      let bits = ap (λ x. (range.addr + range.length - 1) / 2 ^ x.cl_bits) same in
      let here : Present l.own (get_cacheline_id l.own (range.addr + range.length - 1)) =
        subst (Present l.own) (last ∙ sym bits) (l.present k rounds) in
      (l.own, l.at, answer ∙ ap ok (present.1 here)))

module _ (size : ℕ) (s : Sim) (p : ℕ) (c : Cache) (range : AddrRange) (nt : Bool)
    (valid : IsValid size s) (inside : p < size) (at : get_elem? s.caches p ≡ some c) where
  -- In a valid hierarchy a store, temporal or not, counts one store of the length of its range on its
  -- cache, whatever it loads, evicts or stores further.
  pub store-counts :
      Returns
        (λ t.
          (own : Cache) × (get_elem? t.caches p ≡ some own)
          × (own.store.count ≡ c.store.count + 1)
          × (own.store.byte ≡ c.store.byte + range.length))
        ((ops size).store s p range nt)
  unfolding ops bump
  store-counts = with_fuel size refl
    where
      with_fuel :
          (n : ℕ)
          → n ≡ size
          → Returns
              (λ t.
                (own : Cache) × (get_elem? t.caches p ≡ some own)
                × (own.store.count ≡ c.store.count + 1)
                × (own.store.byte ≡ c.store.byte + range.length))
              ((ops n).store s p range nt)
      with_fuel zero e = absurd (omega arith)
      with_fuel (suc n) e =
          weaken
            (store-Steps (ops n) p (ops-Handles size n (suc p) (omega arith)) range nt s c valid at)
            (λ t (_, (own, at_own, same)).
              (own, at_own, ap (λ x. x.count) same, ap (λ x. x.byte) same))
