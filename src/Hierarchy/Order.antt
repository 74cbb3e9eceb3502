-- ===== src/Hierarchy/Order.antt =====
-- The order of valid and invalid entries in the sets of FIFO and LRU caches of cachesim/backend.c,
-- through the calls on a hierarchy.
use native.Mathlib.Decide.{ℕ_discrete}
use pycachesim.Base.{
  ℕ, ◌-◌, ◌*◌, ◌<◌, ◌≡◌, refl, sym, ap, ◌∙◌, Bool, true, false, some, ◌∷◌, arith, get_elem?,
  erase_at, Returns, weaken,
}
use pycachesim.Cache.{Cache, Entry, AddrRange}
use pycachesim.Hierarchy.{Sim, ops}
use pycachesim.Hierarchy.Local.{
  Local, config, loaded, stored, was_hit, missed, evicted, replaced, to_front, marked, dirtied,
  and_then, Kept-config,
}
use pycachesim.Hierarchy.Safety.{ops-Handles}
use pycachesim.Hierarchy.Steps.{IsValid, Steps, Steps-invariant}
use pycachesim.Replace.Choice.{is_queue}
use pycachesim.Replace.Packed.{
  IsPacked, IsPacked-erase_at, Alike-set, Alike-drop, Alike-take, Alike-IsPacked,
}
use pycachesim.Replace.Queue.{queue, queue-ext, OthersKept, IsUpdated-OthersKept}

-- A FIFO or LRU cache has in every set the valid entries in front of the invalid ones.
abbrev pub IsOrdered : Cache → Type 0
IsOrdered c = is_queue c ≡ true → (k : ℕ) → IsPacked (queue c k)

-- A valid entry at the front of one set, for another of its entries.
pub IsOrdered-front :
    (c c' : Cache) (set_id i : ℕ) (entry : Entry)
    → entry.invalid ≡ false
    → queue c' set_id ≡ entry ∷ erase_at i (queue c set_id)
    → OthersKept c c' set_id
    → ((k : ℕ) → IsPacked (queue c k))
    → (k : ℕ) → IsPacked (queue c' k)
IsOrdered-front c c' set_id i entry valid front others h k = elim (ℕ_discrete k set_id) [
  | yes e ↦ rw (e, front) (λ invalid. cc, IsPacked-erase_at i (queue c set_id) (h set_id))
  | no e ↦ rw (others k e) (h k)
]

same_policy : (c c' : Cache) → config c' ≡ config c → is_queue c' ≡ true → is_queue c ≡ true
same_policy c c' e on = sym (ap (λ x. is_queue x) e) ∙ on

-- Every change that the operations make keeps the order.
pub Local-IsOrdered : (c c' : Cache) → Local c c' → IsOrdered c → IsOrdered c'
Local-IsOrdered c _ (loaded n) h on k = h on k
Local-IsOrdered c _ (stored n) h on k = h on k
Local-IsOrdered c _ (was_hit n) h on k = h on k
Local-IsOrdered c _ (missed n) h on k = h on k
Local-IsOrdered c _ (evicted n) h on k = h on k
Local-IsOrdered c c' (replaced {set_id} {i} {entry} e v r q) h on k =
    let on' = same_policy c c' (Kept-config r.kept) on in
    IsOrdered-front c c' set_id (c.ways - 1) entry v (q on')
      (IsUpdated-OthersKept c c' set_id i entry (ap (λ x. x.ways) r.kept.only) r.updated) (h on') k
Local-IsOrdered c c' (to_front {set_id} {i} {entry} in_sets lt at v k' u q) h on k =
    let on' = same_policy c c' (Kept-config k') on in
    IsOrdered-front c c' set_id i entry v q
      (IsUpdated-OthersKept c c' set_id 0 entry (ap (λ x. x.ways) k'.only) u) (h on') k
Local-IsOrdered c c' (marked k same) h on set_id =
    rw (queue-ext c c' set_id same (ap (λ x. x.ways) k.only))
      (h (same_policy c c' (Kept-config k) on) set_id)
Local-IsOrdered c _ (dirtied n e at) h on k =
    Alike-IsPacked
      (Alike-take c.ways (
        Alike-drop (k * c.ways) (Alike-set c.placement n (record e { dirty = true }) at refl refl)))
      (h on k)
Local-IsOrdered c c' (and_then {c' = m} l l') h on k =
    Local-IsOrdered m c' l' (Local-IsOrdered c m l h) on k

abbrev pub AllOrdered : Sim → Type 0
AllOrdered s = (q : ℕ) (c : Cache) → get_elem? s.caches q ≡ some c → IsOrdered c

module _ (size : ℕ) (s : Sim) (p : ℕ) (valid : IsValid size s) (inside : p < size)
    (ordered : AllOrdered s) where
  ordered_after : {t : Sim} → Steps p s t → AllOrdered t
  ordered_after r = Steps-invariant IsOrdered Local-IsOrdered r ordered

  -- In a valid hierarchy whose FIFO and LRU caches have the valid entries of every set in front of the
  -- invalid ones, `Cache__load`, `Cache__store` and `Cache__inject` of a valid entry return and leave
  -- them so.
  pub calls-AllOrdered :
      (range : AddrRange) (non_temporal : Bool) (entry : Entry)
      → entry.invalid ≡ false
      → Returns (λ r. AllOrdered r.1) ((ops size).load s p range)
        × Returns AllOrdered ((ops size).store s p range non_temporal)
        × Returns (λ r. AllOrdered r.1) ((ops size).inject s p entry)
  calls-AllOrdered range nt entry e =
      let h = ops-Handles size size 0 (omega arith) in
      (
        weaken (h.load s p range valid (omega arith) inside) (λ r k. ordered_after k),
        weaken (h.store s p range nt valid (omega arith) inside) (λ t k. ordered_after k),
        weaken (h.inject s p entry valid (omega arith) inside e) (λ r k. ordered_after k),
      )
