-- ===== src/Hierarchy/Homes.antt =====
-- The set that a valid entry of a cache belongs in, and what `Cache__load` and `Cache__store` do to it.
use mathlib.Core.Option.{some-injective}
use mathlib.Core.Path.{subst}
use native.Mathlib.Decide.{ℕ_discrete}
use pycachesim.Base.{
  ℕ, ◌+◌, ◌*◌, ◌%◌, ◌<◌, ◌≡◌, inl, inr, sym, ap, ◌∙◌, Bool, true, false, some, List, arith,
  get_elem?, set, get_elem?-set, lt_of_get_elem?, Returns, weaken,
}
use pycachesim.Cache.{Cache, Entry, AddrRange}
use pycachesim.Hierarchy.{Sim, ops}
use pycachesim.Hierarchy.Local.{
  Local, config, loaded, stored, was_hit, missed, evicted, replaced, to_front, marked, dirtied,
  and_then, Kept-config,
}
use pycachesim.Hierarchy.Safety.{ops-Handles}
use pycachesim.Hierarchy.Steps.{IsValid, Steps, Steps-invariant}
use pycachesim.Replace.Entries.{other_set, IsUpdated}

-- Valid entries of the set `j` of the `ways` ways stand for lines of that set.
abbrev pub InHomes : List Entry → ℕ → ℕ → Type 0
InHomes placement sets ways =
    (j k : ℕ) (e : Entry)
    → j < sets
    → k < ways
    → get_elem? placement (j * ways + k) ≡ some e
    → e.invalid ≡ false
    → e.cl_id % sets ≡ j

abbrev pub IsHomed : Cache → Type 0
IsHomed c = InHomes c.placement c.sets c.ways

-- A set that is updated by an entry of its own, or by one that was in it, keeps the homes.
InHomes-IsUpdated :
    (before after : List Entry) (sets ways set_id i : ℕ) (entry : Entry)
    → (entry.invalid ≡ false → entry.cl_id % sets ≡ set_id)
    → IsUpdated before (set_id * ways) ways i entry after
    → InHomes before sets ways
    → InHomes after sets ways
InHomes-IsUpdated before after sets ways set_id i entry own u homes j k e hj hk at valid =
    elim (ℕ_discrete j set_id) [
      | yes same ↦
          elim (u.others k e hk (ap (λ x. get_elem? after (x * ways + k)) (sym same) ∙ at)) [
            | inl is_entry ↦
                ap (λ x. x.cl_id % sets) is_entry
                ∙ own (sym (ap (λ x. x.invalid) is_entry) ∙ valid)
                ∙ sym same
            | inr (m, hm, before_at) ↦
                homes j m e hj hm (ap (λ x. get_elem? before (x * ways + m)) same ∙ before_at) valid
          ]
      | no other ↦ elim (other_set j set_id ways k other hk) [
        | inl h ↦ homes j k e hj hk (sym (u.below _ h) ∙ at) valid
        | inr h ↦ homes j k e hj hk (sym (u.above _ h) ∙ at) valid
      ]
    ]

InHomes-config :
    (placement : List Entry) (c c' : Cache)
    → config c' ≡ config c
    → InHomes placement c.sets c.ways
    → InHomes placement c'.sets c'.ways
InHomes-config placement c c' e h = subst (λ x. InHomes placement x.sets x.ways) (sym e) h

-- Setting the dirty bit keeps the homes.
InHomes-dirtied :
    (placement : List Entry) (sets ways n : ℕ) (e : Entry)
    → get_elem? placement n ≡ some e
    → InHomes placement sets ways
    → InHomes (set placement n (record e { dirty = true })) sets ways
InHomes-dirtied placement sets ways n e at_n homes j k x hj hk at valid =
    let new : Entry = record e { dirty = true } in
    let read_back =
      get_elem?-set placement n (j * ways + k) new (lt_of_get_elem? placement n at_n) in
    elim (ℕ_discrete n (j * ways + k)) [
      | yes same ↦
          let is_new : new ≡ x = some-injective _ _ (ground (arith, read_back)) in
          let at_e : get_elem? placement (j * ways + k) ≡ some e =
            ap (get_elem? placement) (sym same) ∙ at_n in
          ap (λ y. y.cl_id % sets) (sym is_new)
          ∙ homes j k e hj hk at_e (ap (λ y. y.invalid) is_new ∙ valid)
      | no other ↦ homes j k x hj hk (ground (arith, read_back)) valid
    ]

-- Every change that the operations make keeps the valid entries in their sets.
pub Local-IsHomed : (c c' : Cache) → Local c c' → IsHomed c → IsHomed c'
Local-IsHomed c _ (loaded n) h = h
Local-IsHomed c _ (stored n) h = h
Local-IsHomed c _ (was_hit n) h = h
Local-IsHomed c _ (missed n) h = h
Local-IsHomed c _ (evicted n) h = h
Local-IsHomed c c' (replaced {set_id} {i} {entry} e v r q) h =
    InHomes-config c'.placement c c' (Kept-config r.kept) (
      InHomes-IsUpdated c.placement c'.placement c.sets c.ways set_id i entry (λ _. sym e) r.updated
        h)
Local-IsHomed c c' (to_front {set_id} {i} {entry} in_sets lt at v k u q) h =
    InHomes-config c'.placement c c' (Kept-config k) (
      InHomes-IsUpdated c.placement c'.placement c.sets c.ways set_id 0 entry
        (h set_id i entry in_sets lt at) u h)
Local-IsHomed c c' (marked k same) h =
    InHomes-config c'.placement c c' (Kept-config k)
      (subst (λ l. InHomes l c.sets c.ways) (sym same) h)
Local-IsHomed c _ (dirtied n e at) h = InHomes-dirtied c.placement c.sets c.ways n e at h
Local-IsHomed c c' (and_then {c' = m} l l') h = Local-IsHomed m c' l' (Local-IsHomed c m l h)

abbrev pub AllHomed : Sim → Type 0
AllHomed s = (q : ℕ) (c : Cache) → get_elem? s.caches q ≡ some c → IsHomed c

module _ (size : ℕ) (s : Sim) (p : ℕ) (valid : IsValid size s) (inside : p < size)
    (homed : AllHomed s) where
  homed_after : {t : Sim} → Steps p s t → AllHomed t
  homed_after r = Steps-invariant IsHomed Local-IsHomed r homed

  -- In a valid hierarchy whose valid entries are all in the sets of their lines, `Cache__load`,
  -- `Cache__store` and `Cache__inject` of a valid entry return and leave them so.
  pub calls-AllHomed :
      (range : AddrRange) (non_temporal : Bool) (entry : Entry)
      → entry.invalid ≡ false
      → Returns (λ r. AllHomed r.1) ((ops size).load s p range)
        × Returns AllHomed ((ops size).store s p range non_temporal)
        × Returns (λ r. AllHomed r.1) ((ops size).inject s p entry)
  calls-AllHomed range nt entry e =
      let h = ops-Handles size size 0 (omega arith) in
      (
        weaken (h.load s p range valid (omega arith) inside) (λ r k. homed_after k),
        weaken (h.store s p range nt valid (omega arith) inside) (λ t k. homed_after k),
        weaken (h.inject s p entry valid (omega arith) inside e) (λ r k. homed_after k),
      )
