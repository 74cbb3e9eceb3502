-- ===== src/Api/Flat.antt =====
-- `Cache_mark_all_invalid`, `Cache_count_invalid_entries` and `Cache_reset_stats`.
use pycachesim.Base.{
  ℕ, zero, suc, ◌+◌, ◌*◌, ◌%◌, ◌≤◌, ◌<◌, ◌≡◌, refl, sym, ap, ◌∙◌, true, false, some, [], arith,
  length, get_elem?, get_elem?_of_lt, set, length-set, get_elem?-set, ok, Returns, returns, weaken,
}
use native.Mathlib.Decide.{ℕ_discrete}
use native.Mathlib.Nat.{mod-lt}
use pycachesim.Api.{
  contains_from, contains, count_invalid_from, count_invalid_entries, mark_invalid_from,
  mark_all_invalid, cached_from, cached,
}
use pycachesim.Cache.{Cache, Entry, get_cacheline_id}
use pycachesim.Hierarchy.Handles.{get_set_id-ok}
use pycachesim.Replace.Entries.{set_in_room}
use pycachesim.Replace.Shape.{HasShape, Kept, Kept-trans, Kept-refl, Kept-placement}

-- The entries from `i` to `j - 1` are invalid.
abbrev pub AllInvalid : Cache → ℕ → ℕ → Type 0
AllInvalid c i j =
    (k : ℕ) (e : Entry) → i ≤ k → k < j → get_elem? c.placement k ≡ some e → e.invalid ≡ true

mark_invalid_from-AllInvalid :
    (n i : ℕ) (c : Cache)
    → HasShape c
    → i + n ≤ length c.placement
    → Returns
        (λ c'.
          Kept c c'
          × (length c'.placement ≡ length c.placement)
          × ((k : ℕ) → k < i → get_elem? c'.placement k ≡ get_elem? c.placement k)
          × AllInvalid c' i (i + n))
        (mark_invalid_from n i c)
unfolding mark_invalid_from
mark_invalid_from-AllInvalid zero i c shape h =
    returns (Kept-refl shape, refl, (λ k lt. refl), (λ k e h₁ h₂ at. absurd (omega arith)))
mark_invalid_from-AllInvalid (suc n) i c shape h =
    let (e, at) = get_elem?_of_lt c.placement i (omega arith) in
    let e' = record e { invalid = true } in
    let size = length-set c.placement i e' in
    let kept : Kept c (record c { placement = set c.placement i e' }) =
      Kept-placement (set c.placement i e') shape size in
    rw at (
      weaken
        (mark_invalid_from-AllInvalid n (i + 1) (record c { placement = set c.placement i e' })
          kept.shape (omega arith))
        (λ c' (kept', size', same, all).
          let here : get_elem? c'.placement i ≡ some e' =
            ground (arith, same i (omega arith), get_elem?-set c.placement i i e' (omega arith)) in
          (
            Kept-trans kept kept',
            omega arith,
            λ k lt.
                ground
                  (arith, same k (omega arith), get_elem?-set c.placement i k e' (omega arith)),
            λ k x h₁ h₂ at_k. elim (ℕ_discrete k i) [
              | yes is_i ↦
                  let both : some x ≡ some e' =
                    sym at_k ∙ ap (get_elem? c'.placement) is_i ∙ here in
                  ground (arith, both)
              | no other ↦ all k x (omega arith) (omega arith) at_k
            ],
          )))

module _ (c : Cache) (all : AllInvalid c 0 (length c.placement)) where
  count_all :
      (n i count : ℕ) → i + n ≤ length c.placement → count_invalid_from c n i count ≡ ok (count + n)
  unfolding count_invalid_from
  count_all zero i count h = ap ok (omega arith)
  count_all (suc n) i count h =
      let (e, at) = get_elem?_of_lt c.placement i (omega arith) in
      let same : count + 1 + n ≡ count + suc n = omega arith in
      rw (at, all i e (omega arith) (omega arith) at)
        (count_all n (i + 1) (count + 1) (omega arith) ∙ ap ok same)

  none_cached : (n i : ℕ) → i + n ≤ length c.placement → cached_from c n i ≡ ok []
  unfolding cached_from
  none_cached zero i h = refl
  none_cached (suc n) i h =
      let (e, at) = get_elem?_of_lt c.placement i (omega arith) in
      rw (at, none_cached n (i + 1) (omega arith), all i e (omega arith) (omega arith) at) refl

  none_contained :
      (cl_id set_id n i : ℕ)
      → set_id * c.ways + i + n ≤ length c.placement
      → contains_from c cl_id set_id n i ≡ ok false
  unfolding contains_from
  none_contained cl_id set_id zero i h = refl
  none_contained cl_id set_id (suc n) i h =
      let (e, at) = get_elem?_of_lt c.placement (set_id * c.ways + i) (omega arith) in
      rw
        (
          at,
          all (set_id * c.ways + i) e (omega arith) (omega arith) at,
          none_contained cl_id set_id n (i + 1) (omega arith),
        )
        refl

-- What an emptied cache answers.
pub record IsEmptied (c : Cache) : Type 0 where
  pub shape : HasShape c
  pub invalid : count_invalid_entries c ≡ ok (c.ways * c.sets)
  pub absent : (addr : ℕ) → contains c addr ≡ ok false
  pub nothing : cached c ≡ ok []

pub AllInvalid-IsEmptied :
    (c : Cache) → HasShape c → AllInvalid c 0 (length c.placement) → IsEmptied c
unfolding count_invalid_entries contains cached
AllInvalid-IsEmptied c shape all =
    let room = shape.room in
    record {
      shape = shape;
      invalid = count_all c all (c.ways * c.sets) 0 0 (omega arith) ∙ ap ok (omega arith);
      absent = λ addr.
          let cl_id = get_cacheline_id c addr in
          let inside = set_in_room c.ways (mod-lt cl_id shape.sets_pos) in
          rw (get_set_id-ok c cl_id shape)
            (none_contained c all cl_id (cl_id % c.sets) c.ways 0 (omega arith));
      nothing = none_cached c all (c.sets * c.ways) 0 (omega arith);
    }

-- On a cache in shape `Cache_mark_all_invalid` returns; only entries and bits may have changed; all
-- entries are then counted as invalid, no address is contained, and no address is cached.
pub mark_all_invalid-IsEmptied :
    (c : Cache) → HasShape c → Returns (λ c'. Kept c c' × IsEmptied c') (mark_all_invalid c)
unfolding mark_all_invalid
mark_all_invalid-IsEmptied c shape =
    let room = shape.room in
    weaken (mark_invalid_from-AllInvalid (c.ways * c.sets) 0 c shape (omega arith))
      (λ c' (kept, size, same, all).
        (kept, AllInvalid-IsEmptied c' kept.shape (λ k e h₁ h₂ at. all k e h₁ (omega arith) at)))
