-- ===== src/Walks/Chain.antt =====
-- The caches that `printStats` and `dealloc_cacheSim` of cachesim/backend.c reach.
use mathlib.Core.List.{append-nil}
use pycachesim.Base.{
  ℕ, zero, suc, ◌+◌, ◌≤◌, ◌<◌, ◌≡◌, refl, ap, ◌∙◌, true, false, Option, none, some, List, [], ◌∷◌,
  arith, eq→==, get_elem?, get_elem?_of_lt, Returns, returns, bind, weaken, option_case-Returns,
}
use pycachesim.Cache.{Cache}
use pycachesim.Hierarchy.Steps.{IsValid}
use pycachesim.Hierarchy.{Sim}
use pycachesim.Walks.{
  Report, report, store_link, victims_link, same_pointer, print_stats, is_freed, dealloc,
}

-- `load_from` from the cache `p` on, to its end.
pub data LoadChain (cs : List Cache) : ℕ → List ℕ → Type 0 where
  end : {p : ℕ} {c : Cache} → get_elem? cs p ≡ some c → c.load_from ≡ none → LoadChain cs p (p ∷ [])
  link :
      {p q : ℕ} {c : Cache} {rest : List ℕ}
      → get_elem? cs p ≡ some c
      → c.load_from ≡ some q
      → p < q
      → LoadChain cs q rest
      → LoadChain cs p (p ∷ rest)

-- The caches in front of a chain are not in it.
not_in_chain :
    {cs : List Cache} {p : ℕ} {ps : List ℕ} (k : ℕ)
    → LoadChain cs p ps
    → k < p
    → is_freed k ps ≡ false
not_in_chain k (end at nothing) h = ground arith
not_in_chain k (link at next lt rest) h = ground (arith, not_in_chain k rest (omega arith))

same_pointer_refl : (l : Option ℕ) → same_pointer l l ≡ true
same_pointer_refl none = refl
same_pointer_refl (some q) = eq→== q q refl

store_link-none : (c : Cache) → c.store_to ≡ c.load_from → store_link c ≡ none
unfolding store_link
store_link-none c e =
    rw (ap (λ l. same_pointer l c.load_from) e ∙ same_pointer_refl c.load_from) refl

victims_link-none : (c : Cache) → c.store_to ≡ c.load_from → victims_link c ≡ none
unfolding victims_link
victims_link-none c e =
    rw (ap (λ l. same_pointer l c.load_from) e ∙ same_pointer_refl c.load_from) refl

-- The reports of caches, in their order.
pub data AreReports (cs : List Cache) : List ℕ → List Report → Type 0 where
  no_reports : AreReports cs [] []
  and_more :
      {p : ℕ} {c : Cache} {ps : List ℕ} {rs : List Report}
      → get_elem? cs p ≡ some c
      → AreReports cs ps rs
      → AreReports cs (p ∷ ps) (report c ∷ rs)

-- The reports of the caches along `load_from`.
abbrev pub ChainReports : List Cache → ℕ → List Report → Type 0
ChainReports cs p rs = (ps : List ℕ) × LoadChain cs p ps × AreReports cs ps rs

module _ (size : ℕ) (s : Sim) (valid : IsValid size s) where
  -- Enough fuel for the caches behind `p`.
  dealloc-chain :
      (fuel p : ℕ)
      → p < size
      → size ≤ p + fuel
      → Returns (LoadChain s.caches p) (dealloc fuel s.caches [] p)
  unfolding dealloc
  dealloc-chain zero p inside h = absurd (omega arith)
  dealloc-chain (suc fuel) p inside h =
      let (c, at) = get_elem?_of_lt s.caches p (omega (arith, valid.count)) in
      rw at (
        bind
          (option_case-Returns
            {P = λ freed. LoadChain s.caches p (p ∷ freed) × (is_freed p freed ≡ false)} c.load_from
            (λ nothing. returns (end at nothing, refl))
            (λ q next.
              let (lt, in_q) = (valid.linked p c at).load_from q next in
              weaken (dealloc-chain fuel q in_q (omega arith))
                (λ freed k. (link at next lt k, not_in_chain p k lt))))
          (λ freed k. rw k.1 (returns k.0)))

  -- In a valid hierarchy `dealloc_cacheSim` returns, with as many nested calls as there are caches at most. It
  -- has then freed each cache that `load_from` leads to from the given one on, the given one the last, and
  -- none of them twice or after it was freed; it frees no cache that only `store_to` or `victims_to` leads to.
  pub dealloc-LoadChain :
      (p : ℕ) → p < size → Returns (LoadChain s.caches p) (dealloc size s.caches [] p)
  dealloc-LoadChain p inside = dealloc-chain size p inside (omega arith)

  print_stats-chain :
      ((q : ℕ) (c : Cache) → get_elem? s.caches q ≡ some c → c.store_to ≡ c.load_from)
      → (fuel p : ℕ) → p < size
      → size ≤ p + fuel
      → Returns (ChainReports s.caches p) (print_stats fuel s.caches p)
  unfolding print_stats
  print_stats-chain same zero p inside h = absurd (omega arith)
  print_stats-chain same (suc fuel) p inside h =
      let (c, at) = get_elem?_of_lt s.caches p (omega (arith, valid.count)) in
      let no_store = store_link-none c (same p c at) in
      let no_victims = victims_link-none c (same p c at) in
      rw at (
        bind
          (option_case-Returns
            {P = λ loads.
              (ps : List ℕ) × LoadChain s.caches p (p ∷ ps) × AreReports s.caches ps loads}
            c.load_from (λ nothing. returns ([], end at nothing, no_reports))
            (λ q next.
              let (lt, in_q) = (valid.linked p c at).load_from q next in
              weaken (print_stats-chain same fuel q in_q (omega arith))
                (λ loads (ps, chain, reports). (ps, link at next lt chain, reports))))
          (λ loads (ps, chain, reports).
            rw (no_store, no_victims, append-nil loads)
              (returns (p ∷ ps, chain, and_more at reports))))

  -- In a valid hierarchy in which each cache stores to the cache that it loads from, `printStats` returns,
  -- with as many nested calls as there are caches at most, and prints each cache that `load_from`
  -- leads to from the given one on, once and in this order, and no other: no victim cache.
  pub print_stats-ChainReports :
      ((q : ℕ) (c : Cache) → get_elem? s.caches q ≡ some c → c.store_to ≡ c.load_from)
      → (p : ℕ) → p < size
      → Returns (ChainReports s.caches p) (print_stats size s.caches p)
  print_stats-ChainReports same p inside = print_stats-chain same size p inside (omega arith)
