-- ===== src/Linking/First.antt =====
-- The choice of the first level at the end of `get_cacheSim_from_file`.
use mathlib.Core.Path.{subst}
use native.Mathlib.Decide.{ℕ_discrete}
use pycachesim.Base.{
  ℕ, zero, suc, ◌+◌, ◌<◌, ◌≡◌, ◌≢◌, sym, ap, ◌∙◌, Option, none, some, List, [], ◌∷◌, arith, length,
  get_elem?, get_elem?_of_lt, lt_of_get_elem?, option_case, Returns, returns, bind,
}
use pycachesim.Linking.{
  CacheDef, FirstLevel, first_level, unconnected, no_first_level, find_first_level, link_caches,
}
use pycachesim.Linking.Counters.{value, references, link_rows-references}

-- What the search from `i` on says of the `n` numbers that `count` gives from there, if the one at
-- `found` was 0 and no other before `i`.
data Searched (count : ℕ → ℕ) (n : ℕ) : FirstLevel → Type 0 where
  only_one :
      {p : ℕ}
      → p < n
      → count p ≡ 0
      → ((k : ℕ) → k < n → count k ≡ 0 → k ≡ p)
      → Searched count n (first_level p)
  two : {p q : ℕ} → p < n → q < n → p ≢ q → count p ≡ 0 → count q ≡ 0 → Searched count n unconnected
  all_named : ((k : ℕ) → k < n → count k ≢ 0) → Searched count n no_first_level

-- The zero that was found before `i`, or none.
SoFar : (ℕ → ℕ) → ℕ → Option ℕ → Type 0
SoFar count i none = (k : ℕ) → k < i → count k ≢ 0
SoFar count i (some p) = (p < i) × (count p ≡ 0) × ((k : ℕ) → k < i → count k ≡ 0 → k ≡ p)

module _ (count : ℕ → ℕ) where
  none_before : SoFar count 0 none
  unfolding SoFar
  none_before k lt = absurd (omega arith)

  later :
      {n : ℕ} (i : ℕ) (rest : List ℕ)
      → ((k : ℕ) → k < suc (length rest) → value (n ∷ rest) k ≡ count (i + k))
      → (k : ℕ) → k < length rest
      → value rest k ≡ count (i + 1 + k)
  later i rest same k lt = same (suc k) (omega arith) ∙ ap count (omega arith)

  longer :
      (rest : List ℕ) (i : ℕ) {r : FirstLevel}
      → Searched count (i + 1 + length rest) r
      → Searched count (i + suc (length rest)) r
  longer rest i {r} found = subst (λ n. Searched count n r) (omega arith) found

  search :
      (counters : List ℕ) (i : ℕ) (found : Option ℕ)
      → ((k : ℕ) → k < length counters → value counters k ≡ count (i + k))
      → SoFar count i found
      → Searched count (i + length counters) (find_first_level counters i found)
  unfolding find_first_level SoFar
  search [] i none same before = all_named (λ k lt. before k (omega arith))
  search [] i (some p) same (lt, is, only) = only_one (omega arith) is (λ k h. only k (omega arith))
  search (zero ∷ rest) i none same before =
      let here : count i ≡ 0 = ap count (omega arith) ∙ sym (same 0 (omega arith)) in
      longer rest i (
        search rest (i + 1) (some i) (later i rest same) (
          omega arith,
          here,
          λ k lt z. elim (ℕ_discrete k i) [ yes e ↦ e | no ne ↦ absurd (before k (omega arith) z) ],
        ))
  search (zero ∷ rest) i (some p) same (lt, is, only) =
      let here : count i ≡ 0 = ap count (omega arith) ∙ sym (same 0 (omega arith)) in
      two (omega arith) (omega arith) (λ e. absurd (omega arith)) is here
  search (suc n ∷ rest) i none same before =
      let here : count i ≡ suc n = ap count (omega arith) ∙ sym (same 0 (omega arith)) in
      longer rest i (
        search rest (i + 1) none (later i rest same) (λ k lt z. elim (ℕ_discrete k i) [
          | yes e ↦ let z' = ap count (sym e) ∙ z in omega arith
          | no ne ↦ before k (omega arith) z
        ]))
  search (suc n ∷ rest) i (some p) same (lt, is, only) =
      let here : count i ≡ suc n = ap count (omega arith) ∙ sym (same 0 (omega arith)) in
      longer rest i (
        search rest (i + 1) (some p) (later i rest same) (
          omega arith,
          is,
          λ k lt' z. elim (ℕ_discrete k i) [
            | yes e ↦ let z' = ap count (sym e) ∙ z in absurd (omega arith)
            | no ne ↦ only k (omega arith) z
          ],
        ))

-- How often the cache of an index is named.
abbrev named : List CacheDef → ℕ → ℕ
named defs k = option_case (get_elem? defs k) 0 (λ e. references defs e.name)

-- The first level is the only cache that no cache names; without one, each is named; and the caches are
-- not connected if two are not named.
pub data IsFirst (defs : List CacheDef) : FirstLevel → Type 0 where
  the_one :
      {p : ℕ} {d : CacheDef}
      → get_elem? defs p ≡ some d
      → references defs d.name ≡ 0
      → ((k : ℕ) (e : CacheDef) → get_elem? defs k ≡ some e → references defs e.name ≡ 0 → k ≡ p)
      → IsFirst defs (first_level p)
  several :
      {p q : ℕ} {d e : CacheDef}
      → p ≢ q
      → get_elem? defs p ≡ some d
      → get_elem? defs q ≡ some e
      → references defs d.name ≡ 0
      → references defs e.name ≡ 0
      → IsFirst defs unconnected
  none_left :
      ((k : ℕ) (e : CacheDef) → get_elem? defs k ≡ some e → references defs e.name ≢ 0)
      → IsFirst defs no_first_level

Searched-IsFirst :
    (defs : List CacheDef) (r : FirstLevel) → Searched (named defs) (length defs) r → IsFirst defs r
Searched-IsFirst defs _ (only_one {p} lt z only) =
    let (d, at) = get_elem?_of_lt defs p lt in
    the_one at (rw at at z) (λ k e at_k z'. only k (lt_of_get_elem? defs k at_k) (rw at_k z'))
Searched-IsFirst defs _ (two {p} {q} lt lt' ne z z') =
    let (d, at) = get_elem?_of_lt defs p lt in
    let (e, at') = get_elem?_of_lt defs q lt' in several ne at at' (rw at at z) (rw at' at z')
Searched-IsFirst defs _ (all_named all) =
    none_left (λ k e at z. all k (lt_of_get_elem? defs k at) (rw at z))

-- The linking returns, and it chooses the only cache whose name is in no link as the first level; it
-- exits if there are two such caches, or if there is none.
pub link_caches-IsFirst :
    (defs : List CacheDef) → Returns (λ r. IsFirst defs r.1) (link_caches defs)
unfolding link_caches
link_caches-IsFirst defs = bind (link_rows-references defs) (λ (links, counters) (size, values).
    returns (
      Searched-IsFirst defs _ (
        subst (λ n. Searched (named defs) n (find_first_level counters 0 none)) (total size)
          (search (named defs) counters 0 none (same counters size values)
            (none_before (named defs))))))
  where
    total : {n : ℕ} → n ≡ length defs → 0 + n ≡ length defs
    total e = omega arith

    same :
        (counters : List ℕ)
        → length counters ≡ length defs
        → ((k : ℕ) (e : CacheDef)
            → get_elem? defs k ≡ some e
            → value counters k ≡ references defs e.name)
        → (k : ℕ) → k < length counters
        → value counters k ≡ named defs (0 + k)
    same counters size values k lt =
        let (e, at) = get_elem?_of_lt defs k (omega arith) in
        let start : 0 + k ≡ k = omega arith in rw (start, at) (values k e at)
