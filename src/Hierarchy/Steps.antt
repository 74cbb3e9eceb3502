-- ===== src/Hierarchy/Steps.antt =====
-- Sequences of changes to the caches of a hierarchy, and what every sequence keeps.
use mathlib.Core.Option.{some-injective}
use native.Mathlib.Decide.{ℕ_discrete}
use pycachesim.Base.{
  ℕ, ◌≤◌, ◌<◌, ◌≡◌, ◌⊎◌, inl, inr, refl, sym, ap, ◌∙◌, Option, some, arith, length, get_elem?,
  length-set, get_elem?-set_self, get_elem?-set_ne, lt_of_get_elem?, get_elem?_of_lt,
}
use pycachesim.Cache.{Cache}
use pycachesim.Hierarchy.{Sim, put}
use pycachesim.Hierarchy.Local.{Local, config, Local-config, Local-HasShape}
use pycachesim.Replace.Shape.{HasShape}

-- The links of the cache `p` lead to caches behind it in the list of `n` caches.
abbrev pub LinkIn : ℕ → ℕ → Option ℕ → Type 0
LinkIn n p link = (q : ℕ) → link ≡ some q → (p < q) × (q < n)

pub record IsLinked (n p : ℕ) (c : Cache) : Type 0 where
  pub load_from : LinkIn n p c.load_from
  pub store_to : LinkIn n p c.store_to
  pub victims_to : LinkIn n p c.victims_to

-- A hierarchy of `size` caches in shape.
pub record IsValid (size : ℕ) (s : Sim) : Type 0 where
  pub count : length s.caches ≡ size
  pub shape : (p : ℕ) (c : Cache) → get_elem? s.caches p ≡ some c → HasShape c
  pub linked : (p : ℕ) (c : Cache) → get_elem? s.caches p ≡ some c → IsLinked size p c

-- Changes of caches from the index `p` on, and calls of rand().
pub data Steps (p : ℕ) (s : Sim) : Sim → Type 0 where
  done : Steps p s s
  drawn : {t : Sim} (n : ℕ) → Steps p s t → Steps p s (record t { draws = n })
  step :
      {t : Sim} {q : ℕ} {c c' : Cache}
      → Steps p s t
      → p ≤ q
      → get_elem? t.caches q ≡ some c
      → Local c c'
      → Steps p s (put t q c')

pub Steps-trans : {p : ℕ} {s t u : Sim} → Steps p s t → Steps p t u → Steps p s u
Steps-trans r done = r
Steps-trans r (drawn n r') = drawn n (Steps-trans r r')
Steps-trans r (step r' h at l) = step (Steps-trans r r') h at l

pub Steps-weaken : {p q : ℕ} {s t : Sim} → p ≤ q → Steps q s t → Steps p s t
Steps-weaken h done = done
Steps-weaken h (drawn n r) = drawn n (Steps-weaken h r)
Steps-weaken h (step r h' at l) = step (Steps-weaken h r) (omega arith) at l

pub one :
    {p q : ℕ} {s : Sim} {c c' : Cache}
    → p ≤ q
    → get_elem? s.caches q ≡ some c
    → Local c c'
    → Steps p s (put s q c')
one h at l = step done h at l

pub Steps-length : {p : ℕ} {s t : Sim} → Steps p s t → length t.caches ≡ length s.caches
Steps-length done = refl
Steps-length (drawn n r) = Steps-length r
Steps-length (step {t} {q} {c'} r h at l) = length-set t.caches q c' ∙ Steps-length r

-- The caches in front of `p` have not changed.
pub Steps-frame :
    {p : ℕ} {s t : Sim} (q : ℕ) → Steps p s t → q < p → get_elem? t.caches q ≡ get_elem? s.caches q
Steps-frame q done lt = refl
Steps-frame q (drawn n r) lt = Steps-frame q r lt
Steps-frame q (step {t} {q = q'} {c'} r h at l) lt =
    get_elem?-set_ne t.caches q' q c' (omega arith) ∙ Steps-frame q r lt

-- What a change at one index leaves at another.
pub at_put :
    (s : Sim) {q : ℕ} {c c' : Cache} (k : ℕ) {x : Cache}
    → get_elem? s.caches q ≡ some c
    → get_elem? (put s q c').caches k ≡ some x
    → (get_elem? s.caches k ≡ some x) ⊎ ((k ≡ q) × (x ≡ c'))
at_put s {q} {c'} k at here = elim (ℕ_discrete k q) [
  | yes p ↦
      let lt = lt_of_get_elem? s.caches q at in
      inr (p, ground (arith, get_elem?-set_self s.caches q c' lt))
  | no p ↦ inl (sym (get_elem?-set_ne s.caches q k c' (λ e. p (sym e))) ∙ here)
]

-- A property that each local change keeps holds of every cache at the end of a sequence.
pub Steps-invariant :
    (P : Cache → Type 0) {p : ℕ} {s t : Sim}
    → ((c c' : Cache) → Local c c' → P c → P c')
    → Steps p s t
    → ((q : ℕ) (c : Cache) → get_elem? s.caches q ≡ some c → P c)
    → (q : ℕ) (c : Cache) → get_elem? t.caches q ≡ some c
    → P c
Steps-invariant P keep done all q c at = all q c at
Steps-invariant P keep (drawn n r) all q c at = Steps-invariant P keep r all q c at
Steps-invariant P keep (step {t} {q = k} {c = old} {c' = new} r h here l) all q c at =
    elim (at_put t {c' = new} q here at) [
      | inl same ↦ Steps-invariant P keep r all q c same
      | inr (e, new_is) ↦ rw new_is (keep old new l (Steps-invariant P keep r all k old here))
    ]

-- Each cache is still there, with its configuration.
pub Steps-config :
    {p : ℕ} {s t : Sim} (q : ℕ) (c : Cache)
    → Steps p s t
    → get_elem? s.caches q ≡ some c
    → (c' : Cache) × (get_elem? t.caches q ≡ some c') × (config c' ≡ config c)
Steps-config q c done at = (c, at, refl)
Steps-config q c (drawn n r) at = Steps-config q c r at
Steps-config q c (step {t} {q = k} {c = old} {c' = new} r h here l) at =
    let (x, at', same) = Steps-config q c r at in
    elim (ℕ_discrete q k) [
      | yes e ↦
          let lt = lt_of_get_elem? t.caches k here in
          let at_k : get_elem? t.caches k ≡ some x = ap (get_elem? t.caches) (sym e) ∙ at' in
          let same_cache : old ≡ x = some-injective _ _ (sym here ∙ at_k) in
          (
            new,
            rw e (get_elem?-set_self t.caches k new lt),
            Local-config l ∙ ap config same_cache ∙ same,
          )
      | no e ↦ (x, get_elem?-set_ne t.caches k q new (λ e'. e (sym e')) ∙ at', same)
    ]

-- The configuration that a cache has at the end is the one that it had.
pub Steps-config_back :
    {p : ℕ} {s t : Sim} (q : ℕ) (c' : Cache)
    → Steps p s t
    → get_elem? t.caches q ≡ some c'
    → (c : Cache) × (get_elem? s.caches q ≡ some c) × (config c' ≡ config c)
Steps-config_back {s} {t} q c' r at =
    let lt = lt_of_get_elem? t.caches q at in
    let (c, at₀) = get_elem?_of_lt s.caches q (omega (arith, Steps-length r)) in
    let (x, at', same) = Steps-config q c r at₀ in
    let e : c' ≡ x = some-injective _ _ (sym at ∙ at') in (c, at₀, ap config e ∙ same)

pub own-config :
    {p : ℕ} {s t : Sim} (q : ℕ) (c own : Cache)
    → Steps p s t
    → get_elem? s.caches q ≡ some c
    → get_elem? t.caches q ≡ some own
    → config own ≡ config c
own-config q c own r at at' =
    let (x, at_x, same) = Steps-config q c r at in
    let e : own ≡ x = some-injective _ _ (sym at' ∙ at_x) in ap config e ∙ same

pub IsLinked-config :
    {n p : ℕ} {c c' : Cache} → config c' ≡ config c → IsLinked n p c → IsLinked n p c'
IsLinked-config e l = record {
  load_from = λ q h. l.load_from q (sym (ap (λ x. x.load_from) e) ∙ h);
  store_to = λ q h. l.store_to q (sym (ap (λ x. x.store_to) e) ∙ h);
  victims_to = λ q h. l.victims_to q (sym (ap (λ x. x.victims_to) e) ∙ h);
}

-- Sequences of changes keep the arrays and the links in order.
pub Steps-IsValid : {size p : ℕ} {s t : Sim} → Steps p s t → IsValid size s → IsValid size t
Steps-IsValid {s} {t} r v = record {
  count = Steps-length r ∙ v.count;
  shape = Steps-invariant HasShape (λ c c' l h. Local-HasShape l h) r v.shape;
  linked = λ q c at.
      let (c₀, at₀, same) = Steps-config_back q c r at in IsLinked-config same (v.linked q c₀ at₀);
}
