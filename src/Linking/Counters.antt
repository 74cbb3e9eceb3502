-- ===== src/Linking/Counters.antt =====
-- The counters that the linking of the caches leaves: how often each cache is referred to.
use pycachesim.CString.{Text}
use mathlib.Core.Option.{some-injective}
use pycachesim.Base.{
  ℕ, zero, suc, ◌+◌, ◌≤◌, ◌<◌, ◌≡◌, refl, ap, ◌∙◌, Bool, true, false, Option, some, List, [], ◌∷◌,
  arith, ◌==◌, if◌then◌else◌, length, replicate, length-replicate, get_elem?, get_elem?_of_lt,
  get_elem?-set, length-set, option_case, Returns, returns, bind, weaken,
}
use pycachesim.Linking.{
  CacheDef, Links, no_links, refers, increment, increment_if, link_pair, link_row, link_rows,
}

abbrev pub value : List ℕ → ℕ → ℕ
value counters k = option_case (get_elem? counters k) 0 (λ n. n)

-- 1 for a link by that name.
abbrev pub one_if : Bool → ℕ
one_if b = if b then 1 else 0

-- The links of a cache to a name, and those of all caches.
abbrev pub links_to : CacheDef → Option Text → ℕ
links_to d name =
    one_if (refers d.load_from name)
    + one_if (refers d.store_to name)
    + one_if (refers d.victims_to name)

abbrev pub references : List CacheDef → Option Text → ℕ
references [] name = 0
references (d ∷ rest) name = links_to d name + references rest name

-- Counters of the same number, where the one at `k` is greater by `more k`.
pub record IsMore (before : List ℕ) (more : ℕ → ℕ) (after : List ℕ) : Type 0 where
  pub size : length after ≡ length before
  pub values : (k : ℕ) → value after k ≡ value before k + more k

IsMore-trans :
    {a b c : List ℕ} {f g h : ℕ → ℕ}
    → IsMore a f b
    → IsMore b g c
    → ((k : ℕ) → h k ≡ f k + g k)
    → IsMore a h c
IsMore-trans m n sum = record {
  size = n.size ∙ m.size;
  values = λ k. omega (arith, m.values k, n.values k, sum k);
}

pub increment_if-IsMore :
    (b : Bool) (counters : List ℕ) (j : ℕ)
    → j < length counters
    → Returns (IsMore counters (λ k. if j == k then one_if b else 0)) (increment_if b counters j)
unfolding increment_if increment
increment_if-IsMore false counters j lt =
    returns (record { size = refl; values = λ k. ground arith })
increment_if-IsMore true counters j lt =
    let (n, at) = get_elem?_of_lt counters j lt in
    rw at (
      returns (record {
        size = length-set counters j (n + 1);
        values = λ k. ground (arith, get_elem?-set counters j k (n + 1) lt);
      }))

pub link_pair-IsMore :
    (d : CacheDef) (name : Option Text) (j : ℕ) (links : Links) (counters : List ℕ)
    → j < length counters
    → Returns
        (λ r. IsMore counters (λ k. if j == k then links_to d name else 0) r.1)
        (link_pair d name j links counters)
unfolding link_pair
link_pair-IsMore d name j links counters lt =
    bind (increment_if-IsMore (refers d.load_from name) counters j lt) (λ c₁ m₁.
      let size₁ = m₁.size in
      bind (increment_if-IsMore (refers d.store_to name) c₁ j (omega arith)) (λ c₂ m₂.
        let size₂ = m₂.size in
        bind (increment_if-IsMore (refers d.victims_to name) c₂ j (omega arith)) (λ c₃ m₃. returns (
          IsMore-trans
            (IsMore-trans
              {h = λ k.
                if j == k
                then one_if (refers d.load_from name) + one_if (refers d.store_to name)
                else 0}
              m₁ m₂ (λ k. ground arith))
            m₃ (λ k. ground arith)))))

-- The links of `d` to the cache `k`, among those from `j` on.
abbrev pub row : CacheDef → List CacheDef → ℕ → ℕ → ℕ
row d [] j k = 0
row d (e ∷ rest) j k = (if j == k then links_to d e.name else 0) + row d rest (j + 1) k

pub link_row-IsMore :
    (d : CacheDef) (defs : List CacheDef) (j : ℕ) (links : Links) (counters : List ℕ)
    → j + length defs ≤ length counters
    → Returns (λ r. IsMore counters (row d defs j) r.1) (link_row d defs j links counters)
unfolding link_row
link_row-IsMore d [] j links counters h =
    returns (record { size = refl; values = λ k. omega arith })
link_row-IsMore d (e ∷ rest) j links counters h =
    bind (link_pair-IsMore d e.name j links counters (omega arith)) (λ (l, c) m.
      let size = m.size in
      weaken (link_row-IsMore d rest (j + 1) l c (omega arith))
        (λ r m'. IsMore-trans m m' (λ k. refl)))

row-absent : (d : CacheDef) (defs : List CacheDef) (j k : ℕ) → k < j → row d defs j k ≡ 0
row-absent d [] j k h = refl
row-absent d (e ∷ rest) j k h = ground (arith, row-absent d rest (j + 1) k (omega arith))

row-links_to :
    (d e : CacheDef) (defs : List CacheDef) (j i : ℕ)
    → get_elem? defs i ≡ some e
    → row d defs j (j + i) ≡ links_to d e.name
row-links_to d e [] j i at = cc
row-links_to d e (x ∷ rest) j zero at =
    let none_left = row-absent d rest (j + 1) (j + 0) (omega arith) in
    let same : links_to d x.name ≡ links_to d e.name =
      ap (λ y. links_to d y.name) (some-injective _ _ at) in
    ground arith
row-links_to d e (x ∷ rest) j (suc i) at =
    let same : j + suc i ≡ j + 1 + i = omega arith in
    let later = row-links_to d e rest (j + 1) i at in rw same (ground arith)

abbrev rows : List CacheDef → List CacheDef → ℕ → ℕ
rows defs [] k = 0
rows defs (d ∷ rest) k = row d defs 0 k + rows defs rest k

link_rows-IsMore :
    (defs todo : List CacheDef) (counters : List ℕ)
    → length defs ≤ length counters
    → Returns (λ r. IsMore counters (rows defs todo) r.1) (link_rows defs todo counters)
unfolding link_rows
link_rows-IsMore defs [] counters h = returns (record { size = refl; values = λ k. omega arith })
link_rows-IsMore defs (d ∷ rest) counters h =
    bind (link_row-IsMore d defs 0 no_links counters (omega arith)) (λ (l, c) m.
      let size = m.size in
      bind (link_rows-IsMore defs rest c (omega arith))
        (λ (others, c') m'. returns (IsMore-trans m m' (λ k. refl))))

rows-references :
    (defs todo : List CacheDef) (e : CacheDef) (k : ℕ)
    → get_elem? defs k ≡ some e
    → rows defs todo k ≡ references todo e.name
rows-references defs [] e k at = refl
rows-references defs (d ∷ rest) e k at =
    let start : 0 + k ≡ k = omega arith in
    let here : row d defs 0 k ≡ links_to d e.name = rw start at (row-links_to d e defs 0 k at) in
    let later = rows-references defs rest e k at in omega arith

pub zeros-length : (n : ℕ) → length {A = ℕ} (replicate n 0) ≡ n
zeros-length n = length-replicate n 0

zeros-value : (n k : ℕ) → value (replicate n 0) k ≡ 0
zeros-value zero k = refl
zeros-value (suc n) zero = refl
zeros-value (suc n) (suc k) = zeros-value n k

-- After all rounds each cache's counter is the number of links to its name.
pub link_rows-references :
    (defs : List CacheDef)
    → Returns
        (λ r.
          (length r.1 ≡ length defs)
          × ((k : ℕ) (e : CacheDef)
              → get_elem? defs k ≡ some e
              → value r.1 k ≡ references defs e.name))
        (link_rows defs defs (replicate (length defs) 0))
link_rows-references defs =
    let size = zeros-length (length defs) in
    weaken
      (link_rows-IsMore defs defs (replicate (length defs) 0)
        (omega (arith, zeros-length (length defs))))
      (λ r m. (
        m.size ∙ size,
        λ k e at.
            m.values k
            ∙ omega (arith, zeros-value (length defs) k, rows-references defs defs e k at),
      ))
