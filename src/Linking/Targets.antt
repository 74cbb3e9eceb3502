-- ===== src/Linking/Targets.antt =====
-- Where the links of each cache lead after the linking.
use pycachesim.CString.{Text}
use mathlib.Core.Option.{some-injective}
use mathlib.Core.Path.{subst}
use pycachesim.Base.{
  ℕ, zero, suc, ◌+◌, ◌≤◌, ◌<◌, ◌≡◌, ◌⊎◌, inl, inr, refl, sym, ap, ◌∙◌, true, false, Bool-cases,
  Option, some, List, [], ◌∷◌, arith, length, replicate, get_elem?, if◌then◌else◌, Returns, returns,
  bind, weaken,
}
use pycachesim.Linking.{
  CacheDef, Links, no_links, refers, link_pair, link_row, link_rows, link_caches,
}
use pycachesim.Linking.Counters.{zeros-length, increment_if-IsMore}

-- The three fields after one round.
abbrev updated : CacheDef → Option Text → ℕ → Links → Links
updated d name j links = record {
  load_from = if refers d.load_from name then some j else links.load_from;
  store_to = if refers d.store_to name then some j else links.store_to;
  victims_to = if refers d.victims_to name then some j else links.victims_to;
}

link_pair-updated :
    (d : CacheDef) (name : Option Text) (j : ℕ) (links : Links) (counters : List ℕ)
    → j < length counters
    → Returns
        (λ r. (r.0 ≡ updated d name j links) × (length r.1 ≡ length counters))
        (link_pair d name j links counters)
unfolding link_pair
link_pair-updated d name j links counters lt =
    bind (increment_if-IsMore (refers d.load_from name) counters j lt) (λ c₁ m₁.
      let size₁ = m₁.size in
      bind (increment_if-IsMore (refers d.store_to name) c₁ j (omega arith)) (λ c₂ m₂.
        let size₂ = m₂.size in
        bind (increment_if-IsMore (refers d.victims_to name) c₂ j (omega arith))
          (λ c₃ m₃. returns (refl, m₃.size ∙ m₂.size ∙ m₁.size))))

-- The link by the name `link` among the caches from the index `j` on: to the last one of that name, or what it
-- was before, if there is none of that name.
abbrev pub Linked : Option Text → List CacheDef → ℕ → Option ℕ → Option ℕ → Type 0
Linked link defs j before after =
    ((i : ℕ) × (e : CacheDef) × (get_elem? defs i ≡ some e)
      × (refers link e.name ≡ true)
      × ((k : ℕ) (x : CacheDef) → get_elem? defs k ≡ some x → i < k → refers link x.name ≡ false)
      × (after ≡ some (j + i)))
    ⊎ (((i : ℕ) (e : CacheDef) → get_elem? defs i ≡ some e → refers link e.name ≡ false)
        × (after ≡ before))

Linked-suc :
    (link : Option Text) (e : CacheDef) (rest : List CacheDef) (j : ℕ) (before after : Option ℕ)
    → Linked link rest (j + 1) (if refers link e.name then some j else before) after
    → Linked link (e ∷ rest) j before after
Linked-suc link e rest j before after (inl (i, x, at, named, last, is)) =
    let index : j + 1 + i ≡ j + suc i = omega arith in
    inl (suc i, x, at, named, later, is ∙ ap some index)
  where
    later :
        (k : ℕ) (y : CacheDef)
        → get_elem? (e ∷ rest) k ≡ some y
        → suc i < k
        → refers link y.name ≡ false
    later zero y at_y lt = absurd (omega arith)
    later (suc k) y at_y lt = last k y at_y (omega arith)
Linked-suc link e rest j before after (inr (none_named, is)) =
    elim (Bool-cases (refers link e.name)) [
      | inl on ↦
          let index : j ≡ j + 0 = omega arith in
          inl
            (0, e, refl, on, behind, is ∙ ap (λ b. if b then some j else before) on ∙ ap some index)
      | inr off ↦ inr (not_here off, is ∙ ap (λ b. if b then some j else before) off)
    ]
  where
    behind :
        (k : ℕ) (y : CacheDef)
        → get_elem? (e ∷ rest) k ≡ some y
        → 0 < k
        → refers link y.name ≡ false
    behind zero y at_y lt = absurd (omega arith)
    behind (suc k) y at_y lt = none_named k y at_y

    not_here :
        refers link e.name ≡ false
        → (i : ℕ) (x : CacheDef) → get_elem? (e ∷ rest) i ≡ some x
        → refers link x.name ≡ false
    not_here off zero x at = ap (λ y. refers link y.name) (sym (some-injective _ _ at)) ∙ off
    not_here off (suc i) x at = none_named i x at

pub record RowLinked (d : CacheDef) (defs : List CacheDef) (j : ℕ) (before after : Links)
    : Type 0 where
  pub load_from : Linked d.load_from defs j before.load_from after.load_from
  pub store_to : Linked d.store_to defs j before.store_to after.store_to
  pub victims_to : Linked d.victims_to defs j before.victims_to after.victims_to

link_row-RowLinked :
    (d : CacheDef) (defs : List CacheDef) (j : ℕ) (links : Links) (counters : List ℕ)
    → j + length defs ≤ length counters
    → Returns
        (λ r. RowLinked d defs j links r.0 × (length r.1 ≡ length counters))
        (link_row d defs j links counters)
unfolding link_row
link_row-RowLinked d [] j links counters h = returns (
  record {
    load_from = inr ((λ i e at. cc), refl);
    store_to = inr ((λ i e at. cc), refl);
    victims_to = inr ((λ i e at. cc), refl);
  },
  refl,
)
link_row-RowLinked d (e ∷ rest) j links counters h =
    bind (link_pair-updated d e.name j links counters (omega arith)) (λ (l, c) (is, size).
      weaken (link_row-RowLinked d rest (j + 1) l c (omega arith)) (λ r (k, size').
        let k' : RowLinked d rest (j + 1) (updated d e.name j links) r.0 =
          subst (λ x. RowLinked d rest (j + 1) x r.0) is k in
        (
          record {
            load_from = Linked-suc d.load_from e rest j links.load_from r.0.load_from k'.load_from;
            store_to = Linked-suc d.store_to e rest j links.store_to r.0.store_to k'.store_to;
            victims_to =
                Linked-suc d.victims_to e rest j links.victims_to r.0.victims_to k'.victims_to;
          },
          size' ∙ size,
        )))

-- Each cache has its links.
unfoldable pub AllLinked : List CacheDef → List CacheDef → List Links → Type 0
AllLinked defs todo links =
    (length links ≡ length todo)
    × ((i : ℕ) (d : CacheDef) (l : Links)
        → get_elem? todo i ≡ some d
        → get_elem? links i ≡ some l
        → RowLinked d defs 0 no_links l)

link_rows-AllLinked :
    (defs todo : List CacheDef) (counters : List ℕ)
    → length defs ≤ length counters
    → Returns (λ r. AllLinked defs todo r.0) (link_rows defs todo counters)
unfolding link_rows AllLinked
link_rows-AllLinked defs [] counters h = returns (refl, λ i d l at at'. cc)
link_rows-AllLinked defs (d ∷ rest) counters h =
    bind (link_row-RowLinked d defs 0 no_links counters (omega arith)) (λ (l, c) (k, size).
      bind (link_rows-AllLinked defs rest c (omega arith))
        (λ (others, c') (count, all). returns (ap suc count, each others k all)))
  where
    each :
        (others : List Links) {l : Links}
        → RowLinked d defs 0 no_links l
        → ((i : ℕ) (x : CacheDef) (y : Links)
            → get_elem? rest i ≡ some x
            → get_elem? others i ≡ some y
            → RowLinked x defs 0 no_links y)
        → (i : ℕ) (x : CacheDef) (y : Links) → get_elem? (d ∷ rest) i ≡ some x
        → get_elem? (l ∷ others) i ≡ some y
        → RowLinked x defs 0 no_links y
    each others {l} k all zero x y at at' =
        subst (λ z. RowLinked z defs 0 no_links y) (some-injective _ _ at)
          (subst (λ z. RowLinked d defs 0 no_links z) (some-injective _ _ at') k)
    each others k all (suc i) x y at at' = all i x y at at'

-- The linking returns with the links of each cache: a link that a definition gives by name leads to the
-- last cache of that name, or to none if no cache has that name.
pub link_caches-AllLinked :
    (defs : List CacheDef) → Returns (λ r. AllLinked defs defs r.0) (link_caches defs)
unfolding link_caches
link_caches-AllLinked defs =
    bind
      (link_rows-AllLinked defs defs (replicate (length defs) 0)
        (omega (arith, zeros-length (length defs))))
      (λ (links, counters) all. returns all)
