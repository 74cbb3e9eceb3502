-- ===== src/Hierarchy/Inclusion.antt =====
-- The textbook LRU caches of two sizes: what a cache of fewer ways holds is in front of what one of more
-- ways holds, so that the larger one has each hit of the smaller one.
use pycachesim.Base.{
  ℕ, zero, suc, ◌+◌, ◌%◌, ◌≤◌, ◌≡◌, inl, inr, refl, sym, ap, ◌∙◌, true, false, Bool-cases, List, [],
  ◌∷◌, arith, ◌==◌, take,
}
use pycachesim.Hierarchy.Reference.{Model, touch, use_line, use_lines, use_range, use_ranges}
use pycachesim.Replace.Packed.{mem, remove}

-- A textbook cache whose sets are the first `ways` lines of those of another one, with no more hits and
-- no fewer misses.
pub record IsPart (ways : ℕ) (m m' : Model) : Type 0 where
  pub sets : (k : ℕ) → m.sets k ≡ take ways (m'.sets k)
  pub hits : m.hits ≤ m'.hits
  pub misses : m'.misses ≤ m.misses

take-take : (n m : ℕ) (q : List ℕ) → n ≤ m → take n (take m q) ≡ take n q
take-take zero m q le = refl
take-take (suc n) zero q le = absurd (omega arith)
take-take (suc n) (suc m) [] le = refl
take-take (suc n) (suc m) (x ∷ q) le = ap (◌∷◌ x) (take-take n m q (omega arith))

mem-take : (l n : ℕ) (q : List ℕ) → mem l (take n q) ≡ true → mem l q ≡ true
mem-take l zero q there = cc
mem-take l (suc n) [] there = cc
mem-take l (suc n) (x ∷ q) there = ground (arith, mem-take l n q)

remove-take :
    (l n : ℕ) (q : List ℕ)
    → mem l (take (suc n) q) ≡ true
    → remove l (take (suc n) q) ≡ take n (remove l q)
remove-take l n [] there = cc
remove-take l zero (x ∷ q) there = ground arith
remove-take l (suc n) (x ∷ q) there = ground (arith, remove-take l n q)

-- A line that is not among the first ones is removed behind them.
take-remove :
    (l n : ℕ) (q : List ℕ)
    → mem l (take (suc n) q) ≡ false
    → take n (remove l q) ≡ take n (take (suc n) q)
take-remove l zero q absent = refl
take-remove l (suc n) [] absent = refl
take-remove l (suc n) (x ∷ q) absent = ground (arith, take-remove l n q)

take-cons : (n l : ℕ) (q : List ℕ) → take n (l ∷ take n q) ≡ take n (l ∷ q)
take-cons zero l q = refl
take-cons (suc n) l q = ap (◌∷◌ l) (take-take n (suc n) q (omega arith))

module _ (count n ways ways' : ℕ) (some_ways : ways ≡ suc n) (fewer : ways ≤ ways') where
  touch-hit :
      (l : ℕ) (q : List ℕ)
      → mem l (take ways q) ≡ true
      → l ∷ remove l (take ways q) ≡ take ways (l ∷ remove l q)
  touch-hit l q there =
      let there' : mem l (take (suc n) q) ≡ true =
        ap (λ w. mem l (take w q)) (sym some_ways) ∙ there in
      rw some_ways (ap (◌∷◌ l) (remove-take l n q there'))

  touch-late :
      (l : ℕ) (q : List ℕ)
      → mem l (take ways q) ≡ false
      → take ways (l ∷ take ways q) ≡ take ways (l ∷ remove l q)
  touch-late l q absent =
      let absent' : mem l (take (suc n) q) ≡ false =
        ap (λ w. mem l (take w q)) (sym some_ways) ∙ absent in
      rw some_ways (ap (◌∷◌ l) (sym (take-remove l n q absent')))

  -- The first lines after an access, whether both caches hold the line, the larger one, or none.
  touch-take :
      (l : ℕ) (q : List ℕ)
      → touch true count ways l (take ways q) ≡ take ways (touch true count ways' l q)
  unfolding touch
  touch-take l q = elim (Bool-cases (mem l (take ways q))) [
    | inl there ↦ rw (there, mem-take l ways q there) (touch-hit l q there)
    | inr absent ↦ elim (Bool-cases (mem l q)) [
      | inl there ↦ rw (absent, there) (touch-late l q absent)
      | inr nowhere ↦
          rw (absent, nowhere) (take-cons ways l q ∙ sym (take-take ways ways' (l ∷ q) fewer))
    ]
  ]

  use_line-IsPart :
      (l : ℕ) (m m' : Model)
      → IsPart ways m m'
      → IsPart ways (use_line true count ways l m) (use_line true count ways' l m')
  unfolding use_line
  use_line-IsPart l m m' part = record {
    sets = λ k. elim (Bool-cases (k == l % count)) [
      | inl this ↦ rw (this, part.sets (l % count)) (touch-take l (m'.sets (l % count)))
      | inr other ↦ rw other (part.sets k)
    ];
    hits = let fewer_hits = part.hits in ground (arith, seen);
    misses = let more_misses = part.misses in ground (arith, seen);
  }
    where
      seen : mem l (m.sets (l % count)) ≡ true → mem l (m'.sets (l % count)) ≡ true
      seen there =
          mem-take l ways (m'.sets (l % count)) (ap (mem l) (sym (part.sets (l % count))) ∙ there)

  use_lines-IsPart :
      (rounds l : ℕ) (m m' : Model)
      → IsPart ways m m'
      → IsPart ways (use_lines true count ways rounds l m) (use_lines true count ways' rounds l m')
  unfolding use_lines
  use_lines-IsPart zero l m m' part = part
  use_lines-IsPart (suc rounds) l m m' part =
      use_lines-IsPart rounds (l + 1) _ _ (use_line-IsPart l m m' part)

  -- The larger cache stays ahead over any accesses.
  pub use_ranges-IsPart :
      (size len : ℕ) (xs : List ℕ) (m m' : Model)
      → IsPart ways m m'
      → IsPart ways
          (use_ranges true count ways size len xs m)
          (use_ranges true count ways' size len xs m')
  unfolding use_ranges use_range
  use_ranges-IsPart size len [] m m' part = part
  use_ranges-IsPart size len (a ∷ rest) m m' part =
      use_ranges-IsPart size len rest _ _ (use_lines-IsPart _ _ m m' part)
