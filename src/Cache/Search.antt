-- ===== src/Cache/Search.antt =====
-- `Cache__get_location`: the first way of a set that holds a line.
use native.Mathlib.Decide.{ℕ_discrete}
use pycachesim.Base.{
  ℕ, zero, suc, ◌+◌, ◌*◌, ◌≤◌, ◌<◌, ◌≡◌, true, false, Option, none, some, inl, inr, arith,
  Bool-cases, length, get_elem?, get_elem?_of_lt, Returns, returns, weaken,
}
use pycachesim.Cache.{Cache, Entry, holds, location_from, get_location}

pub holds-valid : (e : Entry) (cl_id : ℕ) → holds e cl_id ≡ true → e.invalid ≡ false
unfolding holds
holds-valid e cl_id h = ground (arith, h)

pub holds-cl_id : (e : Entry) (cl_id : ℕ) → holds e cl_id ≡ true → e.cl_id ≡ cl_id
unfolding holds
holds-cl_id e cl_id h = ground (arith, h)

module _ (self : Cache) (cl_id set_id : ℕ) where
  -- No way from `i` on and below `j` holds the line.
  abbrev pub Absent : ℕ → ℕ → Type 0
  Absent i j =
      (k : ℕ) (e : Entry)
      → i ≤ k
      → k < j
      → get_elem? self.placement (set_id * self.ways + k) ≡ some e
      → holds e cl_id ≡ false

  -- The way `i` holds the line.
  pub record HeldAt (i : ℕ) : Type 0 where
    pub in_set : i < self.ways
    pub entry : Entry
    pub at : get_elem? self.placement (set_id * self.ways + i) ≡ some entry
    pub held : holds entry cl_id ≡ true

  -- The answer of a search from way `i` on.
  pub data Found (i : ℕ) : Option ℕ → Type 0 where
    here : {j : ℕ} → i ≤ j → HeldAt j → Absent i j → Found i (some j)
    nowhere : Absent i self.ways → Found i none

  Absent-extend :
      (i : ℕ) {j : ℕ} {x : Entry}
      → get_elem? self.placement (set_id * self.ways + i) ≡ some x
      → holds x cl_id ≡ false
      → Absent (i + 1) j
      → Absent i j
  Absent-extend i at no_here rest k e h₁ h₂ here_at = elim (ℕ_discrete k i) [
    | yes same ↦ let at' = rw (← same) at at in cc
    | no other ↦ rest k e (omega arith) h₂ here_at
  ]

  Found-extend :
      (i : ℕ) {x : Entry}
      → get_elem? self.placement (set_id * self.ways + i) ≡ some x
      → holds x cl_id ≡ false
      → (r : Option ℕ) → Found (i + 1) r
      → Found i r
  Found-extend i at no_here _ (here h at_j rest) =
      here (omega arith) at_j (Absent-extend i at no_here rest)
  Found-extend i at no_here _ (nowhere rest) = nowhere (Absent-extend i at no_here rest)

  module _ (room : set_id * self.ways + self.ways ≤ length self.placement) where
    location_from-Found :
        (n i : ℕ) → i + n ≡ self.ways → Returns (Found i) (location_from self cl_id set_id n i)
    unfolding location_from
    location_from-Found zero i e = returns (nowhere (λ k _ h₁ h₂ _. absurd (omega arith)))
    location_from-Found (suc n) i e =
        let (x, at) = get_elem?_of_lt self.placement (set_id * self.ways + i) (omega arith) in
        elim (Bool-cases (holds x cl_id)) [
          | inl yes_here ↦
              rw (at, yes_here)
                (returns (
                  here (omega arith)
                    (record { in_set = omega arith; entry = x; at = at; held = yes_here })
                    (λ k _ h₁ h₂ _. absurd (omega arith))))
          | inr no_here ↦
              rw (at, no_here)
                (weaken (location_from-Found n (i + 1) (omega arith)) (Found-extend i at no_here))
        ]

    -- The search stays inside the set, and returns the first way that holds the line, or -1 (`none`)
    -- if no way of the set does.
    pub get_location-Found : Returns (Found 0) (get_location self cl_id set_id)
    unfolding get_location
    get_location-Found = location_from-Found self.ways 0 (omega arith)
