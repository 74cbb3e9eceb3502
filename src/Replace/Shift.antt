-- ===== src/Replace/Shift.antt =====
-- The reorder loops of `Cache__inject` and `Cache__load`, over the entries and the bits of one set.
use native.Mathlib.Nat.{mul-le-mul_right}
use pycachesim.Base.{
  ℕ, zero, suc, ◌+◌, ◌-◌, ◌*◌, ◌≤◌, ◌<◌, ◌≡◌, refl, ap, ◌∙◌, true, ◌&&◌, some, List, arith, ◌==◌,
  ltb, if◌then◌else◌, length, inl, inr, Bool-cases, get_elem?, set, get_elem?_of_lt, length-set,
  get_elem?-set, write_of_lt, Returns, returns, bind, weaken,
}
use pycachesim.Cache.{Cache, Entry}
use pycachesim.Replace.{bit_base, copy_bits, move_way, shift_down}
use pycachesim.Replace.Shape.{
  HasShape, Kept, Kept-trans, Kept-refl, Kept-placement, test_bit-returns, write_bit-Kept,
}

abbrev pub bit_count : Cache → ℕ
bit_count c = c.sets * c.ways * c.subblock_bits

-- The way `i` of a set lies in the array.
pub way_in_room : {s i sets ways : ℕ} → s < sets → i < ways → s * ways + i < sets * ways
way_in_room h k = grind arith

-- So do the bits of a way.
pub bits_in_room :
    {s i sets ways : ℕ} (n : ℕ) → s < sets → i < ways → s * ways * n + i * n + n ≤ sets * ways * n
bits_in_room {s} {i} {sets} {ways} n h k =
    let p : s * ways + i < sets * ways = way_in_room h k in
    let q = mul-le-mul_right n p in omega arith

copy_bits-Kept :
    (n j to from : ℕ) (c : Cache)
    → HasShape c
    → (c.write_combining == 1) ≡ true
    → to + j + n ≤ bit_count c
    → from + j + n ≤ bit_count c
    → Returns (λ c'. Kept c c' × (c'.placement ≡ c.placement)) (copy_bits n j to from c)
unfolding copy_bits
copy_bits-Kept zero j to from c shape on h₁ h₂ = returns (Kept-refl shape, refl)
copy_bits-Kept (suc n) j to from c shape on h₁ h₂ =
    bind (test_bit-returns c shape on (from + j) (omega arith)) (λ b _.
      bind (write_bit-Kept c shape on (to + j) (omega arith) b) (λ c' k.
        let same = ap bit_count k.0.only in
        let on' = ap (λ x. x.write_combining == 1) k.0.only ∙ on in
        weaken (copy_bits-Kept n (j + 1) to from c' k.0.shape on' (omega arith) (omega arith))
          (λ c'' k'. (Kept-trans k.0 k'.0, k'.1 ∙ k.1))))

module _ (set_id to from : ℕ) (c : Cache) (shape : HasShape c) (in_sets : set_id < c.sets)
    (to_lt : to < c.ways) (from_lt : from < c.ways) where
  -- One round moves one entry.
  pub move_way-Kept :
      (e : Entry)
      → get_elem? c.placement (set_id * c.ways + from) ≡ some e
      → Returns
          (λ c'. Kept c c' × (c'.placement ≡ set c.placement (set_id * c.ways + to) e))
          (move_way c set_id to from)
  unfolding move_way
  move_way-Kept e at =
      let p : set_id * c.ways + to < c.sets * c.ways = way_in_room in_sets to_lt in
      let room = shape.room in
      let placement = set c.placement (set_id * c.ways + to) e in
      let moved = record c { placement = placement } in
      let k : Kept c moved = Kept-placement placement shape (length-set c.placement _ e) in
      rw (at, write_of_lt c.placement (set_id * c.ways + to) e (omega arith))
        (elim (Bool-cases (c.write_combining == 1)) [
          | inl on ↦ rw on (
              weaken
                (copy_bits-Kept c.subblock_bits 0 (bit_base c set_id to) (bit_base c set_id from)
                  moved k.shape on (omega (arith, bits_in_room c.subblock_bits in_sets to_lt))
                  (omega (arith, bits_in_room c.subblock_bits in_sets from_lt)))
                (λ c' k'. (Kept-trans k k'.0, k'.1)))
          | inr off ↦ rw off (returns (k, refl))
        ])

-- The entries after the ways 1 to `n` have taken the entry in front of them.
abbrev pub IsShifted : List Entry → ℕ → ℕ → List Entry → Type 0
IsShifted before base n after =
    (k : ℕ)
    → get_elem? after k ≡ (
        if ltb base k && ltb k (base + n + 1) then get_elem? before (k - 1) else get_elem? before k)

IsShifted-suc :
    (before after : List Entry) (base i : ℕ) (e : Entry)
    → get_elem? before (base + i) ≡ some e
    → base + suc i < length before
    → IsShifted (set before (base + suc i) e) base i after
    → IsShifted before base (suc i) after
IsShifted-suc before after base i e at lt rest k = ground (
  arith,
  rest k,
  get_elem?-set before (base + suc i) (k - 1) e lt,
  get_elem?-set before (base + suc i) k e lt,
)

module _ (set_id : ℕ) where
  -- The loop stays inside the arrays and shifts the first ways of the set.
  pub shift_down-Kept :
      (n : ℕ) (c : Cache)
      → HasShape c
      → set_id < c.sets
      → n < c.ways
      → Returns
          (λ c'. Kept c c' × IsShifted c.placement (set_id * c.ways) n c'.placement)
          (shift_down set_id n c)
  unfolding shift_down
  shift_down-Kept zero c shape in_sets lt = returns (Kept-refl shape, λ k. ground arith)
  shift_down-Kept (suc i) c shape in_sets lt =
      let room = shape.room in
      let p : set_id * c.ways + i < c.sets * c.ways = way_in_room in_sets (omega arith) in
      let q : set_id * c.ways + suc i < c.sets * c.ways = way_in_room in_sets lt in
      let (e, at) = get_elem?_of_lt c.placement (set_id * c.ways + i) (omega arith) in
      bind (move_way-Kept set_id (suc i) i c shape in_sets lt (omega arith) e at) (λ c' k.
        let ways = ap (λ x. x.ways) k.0.only in
        let sets = ap (λ x. x.sets) k.0.only in
        weaken (shift_down-Kept i c' k.0.shape (omega arith) (omega arith)) (λ c'' k'. (
          Kept-trans k.0 k'.0,
          IsShifted-suc c.placement c''.placement (set_id * c.ways) i e at (omega arith)
              (rw (k.1, ways) at k'.1),
        )))
