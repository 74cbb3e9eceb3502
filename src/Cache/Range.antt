-- ===== src/Cache/Range.antt =====
-- Lines and ranges: which addresses a line holds.
use native.Mathlib.Nat.{one-le-pow, mul-le-mul_right}
use pycachesim.Base.{
  ℕ, suc, ◌+◌, ◌-◌, ◌*◌, ◌/◌, ◌^◌, ◌≤◌, ◌<◌, ◌≡◌, ap, ◌↔◌, ◌⊎◌, arith, ltb, if◌then◌else◌,
}
use pycachesim.Cache.{
  Cache, AddrRange, get_cacheline_id, get_addr_from_cl_id, get_range_from_cl_id,
  get_range_from_cl_id_and_range, line_rounds,
}

-- The address lies in the range.
pub record In (a : ℕ) (r : AddrRange) : Type 0 where
  pub lower : r.addr ≤ a
  pub upper : a < r.addr + r.length

div_of_bounds : (a s q : ℕ) → q * s ≤ a → a < q * s + s → a / s ≡ q
div_of_bounds a s q lo hi = grind arith

mul-div-le : (a s : ℕ) → a / s * s ≤ a
mul-div-le a s = grind arith

lt-mul-div-add : (a s : ℕ) → 0 < s → a < a / s * s + s
lt-mul-div-add a s h = grind arith

div_mono : (a b s : ℕ) → a ≤ b → a / s ≤ b / s
div_mono a b s h = grind arith

-- The first address of the range `[r, r + n)` in the line `l` of size `s`.
first_in : ℕ → ℕ → ℕ → ℕ
first_in r l s = if ltb r (l * s) then l * s else r

first_in_lem :
    (r n l s : ℕ)
    → 0 < n
    → 0 < s
    → r / s ≤ l
    → l ≤ (r + n - 1) / s
    → (r ≤ first_in r l s) × (first_in r l s < r + n) × (first_in r l s / s ≡ l)
unfolding first_in
first_in_lem r n l s hn hs lo hi =
    let p = lt-mul-div-add r s hs in
    let q = mul-div-le (r + n - 1) s in
    let u = mul-le-mul_right s lo in
    let v = mul-le-mul_right s hi in
    (ground arith, ground arith, div_of_bounds _ s l (ground arith) (ground arith))

-- The rounds over a range that is not empty end at the line of its last address.
pub line_rounds-last :
    (self : Cache) (range : AddrRange)
    → 0 < range.length
    → (k : ℕ) × (line_rounds self range ≡ suc k)
      × (get_cacheline_id self range.addr + k
          ≡ get_cacheline_id self (range.addr + range.length - 1))
unfolding line_rounds get_cacheline_id
line_rounds-last self range pos =
    let first = range.addr / 2 ^ self.cl_bits in
    let last = (range.addr + range.length - 1) / 2 ^ self.cl_bits in
    let le : first ≤ last = div_mono _ _ (2 ^ self.cl_bits) (omega arith) in
    (last - first, ground arith, omega arith)

module _ (self : Cache) (size : self.cl_size ≡ 2 ^ self.cl_bits) where
  cl_size_pos : 0 < 2 ^ self.cl_bits
  cl_size_pos = one-le-pow self.cl_bits 2 (omega arith)

  bounds_of_line :
      (a l : ℕ)
      → a / 2 ^ self.cl_bits ≡ l
      → (l * 2 ^ self.cl_bits ≤ a) × (a < l * 2 ^ self.cl_bits + self.cl_size)
  bounds_of_line a l e =
      let lo = mul-div-le a (2 ^ self.cl_bits) in
      let hi = lt-mul-div-add a (2 ^ self.cl_bits) cl_size_pos in
      let e' = ap (λ q. q * 2 ^ self.cl_bits) e in (omega arith, omega arith)

  -- An address lies in the range of a line exactly when the line is the address's.
  pub In-get_range_from_cl_id_iff :
      (cl_id a : ℕ) → In a (get_range_from_cl_id self cl_id) ↔ (get_cacheline_id self a ≡ cl_id)
  unfolding get_range_from_cl_id get_addr_from_cl_id get_cacheline_id
  In-get_range_from_cl_id_iff cl_id a =
      let pos = cl_size_pos in
      (
        λ h. div_of_bounds a (2 ^ self.cl_bits) cl_id h.lower (omega arith),
        λ e.
            let lo = mul-div-le a (2 ^ self.cl_bits) in
            let hi = lt-mul-div-add a (2 ^ self.cl_bits) pos in
            let e' = ap (λ q. q * 2 ^ self.cl_bits) e in
            record { lower = omega arith; upper = omega arith },
      )

  -- The loop of `Cache__load` and `Cache__store` over a range that is not empty visits exactly the
  -- lines of the range's addresses.
  pub line_rounds-touched_iff :
      (range : AddrRange) (l : ℕ)
      → 0 < range.length
      → ((get_cacheline_id self range.addr ≤ l)
          × (l < get_cacheline_id self range.addr + line_rounds self range))
        ↔ ((a : ℕ) × In a range × (get_cacheline_id self a ≡ l))
  unfolding line_rounds get_cacheline_id
  line_rounds-touched_iff range l h = (
    λ (lo, hi).
        let r =
          first_in_lem range.addr range.length l (2 ^ self.cl_bits) h cl_size_pos lo
            (ground arith) in
        (first_in range.addr l (2 ^ self.cl_bits), record { lower = r.0; upper = r.1 }, r.2),
    λ (a, i, e).
        let p = div_mono range.addr a (2 ^ self.cl_bits) i.lower in
        let q =
          div_mono a (range.addr + range.length - 1) (2 ^ self.cl_bits) (omega (arith, i.upper)) in
        (omega arith, ground arith),
  )

  -- The range of a line is one round.
  pub line_rounds-get_range_from_cl_id :
      (cl_id : ℕ) → line_rounds self (get_range_from_cl_id self cl_id) ≡ 1
  unfolding line_rounds get_range_from_cl_id get_addr_from_cl_id get_cacheline_id
  line_rounds-get_range_from_cl_id cl_id =
      let s = 2 ^ self.cl_bits in
      let pos = cl_size_pos in
      let first = div_of_bounds (cl_id * s) s cl_id (omega arith) (omega arith) in
      let last = div_of_bounds (cl_id * s + self.cl_size - 1) s cl_id (omega arith) (omega arith) in
      ground arith

  module _ (cl_id : ℕ) (range : AddrRange) where
    -- The part of a range that is stored to the next level lies in the range, if the line is
    -- touched.
    pub In-get_range_from_cl_id_and_range :
        (a b : ℕ)
        → In b range
        → get_cacheline_id self b ≡ cl_id
        → In a (get_range_from_cl_id_and_range self cl_id range)
        → In a range
    unfolding get_range_from_cl_id_and_range get_addr_from_cl_id get_cacheline_id
    In-get_range_from_cl_id_and_range a b i e h =
        let p = bounds_of_line b cl_id e in
        ground (arith, h.lower, h.upper, i.lower, i.upper, p.0, p.1)

    -- Of a range that starts no later than the line or ends with it, exactly the addresses of the line.
    pub In-get_range_from_cl_id_and_range_iff :
        (a : ℕ)
        → (range.addr ≤ get_addr_from_cl_id self cl_id)
          ⊎ (range.addr + range.length ≤ get_addr_from_cl_id self cl_id + self.cl_size)
        → In a (get_range_from_cl_id_and_range self cl_id range)
          ↔ (In a range × (get_cacheline_id self a ≡ cl_id))
    unfolding get_range_from_cl_id_and_range get_addr_from_cl_id get_cacheline_id
    In-get_range_from_cl_id_and_range_iff a fits = (
      λ h. (
        ground (arith, h.lower, h.upper),
        div_of_bounds a (2 ^ self.cl_bits) cl_id (ground (arith, h.lower, h.upper))
            (ground (arith, h.lower, h.upper)),
      ),
      λ (i, e). let p = bounds_of_line a cl_id e in ground (arith, i.lower, i.upper, p.0, p.1),
    )

    -- A range that starts inside the line and goes on behind it: what is stored to the next level
    -- then reaches into the next line.
    pub get_range_from_cl_id_and_range-overlap :
        get_addr_from_cl_id self cl_id < range.addr
        → range.addr < get_addr_from_cl_id self cl_id + self.cl_size
        → get_addr_from_cl_id self cl_id + self.cl_size < range.addr + range.length
        → (a : ℕ) × In a (get_range_from_cl_id_and_range self cl_id range)
          × (get_cacheline_id self a ≡ cl_id + 1)
    unfolding get_range_from_cl_id_and_range get_addr_from_cl_id get_cacheline_id
    get_range_from_cl_id_and_range-overlap h₁ h₂ h₃ = (
      cl_id * 2 ^ self.cl_bits + self.cl_size,
      ground arith,
      div_of_bounds _ (2 ^ self.cl_bits) (cl_id + 1) (omega arith) (omega (arith, cl_size_pos)),
    )
