-- ===== src/Api/Contents.antt =====
-- `Cache_contains` and `Cache_cached_get` of cachesim/backend.c, the search of a set, and the lines that
-- are present.
use mathlib.Core.Option.{some-injective}
use native.Mathlib.Decide.{ℕ_discrete}
use native.Mathlib.Nat.{mod-lt, div-add-mod', div-lt_iff_lt-mul}
use pycachesim.Base.{
  ℕ, zero, suc, ◌+◌, ◌*◌, ◌/◌, ◌%◌, ◌≤◌, ◌<◌, ◌≡◌, ◌↔◌, ◌⊎◌, inl, inr, refl, sym, ap, ◌∙◌, Bool,
  true, false, Option, none, some, List, [], ◌∷◌, arith, if◌then◌else◌, length, get_elem?,
  get_elem?_of_lt, ok, ◌>>=◌, read, Returns, returns, bind, weaken, >>=-congr,
}
use pycachesim.Api.{contains_from, contains, addresses_from, cached_from, cached}
use pycachesim.Cache.{
  Cache, Entry, get_cacheline_id, get_set_id, get_addr_from_cl_id, get_range_from_cl_id, holds,
  location_from, get_location,
}
use pycachesim.Cache.Range.{In-get_range_from_cl_id_iff}
use pycachesim.Cache.Search.{Found, here, nowhere}
use pycachesim.Hierarchy.Handles.{get_set_id-ok}
use pycachesim.Hierarchy.Homes.{IsHomed}
use pycachesim.Hierarchy.Effects.{search_set, Present}
use pycachesim.Replace.Shape.{HasShape}
use pycachesim.Replace.Shift.{way_in_room}

abbrev pub is_way : Option ℕ → Bool
is_way none = false
is_way (some i) = true

contains_from-location_from :
    (self : Cache) (cl_id set_id n i : ℕ)
    → contains_from self cl_id set_id n i
      ≡ (location_from self cl_id set_id n i >>= λ r. ok (is_way r))
unfolding contains_from location_from holds
contains_from-location_from self cl_id set_id zero i = refl
contains_from-location_from self cl_id set_id (suc n) i =
    ground (arith, contains_from-location_from self cl_id set_id n (i + 1))

-- `Cache_contains` repeats the search of `Cache__get_location`: on every cache it answers whether that
-- finds a way, and it fails where that fails.
pub contains-get_location :
    (self : Cache) (addr : ℕ)
    → contains self addr ≡ (
        get_set_id self (get_cacheline_id self addr) >>= λ set_id.
        get_location self (get_cacheline_id self addr) set_id >>= λ r. ok (is_way r))
unfolding contains get_location
contains-get_location self addr =
    >>=-congr (get_set_id self (get_cacheline_id self addr))
      (λ set_id. contains_from-location_from self (get_cacheline_id self addr) set_id self.ways 0)

module _ (self : Cache) (shape : HasShape self) (addr : ℕ) where
  answer :
      (location : Option ℕ)
      → Found self (get_cacheline_id self addr) (get_cacheline_id self addr % self.sets) 0 location
      → (is_way location ≡ true) ↔ Present self (get_cacheline_id self addr)
  answer _ (here {j} h held absent) = (λ _. (j, held), λ _. refl)
  answer _ (nowhere absent) = (
    λ e. cc,
    λ (i, held).
        let out = absent i held.entry (omega arith) held.in_set held.at in let h = held.held in cc,
  )

  -- On a cache in shape `Cache_contains` returns, and answers true exactly if a way of the set of the
  -- address's line holds that line.
  pub contains-Present :
      Returns (λ b. (b ≡ true) ↔ Present self (get_cacheline_id self addr)) (contains self addr)
  contains-Present = rw (contains-get_location self addr) (
      rw (get_set_id-ok self (get_cacheline_id self addr) shape) (
        bind (search_set self (get_cacheline_id self addr) shape)
          (λ location found. returns (answer location found))))

abbrev pub Among : ℕ → List ℕ → Type 0
Among a [] = ⊥
Among a (x ∷ xs) = (a ≡ x) ⊎ Among a xs

Among-addresses_from :
    (n start : ℕ) (rest : List ℕ) (a : ℕ)
    → Among a (addresses_from n start rest) ↔ (((start ≤ a) × (a < start + n)) ⊎ Among a rest)
Among-addresses_from zero start rest a =
    (λ m. inr m, λ c. elim c [ inl (h, h') ↦ absurd (omega arith) | inr m ↦ m ])
Among-addresses_from (suc n) start rest a =
    let (to, from) = Among-addresses_from n (start + 1) rest a in
    (
      λ m. elim m [
        | inl e ↦ inl (omega arith, omega arith)
        | inr m' ↦ elim (to m') [ inl (h, h') ↦ inl (omega arith, omega arith) | inr m'' ↦ inr m'' ]
      ],
      λ c. elim c [
        | inl (h, h') ↦ elim (ℕ_discrete a start) [
          | yes e ↦ inl e
          | no ne ↦ inr (from (inl (omega arith, omega arith)))
        ]
        | inr m ↦ inr (from (inr m))
      ],
    )

-- A valid entry of the `n` entries from `i` on holds the line of the address.
abbrev Stored : Cache → ℕ → ℕ → ℕ → Type 0
Stored self n i a =
    (k : ℕ) × (e : Entry) × (i ≤ k)
    × (k < i + n)
    × (get_elem? self.placement k ≡ some e)
    × (e.invalid ≡ false)
    × (get_cacheline_id self a ≡ e.cl_id)

module _ (self : Cache) (shape : HasShape self) where
  -- The addresses of one entry, in front of those of the entries behind it.
  Among-entry :
      (n i : ℕ) (rest : List ℕ) (e : Entry)
      → get_elem? self.placement i ≡ some e
      → (b : Bool) → e.invalid ≡ b
      → ((a : ℕ) → Among a rest ↔ Stored self n (i + 1) a)
      → (a : ℕ)
      → Among a
          (if b then rest else addresses_from self.cl_size (get_addr_from_cl_id self e.cl_id) rest)
        ↔ Stored self (suc n) i a
  unfolding get_range_from_cl_id
  Among-entry n i rest e at true is_invalid ih a = (
    λ m.
        let (k, x, h₁, h₂, at_k, v, l) = (ih a).0 m in (k, x, omega arith, omega arith, at_k, v, l),
    λ (k, x, h₁, h₂, at_k, v, l). elim (ℕ_discrete k i) [
      | yes same ↦
          let is_e : x ≡ e =
            some-injective _ _ (sym at_k ∙ ap (get_elem? self.placement) same ∙ at) in
          let contra = ap (λ y. y.invalid) is_e in cc
      | no other ↦ (ih a).1 (k, x, omega arith, omega arith, at_k, v, l)
    ],
  )
  Among-entry n i rest e at false is_valid ih a =
      let (to, from) =
        Among-addresses_from self.cl_size (get_addr_from_cl_id self e.cl_id) rest a in
      let (line, back) = In-get_range_from_cl_id_iff self shape.size e.cl_id a in
      (
        λ m. elim (to m) [
          | inl (h, h') ↦ (
            i,
            e,
            omega arith,
            omega arith,
            at,
            is_valid,
            line (record { lower = h; upper = h' }),
          )
          | inr m' ↦
              let (k, x, h₁, h₂, at_k, v, l) = (ih a).0 m' in
              (k, x, omega arith, omega arith, at_k, v, l)
        ],
        λ (k, x, h₁, h₂, at_k, v, l). elim (ℕ_discrete k i) [
          | yes same ↦
              let is_e : x ≡ e =
                some-injective _ _ (sym at_k ∙ ap (get_elem? self.placement) same ∙ at) in
              let inside = back (l ∙ ap (λ y. y.cl_id) is_e) in
              from (inl (inside.lower, inside.upper))
          | no other ↦ from (inr ((ih a).1 (k, x, omega arith, omega arith, at_k, v, l)))
        ],
      )

  cached_from-Among :
      (n i : ℕ)
      → i + n ≤ length self.placement
      → Returns (λ l. (a : ℕ) → Among a l ↔ Stored self n i a) (cached_from self n i)
  unfolding cached_from
  cached_from-Among zero i h =
      returns (λ a. (λ m. absurd m, λ (k, e, h₁, h₂, at, v, l). absurd (omega arith)))
  cached_from-Among (suc n) i h =
      let (e, at) = get_elem?_of_lt self.placement i (omega arith) in
      entry e at (cached_from-Among n (i + 1) (omega arith))
    where
      entry :
          (e : Entry)
          → get_elem? self.placement i ≡ some e
          → Returns
              (λ l. (a : ℕ) → Among a l ↔ Stored self n (i + 1) a)
              (cached_from self n (i + 1))
          → Returns
              (λ l. (a : ℕ) → Among a l ↔ Stored self (suc n) i a)
              (read self.placement i >>= λ e. cached_from self n (i + 1) >>= λ rest. ok (
                if e.invalid
                then rest
                else addresses_from self.cl_size (get_addr_from_cl_id self e.cl_id) rest))
      entry e at rest =
          rw at (bind rest (λ l ih. returns (Among-entry n i l e at e.invalid refl ih)))

  Stored-Present :
      IsHomed self
      → (a : ℕ) → Stored self (self.sets * self.ways) 0 a ↔ Present self (get_cacheline_id self a)
  unfolding holds
  Stored-Present homed a = (
    λ (k, e, h₁, h₂, at, v, l).
        let ways = shape.ways_pos in
        let split : k / self.ways * self.ways + k % self.ways ≡ k = div-add-mod' k self.ways in
        let at' : get_elem? self.placement (k / self.ways * self.ways + k % self.ways) ≡ some e =
          ap (get_elem? self.placement) split ∙ at in
        let home =
          homed (k / self.ways) (k % self.ways) e ((div-lt_iff_lt-mul ways).1 (omega arith))
            (mod-lt k ways) at' v in
        (
          k % self.ways,
          record {
            in_set = mod-lt k ways;
            entry = e;
            at =
                ap (λ j. get_elem? self.placement (j * self.ways + k % self.ways))
                  (ap (λ x. x % self.sets) l ∙ home)
                ∙ at';
            held = ground arith;
          },
        ),
    λ (i, held).
        let in_set = held.in_set in
        let is_held = held.held in
        let room : get_cacheline_id self a % self.sets * self.ways + i < self.sets * self.ways =
          way_in_room (mod-lt _ shape.sets_pos) in_set in
        (
          get_cacheline_id self a % self.sets * self.ways + i,
          held.entry,
          omega arith,
          omega arith,
          held.at,
          ground arith,
          ground arith,
        ),
  )

  -- On a cache in shape whose valid entries are all in the sets of their lines, both methods return, and
  -- `Cache_contains` answers true exactly for the addresses of the set that `Cache_cached_get` returns.
  pub contains-cached :
      IsHomed self
      → (addr : ℕ)
      → Returns (λ l. Returns (λ b. (b ≡ true) ↔ Among addr l) (contains self addr)) (cached self)
  unfolding cached
  contains-cached homed addr =
      let room = shape.room in
      weaken (cached_from-Among (self.sets * self.ways) 0 (omega arith)) (λ l among.
        weaken (contains-Present self shape addr) (λ b present.
          let (stored, among_back) = among addr in
          let (has, has_back) = Stored-Present homed addr in
          (λ e. among_back (has_back (present.0 e)), λ m. present.1 (has (stored m)))))
