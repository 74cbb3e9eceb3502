-- ===== src/Replace/Entries.antt =====
-- The entries of a cache after a replacement or a move to the front, for every policy.
use Prim.Native.Nat.{bit_and}
use native.Mathlib.Decide.{ℕ_discrete, dec_lt}
use native.Mathlib.Nat.{mul-le-mul_right, suc-mul}
use pycachesim.Base.{
  ℕ, suc, ◌+◌, ◌-◌, ◌*◌, ◌≤◌, ◌<◌, ◌≡◌, ◌≢◌, ◌⊎◌, refl, ap, ◌∙◌, some, List, arith, ◌==◌, length,
  inl, inr, Bool-cases, get_elem?, set, length-set, get_elem?-set, Result, ok, ◌>>=◌, write,
  write_of_lt, Returns_of_ok, sym, Returns, returns, bind,
}
use pycachesim.Bits.Mask.{bit_and-le}
use pycachesim.Cache.{Cache, Entry}
use pycachesim.Replace.{replace, move_to_front}
use pycachesim.Replace.Shape.{HasShape, Kept, Kept-refl, Kept-trans, Kept-placement}
use pycachesim.Replace.Shift.{IsShifted, way_in_room, shift_down-Kept}
use pycachesim.Replace.Choice.{Choice, last, first, random, choose-Choice}

-- An entry of one of the `ways` ways from `base` on.
abbrev pub InSet : List Entry → ℕ → ℕ → Entry → Type 0
InSet placement base ways e = (j : ℕ) × (j < ways) × (get_elem? placement (base + j) ≡ some e)

-- The set at `base` has taken `entry` at the way `i`; its other entries were in it before, and the
-- other sets have not changed.
pub record IsUpdated (before : List Entry) (base ways i : ℕ) (entry : Entry) (after : List Entry)
    : Type 0 where
  pub size : length after ≡ length before
  pub new : get_elem? after (base + i) ≡ some entry
  pub others :
      (k : ℕ) (e : Entry)
      → k < ways
      → get_elem? after (base + k) ≡ some e
      → (e ≡ entry) ⊎ InSet before base ways e
  pub below : (k : ℕ) → k < base → get_elem? after k ≡ get_elem? before k
  pub above : (k : ℕ) → base + ways ≤ k → get_elem? after k ≡ get_elem? before k

-- One entry of the set is overwritten.
IsUpdated-set :
    (before : List Entry) (base ways i : ℕ) (entry : Entry)
    → i < ways
    → base + ways ≤ length before
    → IsUpdated before base ways i entry (set before (base + i) entry)
IsUpdated-set before base ways i entry lt room = record {
  size = length-set before (base + i) entry;
  new = ground (arith, get_elem?-set before (base + i) (base + i) entry (omega arith));
  others = λ k e h at. elim (ℕ_discrete k i) [
    | yes p ↦ inl (ground (arith, get_elem?-set before (base + i) (base + k) entry (omega arith)))
    | no p ↦
        inr (k, h, ground (arith, get_elem?-set before (base + i) (base + k) entry (omega arith)))
  ];
  below = λ k h. ground (arith, get_elem?-set before (base + i) k entry (omega arith));
  above = λ k h. ground (arith, get_elem?-set before (base + i) k entry (omega arith));
}

-- The first `n` entries have moved by one way, and the front is overwritten.
IsUpdated-shifted :
    (before after : List Entry) (base ways n : ℕ) (entry : Entry)
    → n < ways
    → base + ways ≤ length before
    → length after ≡ length before
    → IsShifted before base n after
    → IsUpdated before base ways 0 entry (set after base entry)
IsUpdated-shifted before after base ways n entry lt room size shifted = record {
  size = length-set after base entry ∙ size;
  new = ground (arith, get_elem?-set after base (base + 0) entry (omega arith));
  others = λ k e h at.
      let read_back = get_elem?-set after base (base + k) entry (omega arith) in
      elim (dec_lt n k) [
        | yes p ↦ inr (k, h, ground (arith, read_back, shifted (base + k)))
        | no p ↦ elim (ℕ_discrete k 0) [
          | yes q ↦ inl (ground (arith, read_back))
          | no q ↦
              let e' : base + (k - 1) ≡ base + k - 1 = omega arith in
              inr (k - 1, omega arith, rw e' (ground (arith, read_back, shifted (base + k))))
        ]
      ];
  below = λ k h. ground (arith, get_elem?-set after base k entry (omega arith), shifted k);
  above = λ k h. ground (arith, get_elem?-set after base k entry (omega arith), shifted k);
}

-- What `replace` gives: the index and the entry that was replaced, in the set; an updated set; and
-- nothing else changed.
pub record Replaced (c : Cache) (set_id : ℕ) (entry : Entry) (i : ℕ) (old : Entry) (c' : Cache)
    : Type 0 where
  pub in_set : i < c.ways
  pub was_there : InSet c.placement (set_id * c.ways) c.ways old
  pub kept : Kept c c'
  pub updated : IsUpdated c.placement (set_id * c.ways) c.ways i entry c'.placement

abbrev pub IsReplacement : Cache → ℕ → Entry → ℕ × Entry × Cache → Type 0
IsReplacement c set_id entry (i, old, c') = Replaced c set_id entry i old c'

-- An index of another set lies before the set or behind it.
pub other_set :
    (j i ways k : ℕ)
    → j ≢ i
    → k < ways
    → (j * ways + k < i * ways) ⊎ (i * ways + ways ≤ j * ways + k)
other_set j i ways k ne lt = elim (dec_lt j i) [
  | yes p ↦ inl (let q = mul-le-mul_right ways p in omega (arith, suc-mul j ways))
  | no p ↦ inr (
      let h : suc i ≤ j = omega arith in
      let q = mul-le-mul_right ways h in omega (arith, suc-mul i ways))
]

pub set_in_room : {s sets : ℕ} (ways : ℕ) → s < sets → s * ways + ways ≤ sets * ways
set_in_room {s} ways h = let q = mul-le-mul_right ways h in omega (arith, suc-mul s ways)

module _ (draw : ℕ) (c : Cache) (set_id : ℕ) (entry : Entry) (shape : HasShape c)
    (in_sets : set_id < c.sets) where
  put_entry : ℕ × Entry × Cache → Result (ℕ × Entry × Cache)
  put_entry (i, old, c') = do
    placement ← write c'.placement (set_id * c'.ways + i) entry
    ok (i, old, record c' { placement = placement })

  write_entry :
      (i : ℕ) (old : Entry) (c' : Cache)
      → i < c.ways
      → Kept c c'
      → InSet c.placement (set_id * c.ways) c.ways old
      → IsUpdated c.placement
          (set_id * c.ways)
          c.ways
          i
          entry
          (set c'.placement (set_id * c.ways + i) entry)
      → Returns (IsReplacement c set_id entry) (put_entry (i, old, c'))
  unfolding put_entry
  write_entry i old c' lt kept there updated =
      let room = kept.shape.room in
      let ways = ap (λ x. x.ways) kept.only in
      let sets = ap (λ x. x.sets) kept.only in
      let p : set_id * c'.ways + i < c'.sets * c'.ways =
        way_in_room (omega (arith, in_sets)) (omega arith) in
      let same : set_id * c.ways + i ≡ set_id * c'.ways + i = ap (λ n. set_id * n + i) (sym ways) in
      bind
        (Returns_of_ok {P = λ l. l ≡ set c'.placement (set_id * c'.ways + i) entry} _
          (write_of_lt c'.placement (set_id * c'.ways + i) entry (omega arith)) refl)
        (λ placement e. returns (record {
          in_set = lt;
          was_there = there;
          kept =
              Kept-trans kept (
                Kept-placement placement kept.shape
                  (ap length e ∙ length-set c'.placement _ entry));
          updated = rw e (rw same at updated);
        }))

  put_entry_lem :
      (r : ℕ × Entry × Cache)
      → Choice draw c set_id r
      → Returns (IsReplacement c set_id entry) (put_entry r)
  put_entry_lem _ (last {old} {c'} on kept shifted at) =
      let pos = shape.ways_pos in
      let room = shape.room in
      let room' = kept.shape.room in
      let inside : set_id * c.ways + c.ways ≤ c.sets * c.ways = set_in_room c.ways in_sets in
      let size = ap (λ x. x.sets * x.ways) kept.only in
      let front : set_id * c.ways + 0 ≡ set_id * c.ways = omega arith in
      let back : set_id * c.ways + (c.ways - 1) ≡ set_id * c.ways + c.ways - 1 = omega arith in
      write_entry 0 old c' pos kept (c.ways - 1, omega arith, rw back at)
        (rw front (
          IsUpdated-shifted c.placement c'.placement (set_id * c.ways) c.ways (c.ways - 1) entry
            (omega arith) (omega arith) (omega arith) shifted))
  put_entry_lem _ (first {old} off on at) =
      let pos = shape.ways_pos in
      let room = shape.room in
      let inside : set_id * c.ways + c.ways ≤ c.sets * c.ways = set_in_room c.ways in_sets in
      let front : set_id * c.ways + 0 ≡ set_id * c.ways = omega arith in
      write_entry (c.ways - 1) old c (omega arith) (Kept-refl shape) (0, pos, rw front at)
        (IsUpdated-set c.placement (set_id * c.ways) c.ways (c.ways - 1) entry (omega arith)
          (omega arith))
  put_entry_lem _ (random {old} off off' at) =
      let pos = shape.ways_pos in
      let room = shape.room in
      let inside : set_id * c.ways + c.ways ≤ c.sets * c.ways = set_in_room c.ways in_sets in
      let small = bit_and-le draw (c.ways - 1) in
      write_entry (bit_and draw (c.ways - 1)) old c (omega arith) (Kept-refl shape)
        (bit_and draw (c.ways - 1), omega arith, at)
        (IsUpdated-set c.placement (set_id * c.ways) c.ways (bit_and draw (c.ways - 1)) entry
          (omega arith) (omega arith))

  -- Under every policy the replacement stays inside the arrays; it writes the new entry at the index
  -- that it returns, reports an entry that was in the set, and changes no other set.
  pub replace-Replaced : Returns (IsReplacement c set_id entry) (replace draw c set_id entry)
  unfolding replace put_entry
  replace-Replaced = bind (choose-Choice draw c set_id shape in_sets) put_entry_lem

-- A hit that moves the entry to the front updates the set with that entry.
pub move_to_front-IsUpdated :
    (c : Cache) (set_id i : ℕ) (entry : Entry)
    → HasShape c
    → set_id < c.sets
    → i < c.ways
    → get_elem? c.placement (set_id * c.ways + i) ≡ some entry
    → Returns
        (λ c'. Kept c c' × IsUpdated c.placement (set_id * c.ways) c.ways 0 entry c'.placement)
        (move_to_front c set_id i entry)
unfolding move_to_front
move_to_front-IsUpdated c set_id i entry shape in_sets lt at =
    let room = shape.room in
    let inside : set_id * c.ways + c.ways ≤ c.sets * c.ways = set_in_room c.ways in_sets in
    elim (Bool-cases (i == 0)) [
      | inl front ↦ rw front (
          returns (
            Kept-refl shape,
            record {
              size = refl;
              new = ground arith;
              others = λ k e h there. inr (k, h, there);
              below = λ k h. refl;
              above = λ k h. refl;
            },
          ))
      | inr other ↦
          rw other (bind (shift_down-Kept set_id i c shape in_sets lt) (λ c' k. overwrite c' k))
    ]
  where
    overwrite :
        (c' : Cache)
        → Kept c c' × IsShifted c.placement (set_id * c.ways) i c'.placement
        → Returns
            (λ x. Kept c x × IsUpdated c.placement (set_id * c.ways) c.ways 0 entry x.placement)
            (write c'.placement (set_id * c'.ways) entry >>= λ placement.
              ok (record c' { placement = placement }))
    overwrite c' (kept, shifted) =
        let room = shape.room in
        let room' = kept.shape.room in
        let inside : set_id * c.ways + c.ways ≤ c.sets * c.ways = set_in_room c.ways in_sets in
        let size = ap (λ x. x.sets * x.ways) kept.only in
        let same : set_id * c'.ways ≡ set_id * c.ways = ap (λ x. set_id * x.ways) kept.only in
        bind
          (Returns_of_ok {P = λ l. l ≡ set c'.placement (set_id * c'.ways) entry} _
            (write_of_lt c'.placement (set_id * c'.ways) entry (omega arith)) refl)
          (λ placement e. returns (
            Kept-trans kept (
                Kept-placement placement kept.shape
                  (ap length e ∙ length-set c'.placement _ entry)),
            rw e (
                rw same (
                  IsUpdated-shifted c.placement c'.placement (set_id * c.ways) c.ways i entry lt
                    (omega arith) (omega arith) shifted)),
          ))
