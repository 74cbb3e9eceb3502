-- ===== src/Replace/Choice.antt =====
-- The choice of the entry to replace in `Cache__inject`, for each policy.
use Prim.Native.Nat.{bit_and}
use pycachesim.Base.{
  ℕ, ◌+◌, ◌-◌, ◌*◌, ◌<◌, ◌≡◌, Bool, true, false, ◌||◌, some, arith, ◌==◌, ltb, length, inl, inr,
  Bool-cases, get_elem?, Result, ok, ◌>>=◌, read_of_lt, Returns, returns, bind,
}
use pycachesim.Bits.Mask.{bit_and-le}
use pycachesim.Cache.{Cache, Entry}
use pycachesim.Replace.{shift_up, choose_last, choose_first, choose_random, choose}
use pycachesim.Replace.Shape.{HasShape, Kept}
use pycachesim.Replace.Shift.{IsShifted, way_in_room, shift_down-Kept}

-- The policies of `Cache__inject`: 0 and 1 are FIFO and LRU, 2 is MRU, any other is RR.
abbrev pub is_queue : Cache → Bool
is_queue c = c.replacement_policy_id == 0 || c.replacement_policy_id == 1

abbrev pub is_mru : Cache → Bool
is_mru c = c.replacement_policy_id == 2

-- The index, the entry that was there, and the cache with its queue moved.
pub data Choice (draw : ℕ) (c : Cache) (set_id : ℕ) : ℕ × Entry × Cache → Type 0 where
  last :
      {old : Entry} {c' : Cache}
      → is_queue c ≡ true
      → Kept c c'
      → IsShifted c.placement (set_id * c.ways) (c.ways - 1) c'.placement
      → get_elem? c.placement (set_id * c.ways + c.ways - 1) ≡ some old
      → Choice draw c set_id (0, old, c')
  first :
      {old : Entry}
      → is_queue c ≡ false
      → is_mru c ≡ true
      → get_elem? c.placement (set_id * c.ways) ≡ some old
      → Choice draw c set_id (c.ways - 1, old, c)
  random :
      {old : Entry}
      → is_queue c ≡ false
      → is_mru c ≡ false
      → get_elem? c.placement (set_id * c.ways + bit_and draw (c.ways - 1)) ≡ some old
      → Choice draw c set_id (bit_and draw (c.ways - 1), old, c)

module _ (draw : ℕ) (c : Cache) (set_id : ℕ) (shape : HasShape c) (in_sets : set_id < c.sets) where
  in_room : (i : ℕ) → i < c.ways → set_id * c.ways + i < length c.placement
  in_room i lt =
      let p : set_id * c.ways + i < c.sets * c.ways = way_in_room in_sets lt in
      let room = shape.room in omega arith

  choose_last-Choice : is_queue c ≡ true → Returns (Choice draw c set_id) (choose_last c set_id)
  unfolding choose_last
  choose_last-Choice on =
      let pos = shape.ways_pos in
      bind
        (read_of_lt c.placement (set_id * c.ways + c.ways - 1)
          (omega (arith, in_room (c.ways - 1) (omega arith))))
        (λ old at.
          weaken_pair (shift_down-Kept set_id (c.ways - 1) c shape in_sets (omega arith))
            (λ c' k. last on k.0 k.1 at))
    where
      weaken_pair :
          {m : Result Cache} {P : Cache → Type 0} {old : Entry}
          → Returns P m
          → ((c' : Cache) → P c' → Choice draw c set_id (0, old, c'))
          → Returns (Choice draw c set_id) (m >>= λ c'. ok (0, old, c'))
      weaken_pair r f = bind r (λ c' p. returns (f c' p))

  choose_first-Choice :
      is_queue c ≡ false → is_mru c ≡ true → Returns (Choice draw c set_id) (choose_first c set_id)
  unfolding choose_first shift_up
  choose_first-Choice off on =
      let pos = shape.ways_pos in
      bind (read_of_lt c.placement (set_id * c.ways) (omega (arith, in_room 0 (omega arith))))
        (λ old at.
          let stop : ltb c.ways (0 + 1) ≡ false = ground arith in
          rw stop (returns (first off on at)))

  choose_random-Choice :
      is_queue c ≡ false
      → is_mru c ≡ false
      → Returns (Choice draw c set_id) (choose_random draw c set_id)
  unfolding choose_random
  choose_random-Choice off off' =
      let pos = shape.ways_pos in
      let small = bit_and-le draw (c.ways - 1) in
      bind
        (read_of_lt c.placement (set_id * c.ways + bit_and draw (c.ways - 1))
          (in_room (bit_and draw (c.ways - 1)) (omega arith)))
        (λ old at. returns (random off off' at))

  -- The choice stays inside the arrays.
  pub choose-Choice : Returns (Choice draw c set_id) (choose draw c set_id)
  unfolding choose
  choose-Choice = elim (Bool-cases (is_queue c)) [
    | inl on ↦ rw on (choose_last-Choice on)
    | inr off ↦ rw off (elim (Bool-cases (is_mru c)) [
      | inl on ↦ rw on (choose_first-Choice off on)
      | inr off' ↦ rw off' (choose_random-Choice off off')
    ])
  ]
