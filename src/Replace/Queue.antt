-- ===== src/Replace/Queue.antt =====
-- The ways of a set as the queue that they stand for, and the policies of cachesim/backend.c on it.
use pycachesim.Base.{
  ℕ, zero, suc, ◌+◌, ◌-◌, ◌*◌, ◌≤◌, ◌<◌, ◌≡◌, ◌≢◌, refl, sym, inl, inr, Bool-cases, ap, ◌∙◌, true,
  false, none, some, List, ◌∷◌, arith, ◌==◌, ltb, if◌then◌else◌, length, length-part,
  get_elem?_of_lt, lt_of_get_elem?, get_elem?, set, take, drop, erase_at, list_ext, get_elem?-take,
  get_elem?-drop, get_elem?-erase_at, get_elem?-set, ok, ◌>>=◌, write, write_of_lt, Returns,
  Returns_of_ok, returns, bind, if-Returns,
}
use mathlib.Core.Path.{ap₂}
use pycachesim.Cache.{Cache, Entry}
use pycachesim.Replace.{replace, move_to_front}
use pycachesim.Replace.Choice.{is_queue, is_mru, Choice, last, first, random, choose-Choice}
use pycachesim.Replace.Entries.{IsUpdated, other_set, set_in_room}
use pycachesim.Replace.Shape.{HasShape, Kept, Kept-refl}
use pycachesim.Replace.Shift.{IsShifted, shift_down-Kept}

-- The ways of a set, the front of the queue first.
abbrev pub queue : Cache → ℕ → List Entry
queue c set_id = take c.ways (drop (set_id * c.ways) c.placement)

get_elem?-ways :
    {A : Type 0} (base ways : ℕ) (xs : List A) (i : ℕ)
    → get_elem? (take ways (drop base xs)) i
      ≡ (if ltb i ways then get_elem? xs (base + i) else none)
get_elem?-ways base ways xs i =
    ground (arith, get_elem?-take ways (drop base xs) i, get_elem?-drop base xs i)

-- The shift and the write at the front are a move within the queue.
queue_shifted :
    (before after : List Entry) (base ways n : ℕ) (entry : Entry)
    → n < ways
    → base + ways ≤ length before
    → length after ≡ length before
    → IsShifted before base n after
    → take ways (drop base (set after base entry))
      ≡ entry ∷ erase_at n (take ways (drop base before))
queue_shifted before after base ways n entry lt room size shifted = list_ext _ _ at
  where
    at :
        (i : ℕ)
        → get_elem? (take ways (drop base (set after base entry))) i
          ≡ get_elem? (entry ∷ erase_at n (take ways (drop base before))) i
    at zero = ground (
      arith,
      get_elem?-ways base ways (set after base entry) 0,
      get_elem?-set after base (base + 0) entry (omega arith),
    )
    at (suc k) = ground (
      arith,
      get_elem?-ways base ways (set after base entry) (suc k),
      get_elem?-set after base (base + suc k) entry (omega arith),
      shifted (base + suc k),
      get_elem?-erase_at n (take ways (drop base before)) k,
      get_elem?-ways base ways before k,
      get_elem?-ways base ways before (suc k),
    )

-- The entries of one set, after one of them is overwritten.
queue_set :
    (before : List Entry) (base ways i : ℕ) (entry : Entry)
    → i < ways
    → base + ways ≤ length before
    → take ways (drop base (set before (base + i) entry))
      ≡ set (take ways (drop base before)) i entry
queue_set before base ways i entry lt room = list_ext _ _ (λ k.
    let inside : i < length (take ways (drop base before)) = in_ways in
    ground (
      arith,
      get_elem?-ways base ways (set before (base + i) entry) k,
      get_elem?-set before (base + i) (base + k) entry (omega arith),
      get_elem?-set (take ways (drop base before)) i k entry inside,
      get_elem?-ways base ways before k,
    ))
  where
    in_ways : i < length (take ways (drop base before))
    in_ways =
        let (e, at) = get_elem?_of_lt before (base + i) (omega arith) in
        lt_of_get_elem? (take ways (drop base before)) i {a = e}
          (ground (arith, get_elem?-ways base ways before i))

-- The way `i` of a set, in its queue.
pub get_elem?-queue :
    (c : Cache) (set_id i : ℕ)
    → get_elem? (queue c set_id) i
      ≡ (if ltb i c.ways then get_elem? c.placement (set_id * c.ways + i) else none)
get_elem?-queue c set_id i = get_elem?-ways (set_id * c.ways) c.ways c.placement i

pub length-queue :
    (c : Cache) (set_id : ℕ) → HasShape c → set_id < c.sets → length (queue c set_id) ≡ c.ways
length-queue c set_id shape in_sets =
    let room = shape.room in
    let inside : set_id * c.ways + c.ways ≤ c.sets * c.ways = set_in_room c.ways in_sets in
    length-part (set_id * c.ways) c.ways c.placement (omega arith)

pub queue-ext :
    (c own : Cache) (set_id : ℕ)
    → own.placement ≡ c.placement
    → own.ways ≡ c.ways
    → queue own set_id ≡ queue c set_id
queue-ext c own set_id entries ways = ap₂ (λ w xs. take w (drop (set_id * w) xs)) ways entries

-- The queues of the other sets are the same.
abbrev pub OthersKept : Cache → Cache → ℕ → Type 0
OthersKept c own set_id = (k : ℕ) → k ≢ set_id → queue own k ≡ queue c k

pub IsUpdated-OthersKept :
    (c own : Cache) (set_id i : ℕ) (entry : Entry)
    → own.ways ≡ c.ways
    → IsUpdated c.placement (set_id * c.ways) c.ways i entry own.placement
    → OthersKept c own set_id
IsUpdated-OthersKept c own set_id i entry ways u k ne =
    ap (λ w. take w (drop (k * w) own.placement)) ways ∙ list_ext _ _ same
  where
    same :
        (j : ℕ)
        → get_elem? (take c.ways (drop (k * c.ways) own.placement)) j ≡ get_elem? (queue c k) j
    same j = get_elem?-ways (k * c.ways) c.ways own.placement j ∙ elim (Bool-cases (ltb j c.ways)) [
      | inl on ↦ rw on (
          untouched (ground arith)
          ∙ sym (get_elem?-ways (k * c.ways) c.ways c.placement j ∙ rw on refl))
      | inr off ↦ rw off (sym (get_elem?-ways (k * c.ways) c.ways c.placement j ∙ rw off refl))
    ]
      where
        untouched :
            j < c.ways
            → get_elem? own.placement (k * c.ways + j) ≡ get_elem? c.placement (k * c.ways + j)
        untouched lt = elim (other_set k set_id c.ways j ne lt) [
          | inl h ↦ u.below _ h
          | inr h ↦ u.above _ h
        ]

module _ (c : Cache) (set_id : ℕ) (entry : Entry) (shape : HasShape c)
    (in_sets : set_id < c.sets) where
  -- The new entry at the way `i` of a cache that has kept its shape.
  queue-write :
      (i : ℕ) (c' : Cache)
      → i < c.ways
      → Kept c c'
      → Returns
          (λ placement.
            queue (record c' { placement = placement }) set_id
            ≡ take c.ways (drop (set_id * c.ways) (set c'.placement (set_id * c.ways + i) entry)))
          (write c'.placement (set_id * c'.ways + i) entry)
  queue-write i c' lt kept =
      let room = kept.shape.room in
      let inside : set_id * c.ways + c.ways ≤ c.sets * c.ways = set_in_room c.ways in_sets in
      let size = ap (λ x. x.sets * x.ways) kept.only in
      let same : set_id * c'.ways ≡ set_id * c.ways = ap (λ x. set_id * x.ways) kept.only in
      Returns_of_ok _ (write_of_lt c'.placement (set_id * c'.ways + i) entry (omega arith)) (
        ap
          (λ x. take x.ways (drop (set_id * x.ways) (set c'.placement (set_id * x.ways + i) entry)))
          kept.only)

  at_way :
      (i : ℕ)
      → i < c.ways
      → get_elem? (queue c set_id) i ≡ get_elem? c.placement (set_id * c.ways + i)
  at_way i lt = ground (arith, get_elem?-ways (set_id * c.ways) c.ways c.placement i)

  -- Under FIFO and LRU, in a cache in shape, the replacement reports the end of the queue of the set and
  -- the way 0; the queue is then the new entry in front of the old queue without its end.
  pub replace-queue :
      (draw : ℕ)
      → is_queue c ≡ true
      → Returns
          (λ (i, old, c').
            (i ≡ 0)
            × (get_elem? (queue c set_id) (c.ways - 1) ≡ some old)
            × (queue c' set_id ≡ entry ∷ erase_at (c.ways - 1) (queue c set_id)))
          (replace draw c set_id entry)
  unfolding replace
  replace-queue draw on = bind (choose-Choice draw c set_id shape in_sets) written
    where
      written :
          (r : ℕ × Entry × Cache)
          → Choice draw c set_id r
          → Returns
              (λ (i, old, c').
                (i ≡ 0)
                × (get_elem? (queue c set_id) (c.ways - 1) ≡ some old)
                × (queue c' set_id ≡ entry ∷ erase_at (c.ways - 1) (queue c set_id)))
              (write r.2.placement (set_id * r.2.ways + r.0) entry >>= λ placement.
                ok (r.0, r.1, record r.2 { placement = placement }))
      written _ (last {old} {c'} on' kept shifted at) =
          let pos = shape.ways_pos in
          let room = shape.room in
          let room' = kept.shape.room in
          let inside : set_id * c.ways + c.ways ≤ c.sets * c.ways = set_in_room c.ways in_sets in
          let size = ap (λ x. x.sets * x.ways) kept.only in
          let front : set_id * c.ways + 0 ≡ set_id * c.ways = omega arith in
          let back : set_id * c.ways + (c.ways - 1) ≡ set_id * c.ways + c.ways - 1 = omega arith in
          bind (queue-write 0 c' pos kept) (λ placement e. returns (
            refl,
            at_way (c.ways - 1) (omega arith) ∙ ap (get_elem? c.placement) back ∙ at,
            e
                ∙ ap (λ b. take c.ways (drop (set_id * c.ways) (set c'.placement b entry))) front
                ∙ queue_shifted c.placement c'.placement (set_id * c.ways) c.ways (c.ways - 1) entry
                    (omega arith) (omega arith) (omega arith) shifted,
          ))
      written _ (first off on' at) = cc
      written _ (random off off' at) = cc

  -- Under MRU, in a cache in shape, the replacement reports the front of the queue as replaced, but the
  -- last way as its index, and overwrites the end of the queue.
  pub replace-mru :
      (draw : ℕ)
      → is_queue c ≡ false
      → is_mru c ≡ true
      → Returns
          (λ (i, old, c').
            (i ≡ c.ways - 1)
            × (get_elem? (queue c set_id) 0 ≡ some old)
            × (queue c' set_id ≡ set (queue c set_id) (c.ways - 1) entry))
          (replace draw c set_id entry)
  unfolding replace
  replace-mru draw off on = bind (choose-Choice draw c set_id shape in_sets) written
    where
      written :
          (r : ℕ × Entry × Cache)
          → Choice draw c set_id r
          → Returns
              (λ (i, old, c').
                (i ≡ c.ways - 1)
                × (get_elem? (queue c set_id) 0 ≡ some old)
                × (queue c' set_id ≡ set (queue c set_id) (c.ways - 1) entry))
              (write r.2.placement (set_id * r.2.ways + r.0) entry >>= λ placement.
                ok (r.0, r.1, record r.2 { placement = placement }))
      written _ (last on' kept shifted at) = cc
      written _ (first {old} off' on' at) =
          let pos = shape.ways_pos in
          let room = shape.room in
          let inside : set_id * c.ways + c.ways ≤ c.sets * c.ways = set_in_room c.ways in_sets in
          let front : set_id * c.ways + 0 ≡ set_id * c.ways = omega arith in
          bind (queue-write (c.ways - 1) c (omega arith) (Kept-refl shape)) (λ placement e.
            returns (
              refl,
              at_way 0 pos ∙ ap (get_elem? c.placement) front ∙ at,
              e
                  ∙ queue_set c.placement (set_id * c.ways) c.ways (c.ways - 1) entry (omega arith)
                      (omega arith),
            ))
      written _ (random off' off'' at) = cc

  -- A hit that reorders, in a cache in shape, moves the entry to the front of the queue of the set, and
  -- keeps the order of the others.
  pub move_to_front-queue :
      (i : ℕ)
      → i < c.ways
      → get_elem? c.placement (set_id * c.ways + i) ≡ some entry
      → Returns
          (λ c'. queue c' set_id ≡ entry ∷ erase_at i (queue c set_id))
          (move_to_front c set_id i entry)
  unfolding move_to_front
  move_to_front-queue i lt at =
      let room = shape.room in
      let inside : set_id * c.ways + c.ways ≤ c.sets * c.ways = set_in_room c.ways in_sets in
      if-Returns (i == 0) (λ is_front. returns (unmoved is_front))
        (λ other. bind (shift_down-Kept set_id i c shape in_sets lt) (λ c' (kept, shifted).
          let room' = kept.shape.room in
          let size = ap (λ x. x.sets * x.ways) kept.only in
          let front : set_id * c.ways + 0 ≡ set_id * c.ways = omega arith in
          let front' : set_id * c'.ways + 0 ≡ set_id * c'.ways = omega arith in
          bind (rw front' at (queue-write 0 c' (omega arith) kept)) (λ placement e. returns (
            e
            ∙ ap (λ b. take c.ways (drop (set_id * c.ways) (set c'.placement b entry))) front
            ∙ queue_shifted c.placement c'.placement (set_id * c.ways) c.ways i entry lt
                (omega arith) (omega arith) shifted))))
    where
      unmoved : (i == 0) ≡ true → queue c set_id ≡ entry ∷ erase_at i (queue c set_id)
      unmoved is_front = list_ext _ _ same
        where
          same :
              (k : ℕ)
              → get_elem? (queue c set_id) k ≡ get_elem? (entry ∷ erase_at i (queue c set_id)) k
          same zero = let pos = shape.ways_pos in ground (arith, at_way 0 pos)
          same (suc k) = ground (arith, get_elem?-erase_at i (queue c set_id) k)
