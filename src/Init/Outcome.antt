-- ===== src/Init/Outcome.antt =====
-- The results of `Cache_init` of cachesim/backend.c, each with the reason for it.
use native.Mathlib.Nat.{div-one}
use pycachesim.Base.{
  ℕ, ◌*◌, ◌/◌, ◌%◌, ◌^◌, ◌<◌, ◌≡◌, ◌≢◌, refl, ap, ◌∙◌, Bool, true, false, ◌&&◌, not, Option, List,
  arith, ◌==◌, Returns, returns, bind, if-Returns,
}
use pycachesim.Api.{reset_stats}
use pycachesim.Api.Flat.{IsEmptied, AllInvalid-IsEmptied}
use pycachesim.Cache.{Cache, Stats}
use pycachesim.Init.{
  InitArgs, load_from_type, store_to_type, victims_to_type, cl_size_no_power, subblock_no_divisor,
  Init, failed, built, is_other, pointer, fresh_entries, new_field, init_sizes, cache_init,
}
use pycachesim.Init.Fresh.{length-fresh_entries, fresh_entries-invalid, HasBits, field-HasBits}
use pycachesim.Numbers.{is_power_of_two}
use pycachesim.Numbers.Laws.{IsPower, is_power_of_two-IsPower, log2_uint-IsPower}

-- The sizes that the rest of the program needs.
pub record IsUsable (args : InitArgs) : Type 0 where
  pub sets_pos : 0 < args.sets
  pub ways_pos : 0 < args.ways
  pub small : args.cl_size < 2 ^ 64
  pub subblock_pos : 0 < args.subblock_size
  -- A cache that combines writes has subblocks of one byte and writes back.
  pub combining :
      (args.write_combining == 1) ≡ true
      → (args.subblock_size ≡ 1) × (args.write_back ≡ 1) × (args.cl_size ≢ 1)

abbrev pub zero_stats : Stats
zero_stats = record { count = 0; byte = 0 }

-- Whether the bits of incomplete lines are allocated.
abbrev pub needs_bits : InitArgs → Bool
needs_bits args = not (args.write_combining == 0) && not (args.subblock_size == args.cl_size)

-- The object: its parameters and links are the arguments, its counters are 0, and it is empty.
pub record IsBuilt (args : InitArgs) (c : Cache) : Type 0 where
  pub emptied : IsEmptied c
  pub name : c.name ≡ args.name
  pub sets : c.sets ≡ args.sets
  pub ways : c.ways ≡ args.ways
  pub cl_size : c.cl_size ≡ args.cl_size
  pub subblock_size : c.subblock_size ≡ args.subblock_size
  pub subblock_bits : c.subblock_bits ≡ args.cl_size / args.subblock_size
  pub policy : c.replacement_policy_id ≡ args.replacement_policy_id
  pub write_back : c.write_back ≡ args.write_back
  pub write_allocate : c.write_allocate ≡ args.write_allocate
  pub write_combining : c.write_combining ≡ args.write_combining
  pub load_from : c.load_from ≡ pointer args.load_from
  pub store_to : c.store_to ≡ pointer args.store_to
  pub victims_to : c.victims_to ≡ pointer args.victims_to
  pub swap_on_load : c.swap_on_load ≡ args.swap_on_load
  pub verbosity : c.verbosity ≡ args.verbosity
  pub field :
      HasBits
        (needs_bits args)
        (args.sets * args.ways * (args.cl_size / args.subblock_size))
        c.subblock_bitfield
  pub no_load : c.load ≡ zero_stats
  pub no_store : c.store ≡ zero_stats
  pub no_hit : c.hit ≡ zero_stats
  pub no_miss : c.miss ≡ zero_stats
  pub no_evict : c.evict ≡ zero_stats

-- No link is of another type.
pub record AreLinks (args : InitArgs) : Type 0 where
  pub load_from : is_other args.load_from ≡ false
  pub store_to : is_other args.store_to ≡ false
  pub victims_to : is_other args.victims_to ≡ false

-- A result with the reason for it; each reason excludes the others.
pub data IsOutcome (args : InitArgs) : Init → Type 0 where
  bad_load_from : is_other args.load_from ≡ true → IsOutcome args (failed load_from_type)
  bad_store_to :
      is_other args.load_from ≡ false
      → is_other args.store_to ≡ true
      → IsOutcome args (failed store_to_type)
  bad_victims_to :
      is_other args.load_from ≡ false
      → is_other args.store_to ≡ false
      → is_other args.victims_to ≡ true
      → IsOutcome args (failed victims_to_type)
  bad_size : AreLinks args → ¬ IsPower args.cl_size → IsOutcome args (failed cl_size_no_power)
  bad_subblock :
      AreLinks args
      → IsPower args.cl_size
      → args.cl_size % args.subblock_size ≢ 0
      → IsOutcome args (failed subblock_no_divisor)
  good :
      {c : Cache}
      → AreLinks args
      → IsPower args.cl_size
      → args.cl_size % args.subblock_size ≡ 0
      → IsBuilt args c
      → IsOutcome args (built c)

module _ (memory chars : ℕ → ℕ) (args : InitArgs) (are_chars : (i : ℕ) → chars i < 256)
    (usable : IsUsable args) where
  needed : (args.write_combining == 1) ≡ true → needs_bits args ≡ true
  needed on = let (one, back, more) = usable.combining on in ground arith

  build : (ℕ → ℕ) → ℕ → Option (List ℕ) → Cache
  build memory cl_bits field = record {
    name = args.name;
    sets = args.sets;
    ways = args.ways;
    cl_size = args.cl_size;
    cl_bits = cl_bits;
    subblock_size = args.subblock_size;
    subblock_bits = args.cl_size / args.subblock_size;
    replacement_policy_id = args.replacement_policy_id;
    write_back = args.write_back;
    write_allocate = args.write_allocate;
    write_combining = args.write_combining;
    load_from = pointer args.load_from;
    store_to = pointer args.store_to;
    victims_to = pointer args.victims_to;
    swap_on_load = args.swap_on_load;
    placement = fresh_entries memory (args.sets * args.ways) 0;
    subblock_bitfield = field;
    load = zero_stats;
    store = zero_stats;
    hit = zero_stats;
    miss = zero_stats;
    evict = zero_stats;
    verbosity = args.verbosity;
  }

  build-IsBuilt :
      (cl_bits : ℕ) (field : Option (List ℕ))
      → args.cl_size ≡ 2 ^ cl_bits
      → HasBits
          (needs_bits args)
          (args.sets * args.ways * (args.cl_size / args.subblock_size))
          field
      → IsBuilt args (build memory cl_bits field)
  unfolding build
  build-IsBuilt cl_bits field size has = record {
    emptied =
        AllInvalid-IsEmptied (build memory cl_bits field)
          (record {
            sets_pos = usable.sets_pos;
            ways_pos = usable.ways_pos;
            size = size;
            room = length-fresh_entries memory (args.sets * args.ways) 0;
            combining = λ on.
                let (a, is, valid, enough) = has.there (needed on) in
                let (one, back, more) = usable.combining on in
                record {
                  chars = a;
                  is = is;
                  valid = valid;
                  enough = enough;
                  whole = ap (◌/◌ args.cl_size) one ∙ div-one args.cl_size;
                  back = back;
                };
          })
          (λ k e _ _ at. fresh_entries-invalid memory (args.sets * args.ways) 0 k e at);
    name = refl;
    sets = refl;
    ways = refl;
    cl_size = refl;
    subblock_size = refl;
    subblock_bits = refl;
    policy = refl;
    write_back = refl;
    write_allocate = refl;
    write_combining = refl;
    load_from = refl;
    store_to = refl;
    victims_to = refl;
    swap_on_load = refl;
    verbosity = refl;
    field = has;
    no_load = refl;
    no_store = refl;
    no_hit = refl;
    no_miss = refl;
    no_evict = refl;
  }

  init_sizes-IsOutcome : AreLinks args → Returns (IsOutcome args) (init_sizes memory chars args)
  unfolding init_sizes reset_stats build new_field
  init_sizes-IsOutcome links =
      let pos = usable.subblock_pos in
      let (to, from) = is_power_of_two-IsPower args.cl_size in
      if-Returns (not (is_power_of_two args.cl_size))
        (λ no. returns (bad_size links (λ p. let yes' = from p in ground arith)))
        (λ sure.
          let power = to (ground arith) in
          bind (log2_uint-IsPower args.cl_size power usable.small) (λ cl_bits size.
            if-Returns (args.subblock_size == 0) (λ none'. absurd (ground arith))
              (λ _.
                if-Returns (not (args.cl_size % args.subblock_size == 0))
                  (λ no. returns (bad_subblock links power (λ e. ground arith)))
                  (λ divides.
                    bind
                      (field-HasBits chars (needs_bits args)
                        (args.sets * args.ways * (args.cl_size / args.subblock_size)) are_chars)
                      (λ field has. returns (
                        good links power (ground arith) (build-IsBuilt cl_bits field size has)))))))

  -- With positive sizes, a `cl_size` below 2^64, and, if `write_combining` is 1, subblocks of one byte,
  -- write-back and lines of more than one byte, `Cache_init` returns the error for the first bad
  -- link, just if there is one; without one, an error for a `cl_size` that is no power of two, and else for a
  -- `subblock_size` that does not divide it, just if it is so; and else a cache in shape that is empty, with
  -- its parameters and links from the arguments, the bits that it needs, and its counters at 0.
  pub cache_init-IsOutcome : Returns (IsOutcome args) (cache_init memory chars args)
  unfolding cache_init
  cache_init-IsOutcome =
      if-Returns (is_other args.load_from) (λ on. returns (bad_load_from on))
        (λ off.
          if-Returns (is_other args.store_to) (λ on. returns (bad_store_to off on))
            (λ off'.
              if-Returns (is_other args.victims_to) (λ on. returns (bad_victims_to off off' on))
                (λ off''.
                  init_sizes-IsOutcome
                    (record { load_from = off; store_to = off'; victims_to = off'' }))))
