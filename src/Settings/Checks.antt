-- ===== src/Settings/Checks.antt =====
-- The results of reading one cache definition, each with the reason for it.
use native.Mathlib.Nat.{div-one}
use pycachesim.CString.{Text}
use pycachesim.Base.{
  ℕ, ◌*◌, ◌/◌, ◌%◌, ◌^◌, ◌<◌, ◌≡◌, ◌≢◌, refl, ap, ◌∙◌, true, not, Option, none, some, List, arith,
  ◌==◌, ==→eq, length, Returns, returns, bind, if-Returns,
}
use pycachesim.Api.Flat.{AllInvalid, AllInvalid-IsEmptied}
use pycachesim.Cache.{Cache}
use pycachesim.Init.{fresh_entries}
use pycachesim.Init.Fresh.{length-fresh_entries, fresh_entries-invalid, HasBits, field-HasBits}
use pycachesim.Init.Outcome.{zero_stats}
use pycachesim.Replace.Shape.{HasShape}
use pycachesim.Numbers.{is_power_of_two}
use pycachesim.Numbers.Laws.{is_power_of_two-IsPower, log2_uint-IsPower}
use pycachesim.Settings.{
  Setting, Draft, zero_draft, assign_all, subblock_of, draft_field, allocate_draft, check_sizes,
  check_draft, read_cache,
}
use pycachesim.Settings.Reasons.{
  needs_bits, IsDraft, IsCacheOf, IsGiven, IsReading, nameless, without_sets, without_ways,
  without_lines, uneven, undivided, ready,
}

module _ (memory chars : ℕ → ℕ) (d : Draft) (are_chars : (i : ℕ) → chars i < 256)
    (usable : IsDraft d) where
  one_byte : (d.write_combining == 1) ≡ true → subblock_of d ≡ 1
  one_byte on = let (one, back, more) = usable.combining on in ground arith

  needed : (d.write_combining == 1) ≡ true → needs_bits d ≡ true
  needed on = let same = one_byte on in let (one, back, more) = usable.combining on in ground arith

  module _ (title : Text) (named : d.name ≡ some title) where
    build : ℕ → Option (List ℕ) → Cache
    build bits field = record {
      name = title;
      sets = d.sets;
      ways = d.ways;
      cl_size = d.cl_size;
      cl_bits = bits;
      subblock_size = subblock_of d;
      subblock_bits = d.cl_size / subblock_of d;
      replacement_policy_id = d.replacement_policy_id;
      write_back = d.write_back;
      write_allocate = d.write_allocate;
      write_combining = d.write_combining;
      load_from = none;
      store_to = none;
      victims_to = none;
      swap_on_load = d.swap_on_load;
      placement = fresh_entries memory (d.sets * d.ways) 0;
      subblock_bitfield = field;
      load = zero_stats;
      store = zero_stats;
      hit = zero_stats;
      miss = zero_stats;
      evict = zero_stats;
      verbosity = 0;
    }

    abbrev BitsFor : Option (List ℕ) → Type 0
    BitsFor = HasBits (needs_bits d) (d.sets * d.ways * (d.cl_size / subblock_of d))

    build-HasShape :
        (bits : ℕ) (field : Option (List ℕ))
        → IsGiven d
        → d.cl_size ≡ 2 ^ bits
        → BitsFor field
        → HasShape (build bits field)
    unfolding build
    build-HasShape bits field given size has =
        let some_sets = given.some_sets in
        let some_ways = given.some_ways in
        record {
          sets_pos = ground arith;
          ways_pos = ground arith;
          size = size;
          room = length-fresh_entries memory (d.sets * d.ways) 0;
          combining = λ on.
              let (a, is, valid, enough) = has.there (needed on) in
              let (one, back, more) = usable.combining on in
              record {
                chars = a;
                is = is;
                valid = valid;
                enough = enough;
                whole = ap (◌/◌ d.cl_size) (one_byte on) ∙ div-one d.cl_size;
                back = back;
              };
        }

    build-invalid :
        (bits : ℕ) (field : Option (List ℕ))
        → AllInvalid (build bits field) 0 (length (build bits field).placement)
    unfolding build
    build-invalid bits field k e _ _ at = fresh_entries-invalid memory (d.sets * d.ways) 0 k e at

    build-IsCacheOf :
        (bits : ℕ) (field : Option (List ℕ))
        → HasShape (build bits field)
        → BitsFor field
        → IsCacheOf d (build bits field)
    unfolding build
    build-IsCacheOf bits field shape has = record {
      named = named;
      sets = refl;
      ways = refl;
      cl_size = refl;
      subblock_size = refl;
      subblock_bits = refl;
      policy = refl;
      write_back = refl;
      write_allocate = refl;
      write_combining = refl;
      swap_on_load = refl;
      verbosity = refl;
      shape = shape;
      invalid = build-invalid bits field;
      field = has;
      no_load = refl;
      no_store = refl;
      no_hit = refl;
      no_miss = refl;
      no_evict = refl;
    }

    allocate_draft-IsReading :
        (bits : ℕ)
        → IsGiven d
        → d.cl_size ≡ 2 ^ bits
        → d.cl_size % subblock_of d ≡ 0
        → Returns (IsReading d) (allocate_draft memory chars title d bits)
    unfolding allocate_draft draft_field build
    allocate_draft-IsReading bits given size divides =
        bind
          (field-HasBits chars (needs_bits d) (d.sets * d.ways * (d.cl_size / subblock_of d))
            are_chars)
          (λ field has.
            let shape = build-HasShape bits field given size has in
            returns (
              ready given (bits, size) divides (build-IsCacheOf bits field shape has)
                (AllInvalid-IsEmptied (build bits field) shape (build-invalid bits field)) refl refl
                refl))

    check_sizes-IsReading : Returns (IsReading d) (check_sizes memory chars title d)
    unfolding check_sizes
    check_sizes-IsReading =
        let (to, from) = is_power_of_two-IsPower d.cl_size in
        if-Returns (d.sets == 0) (λ e. returns (without_sets named (==→eq _ _ e)))
          (λ s_pos.
            let some_sets : d.sets ≢ 0 = λ e. ground arith in
            if-Returns (d.ways == 0) (λ e. returns (without_ways named some_sets (==→eq _ _ e)))
              (λ w_pos.
                let some_ways : d.ways ≢ 0 = λ e. ground arith in
                if-Returns (d.cl_size == 0)
                  (λ e. returns (without_lines named some_sets some_ways (==→eq _ _ e)))
                  (λ l_pos.
                    let given : IsGiven d = record {
                      title = title;
                      named = named;
                      some_sets = some_sets;
                      some_ways = some_ways;
                      some_size = λ e. ground arith;
                    } in
                    if-Returns (not (is_power_of_two d.cl_size))
                      (λ no_power.
                        returns (uneven given (λ p. let is_power = from p in ground arith)))
                      (λ sure.
                        let power = to (ground arith) in
                        bind (log2_uint-IsPower d.cl_size power usable.small) (λ bits size.
                          if-Returns (not (d.cl_size % subblock_of d == 0))
                            (λ rest. returns (undivided given power (λ e. ground arith)))
                            (λ divides.
                              allocate_draft-IsReading bits given size (ground arith)))))))

  check_draft-IsReading :
      (title : Option Text)
      → d.name ≡ title
      → Returns (IsReading d) (check_draft memory chars d title)
  unfolding check_draft
  check_draft-IsReading none e = returns (nameless e)
  check_draft-IsReading (some title) e = check_sizes-IsReading title e

pub read_cache-IsReading :
    (memory chars : ℕ → ℕ) (settings : List Setting)
    → ((i : ℕ) → chars i < 256)
    → IsDraft (assign_all settings zero_draft)
    → Returns (IsReading (assign_all settings zero_draft)) (read_cache memory chars settings)
unfolding read_cache
read_cache-IsReading memory chars settings are_chars usable =
    check_draft-IsReading memory chars (assign_all settings zero_draft) are_chars usable
      (assign_all settings zero_draft).name refl
