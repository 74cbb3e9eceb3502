-- ===== src/Settings/Reasons.antt =====
-- What the reading of one cache definition may result in, each with the reason for it.
use pycachesim.CString.{Text}
use pycachesim.Base.{
  ◌*◌, ◌/◌, ◌%◌, ◌^◌, ◌<◌, ◌≡◌, ◌≢◌, Bool, true, ◌&&◌, not, none, some, ◌==◌, length,
}
use pycachesim.Api.Flat.{AllInvalid, IsEmptied}
use pycachesim.Cache.{Cache}
use pycachesim.Init.Fresh.{HasBits}
use pycachesim.Init.Outcome.{zero_stats}
use pycachesim.Replace.Shape.{HasShape}
use pycachesim.Numbers.Laws.{IsPower}
use pycachesim.Settings.{
  Draft, Checked, exits, checked, no_name, no_sets, no_ways, no_cl_size, cl_size_no_power,
  subblock_no_divisor, subblock_of,
}

-- What the rest of the program needs of a draft: a `cl_size` that fits, and subblocks of one byte and
-- write-back in a cache that combines writes.
pub record IsDraft (d : Draft) : Type 0 where
  pub small : d.cl_size < 2 ^ 64
  pub combining :
      (d.write_combining == 1) ≡ true → (d.subblock_size ≡ 1) × (d.write_back ≡ 1) × (d.cl_size ≢ 1)

-- Whether the bits of incomplete lines are allocated.
abbrev pub needs_bits : Draft → Bool
needs_bits d = not (d.write_combining == 0) && not (subblock_of d == d.cl_size)

-- A cache with the parameters of the settings and its counters at 0, all of whose entries are invalid.
pub record IsCacheOf (d : Draft) (c : Cache) : Type 0 where
  pub named : d.name ≡ some c.name
  pub sets : c.sets ≡ d.sets
  pub ways : c.ways ≡ d.ways
  pub cl_size : c.cl_size ≡ d.cl_size
  pub subblock_size : c.subblock_size ≡ subblock_of d
  pub subblock_bits : c.subblock_bits ≡ d.cl_size / subblock_of d
  pub policy : c.replacement_policy_id ≡ d.replacement_policy_id
  pub write_back : c.write_back ≡ d.write_back
  pub write_allocate : c.write_allocate ≡ d.write_allocate
  pub write_combining : c.write_combining ≡ d.write_combining
  pub swap_on_load : c.swap_on_load ≡ d.swap_on_load
  pub verbosity : c.verbosity ≡ 0
  pub shape : HasShape c
  pub invalid : AllInvalid c 0 (length c.placement)
  pub field :
      HasBits (needs_bits d) (d.sets * d.ways * (d.cl_size / subblock_of d)) c.subblock_bitfield
  pub no_load : c.load ≡ zero_stats
  pub no_store : c.store ≡ zero_stats
  pub no_hit : c.hit ≡ zero_stats
  pub no_miss : c.miss ≡ zero_stats
  pub no_evict : c.evict ≡ zero_stats

-- The name and the sizes are given.
pub record IsGiven (d : Draft) : Type 0 where
  pub title : Text
  pub named : d.name ≡ some title
  pub some_sets : d.sets ≢ 0
  pub some_ways : d.ways ≢ 0
  pub some_size : d.cl_size ≢ 0

-- A result with the reason for it; each reason excludes the others.
pub data IsReading (d : Draft) : Checked → Type 0 where
  nameless : d.name ≡ none → IsReading d (exits no_name)
  without_sets : {title : Text} → d.name ≡ some title → d.sets ≡ 0 → IsReading d (exits no_sets)
  without_ways :
      {title : Text} → d.name ≡ some title → d.sets ≢ 0 → d.ways ≡ 0 → IsReading d (exits no_ways)
  without_lines :
      {title : Text}
      → d.name ≡ some title
      → d.sets ≢ 0
      → d.ways ≢ 0
      → d.cl_size ≡ 0
      → IsReading d (exits no_cl_size)
  uneven : IsGiven d → ¬ IsPower d.cl_size → IsReading d (exits cl_size_no_power)
  undivided :
      IsGiven d
      → IsPower d.cl_size
      → d.cl_size % subblock_of d ≢ 0
      → IsReading d (exits subblock_no_divisor)
  ready :
      {c : Cache}
      → IsGiven d
      → IsPower d.cl_size
      → d.cl_size % subblock_of d ≡ 0
      → IsCacheOf d c
      → IsEmptied c
      → c.load_from ≡ none
      → c.store_to ≡ none
      → c.victims_to ≡ none
      → IsReading d (checked c)
