-- ===== src/Files/Sound.antt =====
-- The caches that `get_cacheSim_from_file` of cachesim/backend.c reads from settings with all that a cache needs.
use mathlib.Core.Option.{some-injective}
use mathlib.Core.Path.{ap₂, subst}
use pycachesim.Base.{
  ℕ, zero, suc, ◌+◌, ◌<◌, ◌%◌, ◌≡◌, ◌≢◌, refl, ap, true, false, some, List, [], ◌∷◌, length, map,
  get_elem?, Returns, returns, bind,
}
use pycachesim.Cache.{Cache}
use pycachesim.CString.{Text}
use pycachesim.Files.{Loading, loaded, def_of, exit_of, keep}
use pycachesim.Files.Whole.{Line, build}
use pycachesim.Linking.{CacheDef}
use pycachesim.Numbers.Laws.{IsPower}
use pycachesim.Settings.{Draft, zero_draft, assign_all, Checked, checked, subblock_of}
use pycachesim.Settings.Checks.{read_cache-IsReading}
use pycachesim.Settings.Reasons.{
  IsCacheOf, IsDraft, IsReading, nameless, without_sets, without_ways, without_lines, uneven,
  undivided, ready,
}

-- Settings with all that a cache needs.
pub record IsSound (d : Draft) : Type 0 where
  pub title : Text
  pub named : d.name ≡ some title
  pub some_sets : d.sets ≢ 0
  pub some_ways : d.ways ≢ 0
  pub some_size : d.cl_size ≢ 0
  pub even : IsPower d.cl_size
  pub divided : d.cl_size % subblock_of d ≡ 0
  pub usable : IsDraft d

sound_is_read :
    {d : Draft} (r : Checked)
    → IsSound d
    → IsReading d r
    → (c : Cache) × (r ≡ checked c) × IsCacheOf d c
sound_is_read _ s (nameless e) = let e' = s.named in cc
sound_is_read _ s (without_sets named e) = absurd (s.some_sets e)
sound_is_read _ s (without_ways named some_sets e) = absurd (s.some_ways e)
sound_is_read _ s (without_lines named some_sets some_ways e) = absurd (s.some_size e)
sound_is_read _ s (uneven given odd) = absurd (odd s.even)
sound_is_read _ s (undivided given power rest) = absurd (rest s.divided)
sound_is_read _ s (ready {c} given power divides is empty no_load no_store no_victims) =
    (c, refl, is)

abbrev pub def_in : Line → CacheDef
def_in (s, rest) = def_of (s ∷ rest)

abbrev pub draft_in : Line → Draft
draft_in (s, rest) = assign_all (s ∷ rest) zero_draft

abbrev pub AllSound : List Line → Type 0
AllSound [] = Unit {0}
AllSound (l ∷ more) = IsSound (draft_in l) × AllSound more

-- The caches of the lines, with their definitions.
abbrev pub Built : List Line → List (Cache × CacheDef) → Type 0
Built [] [] = Unit {0}
Built [] (x ∷ read) = false ≡ true
Built (l ∷ more) [] = false ≡ true
Built (l ∷ more) ((c, d) ∷ read) = IsCacheOf (draft_in l) c × (d ≡ def_in l) × Built more read

abbrev pub IsBuilt : List Line → Loading (List (Cache × CacheDef)) → Type 0
IsBuilt lines r = (read : List (Cache × CacheDef)) × (r ≡ loaded read) × Built lines read

module _ (memory chars : ℕ → ℕ → ℕ) (are_chars : (k i : ℕ) → chars k i < 256) where
  pub build-Built :
      (counter : ℕ) (lines : List Line)
      → AllSound lines
      → Returns (IsBuilt lines) (build memory chars counter lines)
  unfolding build exit_of keep
  build-Built counter [] all = returns ([], refl, tt)
  build-Built counter ((s, rest) ∷ more) (sound, all) =
      bind
        (read_cache-IsReading (memory counter) (chars counter) (s ∷ rest) (are_chars counter)
          sound.usable)
        (λ r reading.
          let (c, is, shape) = sound_is_read r sound reading in
          rw is (
            bind (build-Built (counter + 1) more all) (λ others (read, is', built).
              rw is' (returns ((c, def_of (s ∷ rest)) ∷ read, refl, (shape, refl, built))))))

pub Built-defs :
    (lines : List Line) (read : List (Cache × CacheDef))
    → Built lines read
    → (map (λ x. x.1) read ≡ map def_in lines) × (length read ≡ length lines)
Built-defs [] [] b = (refl, refl)
Built-defs [] (x ∷ read) b = cc
Built-defs (l ∷ more) [] b = cc
Built-defs (l ∷ more) ((c, d) ∷ read) (shape, is, b) =
    let (same, size) = Built-defs more read b in (ap₂ ◌∷◌ is same, ap suc size)

pub Built-IsCacheOf :
    (lines : List Line) (read : List (Cache × CacheDef)) (k : ℕ) (l : Line) (c : Cache)
    → Built lines read
    → get_elem? lines k ≡ some l
    → get_elem? (map (λ x. x.0) read) k ≡ some c
    → IsCacheOf (draft_in l) c
Built-IsCacheOf [] read k l c b at_l at = cc
Built-IsCacheOf (l' ∷ more) [] k l c b at_l at = cc
Built-IsCacheOf (l' ∷ more) ((c', d) ∷ read) zero l c (is_cache, is, b) at_l at =
    subst (λ x. IsCacheOf (draft_in x) c) (some-injective _ _ at_l)
      (subst (IsCacheOf (draft_in l')) (some-injective _ _ at) is_cache)
Built-IsCacheOf (l' ∷ more) ((c', d) ∷ read) (suc k) l c (is_cache, is, b) at_l at =
    Built-IsCacheOf more read k l c b at_l at
