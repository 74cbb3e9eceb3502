-- ===== src/Tests/Files.antt =====
-- The theorems on cache definition files, used on small ones.
use pycachesim.CString.{bytes}
use pycachesim.Base.{ℕ, ◌<◌, ◌≡◌, true, List, [], ◌∷◌, arith, ◌==◌, Returns}
use pycachesim.Linking.{link_caches}
use pycachesim.Linking.First.{IsFirst, link_caches-IsFirst}
use pycachesim.Settings.{
  Setting, name, sets, ways, cl_size, unrecognized, zero_draft, assign, assign_all, read_cache,
}
use pycachesim.Settings.Checks.{read_cache-IsReading}
use pycachesim.Settings.Reasons.{IsDraft, IsReading}
use pycachesim.Tests.{two_defs}

link_caches-IsFirst_example : Returns (λ r. IsFirst two_defs r.1) (link_caches two_defs)
link_caches-IsFirst_example = link_caches-IsFirst two_defs

abbrev some_settings : List Setting
some_settings = name (bytes "L1") ∷ sets 2 ∷ ways 2 ∷ cl_size 4 ∷ unrecognized (bytes "size") ∷ []

some_settings-IsDraft : IsDraft (assign_all some_settings zero_draft)
unfolding assign assign_all
some_settings-IsDraft = record { small = omega arith; combining = λ on. off on }
  where
    off : {P : Type 0} → (0 == 1) ≡ true → P
    off on = cc

memory : ℕ → ℕ
memory i = 7

memory-IsChar : (i : ℕ) → memory i < 256
unfolding memory
memory-IsChar i = omega arith

read_cache-IsReading_example :
    Returns
      (IsReading (assign_all some_settings zero_draft))
      (read_cache memory memory some_settings)
read_cache-IsReading_example =
    read_cache-IsReading memory memory some_settings memory-IsChar some_settings-IsDraft
