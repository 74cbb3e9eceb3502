-- ===== src/Tests/Sizes.antt =====
-- Two LRU caches that differ in their ways, on which one list of addresses is loaded.
use mathlib.Core.Option.{some-injective}
use mathlib.Core.Path.{subst}
use pycachesim.Api.{iterload}
use pycachesim.Api.Larger.{AreLarger, iterload-IsLarger}
use pycachesim.Base.{
  ℕ, zero, suc, ◌*◌, ◌≤◌, ◌≡◌, refl, none, some, List, [], ◌∷◌, arith, length, take, drop,
  get_elem?, Returns,
}
use pycachesim.Cache.{Cache, Entry}
use pycachesim.Hierarchy.{Sim, ops}
use pycachesim.Hierarchy.Steps.{IsValid, IsLinked}
use pycachesim.Replace.Packed.{IsPacked, lines_of}
use pycachesim.Replace.Queue.{queue}
use pycachesim.Replace.Shape.{HasShape}
use pycachesim.Tests.{first_level, start, line, dirty_line, no_line}
use pycachesim.Tests.Orders.{first_level-Tracked}
use pycachesim.Tests.Shapes.{start-IsValid, not_combining}

-- The first level with four ways and no cache behind it.
abbrev wide : Cache
wide = record first_level {
  ways = 4;
  load_from = none;
  store_to = none;
  placement = line 4 ∷ dirty_line 6 ∷ line 2 ∷ no_line ∷ line 1 ∷ no_line ∷ no_line ∷ no_line ∷ [];
}

abbrev alone : Sim
alone = record { caches = wide ∷ []; rand = λ n. n; draws = 0 }

drop-long : (n : ℕ) (es : List Entry) → length es ≤ n → drop n es ≡ []
drop-long zero [] h = refl
drop-long zero (x ∷ es) h = absurd (omega arith)
drop-long (suc n) [] h = refl
drop-long (suc n) (x ∷ es) h = drop-long n es (omega arith)

no_third : (k : ℕ) → queue first_level (suc (suc k)) ≡ []
no_third k = rw (drop-long (suc (suc k) * 2) first_level.placement (omega arith)) refl

no_third_wide : (k : ℕ) → queue wide (suc (suc k)) ≡ []
no_third_wide k = rw (drop-long (suc (suc k) * 4) wide.placement (omega arith)) refl

wide-IsPacked : (k : ℕ) → IsPacked (queue wide k)
wide-IsPacked zero = (λ h. cc, (λ h. cc, (λ h. refl, (λ h. refl, tt))))
wide-IsPacked (suc zero) = (λ h. refl, (λ h. refl, (λ h. refl, (λ h. refl, tt))))
wide-IsPacked (suc (suc k)) = rw (no_third_wide k) tt

wide-HasShape : HasShape wide
wide-HasShape = record {
  sets_pos = omega arith;
  ways_pos = omega arith;
  size = refl;
  room = refl;
  combining = λ on. not_combining on;
}

of_one :
    {A : Type 0} (P : ℕ → A → Type 0) (x : A)
    → P 0 x
    → (i : ℕ) (a : A) → get_elem? (x ∷ []) i ≡ some a
    → P i a
of_one P x h zero a at = subst (P 0) (some-injective _ _ at) h
of_one P x h (suc i) a at = cc

alone-IsValid : IsValid 1 alone
alone-IsValid = record {
  count = refl;
  shape = of_one (λ _ c. HasShape c) wide wide-HasShape;
  linked =
      of_one (IsLinked 1) wide
        (record { load_from = λ q e. cc; store_to = λ q e. cc; victims_to = λ q e. cc });
}

wide-IsPart : (k : ℕ) → lines_of (queue first_level k) ≡ take 2 (lines_of (queue wide k))
wide-IsPart zero = refl
wide-IsPart (suc zero) = refl
wide-IsPart (suc (suc k)) = rw (no_third k, no_third_wide k) refl

iterload-IsLarger_example :
    Returns
      (λ (error, t).
        (error ≡ none)
        × Returns
            (λ (error', t'). (error' ≡ none) × AreLarger 0 0 t t')
            (iterload (ops 1) 0 5 alone (some (0 ∷ 30 ∷ 16 ∷ []))))
      (iterload (ops 3) 0 5 start (some (0 ∷ 30 ∷ 16 ∷ [])))
iterload-IsLarger_example =
    iterload-IsLarger 5 (omega arith) (0 ∷ 30 ∷ 16 ∷ []) start alone first_level wide
      (record {
        valid = start-IsValid;
        inside = omega arith;
        at = refl;
        tracked = first_level-Tracked;
        lru = refl;
      })
      (record {
        valid = alone-IsValid;
        inside = omega arith;
        at = refl;
        tracked = record { queued = refl; packed = wide-IsPacked };
        lru = refl;
      })
      (record {
        sets = refl;
        cl_size = refl;
        ways = omega arith;
        part = record { sets = wide-IsPart; hits = omega arith; misses = omega arith };
      })
