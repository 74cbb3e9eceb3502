-- ===== src/Tests/Orders.antt =====
-- The theorems on FIFO and LRU caches, used on the three caches of the tests.
use pycachesim.Api.{iterload}
use pycachesim.Api.Replay.{iterload-StandsFor}
use pycachesim.Base.{
  ℕ, zero, suc, ◌*◌, ◌≡◌, refl, true, none, some, [], ◌∷◌, arith, replicate, take, drop, Returns,
}
use pycachesim.Hierarchy.{ops}
use pycachesim.Hierarchy.Order.{IsOrdered, AllOrdered, calls-AllOrdered}
use pycachesim.Hierarchy.Reference.{use_ranges, view}
use pycachesim.Hierarchy.Tracking.{Tracked, StandsFor}
use pycachesim.Replace.Packed.{IsPacked}
use pycachesim.Tests.{first_level, second_level, victim_cache, start, dirty_line, no_line, range_at}
use pycachesim.Tests.Shapes.{start-IsValid, of_three}

drop-nil : (n : ℕ) → IsPacked (take 2 (drop n []))
drop-nil zero = tt
drop-nil (suc n) = tt

first_level-IsPacked : (n : ℕ) → IsPacked (take 2 (drop n first_level.placement))
first_level-IsPacked zero = (λ h. cc, (λ h. cc, tt))
first_level-IsPacked (suc zero) = (λ h. cc, (λ h. cc, tt))
first_level-IsPacked (suc (suc zero)) = (λ h. cc, (λ h. refl, tt))
first_level-IsPacked (suc (suc (suc zero))) = (λ h. refl, tt)
first_level-IsPacked (suc (suc (suc (suc n)))) = drop-nil n

empty-IsPacked : (n : ℕ) → IsPacked (take 2 (drop n (replicate 4 no_line)))
empty-IsPacked zero = (λ h. refl, (λ h. refl, tt))
empty-IsPacked (suc zero) = (λ h. refl, (λ h. refl, tt))
empty-IsPacked (suc (suc zero)) = (λ h. refl, (λ h. refl, tt))
empty-IsPacked (suc (suc (suc zero))) = (λ h. refl, tt)
empty-IsPacked (suc (suc (suc (suc n)))) = drop-nil n

pub first_level-Tracked : Tracked first_level
first_level-Tracked = record { queued = refl; packed = λ k. first_level-IsPacked (k * 2) }

iterload-StandsFor_example :
    Returns
      (λ (error, t).
        (error ≡ none)
        × StandsFor 3 0 first_level
            (use_ranges true 2 2 4 5 (0 ∷ 30 ∷ 16 ∷ []) (view first_level))
            t)
      (iterload (ops 3) 0 5 start (some (0 ∷ 30 ∷ 16 ∷ [])))
iterload-StandsFor_example =
    iterload-StandsFor 3 0 5 (omega arith) (omega arith) (0 ∷ 30 ∷ 16 ∷ []) start first_level
      start-IsValid refl first_level-Tracked

start-AllOrdered : AllOrdered start
start-AllOrdered =
    of_three (λ _ c. IsOrdered c) first_level second_level victim_cache
      (λ on k. first_level-IsPacked (k * 2)) (λ on k. empty-IsPacked (k * 2))
      (λ on k. empty-IsPacked (k * 2))

calls-AllOrdered_example :
    Returns (λ r. AllOrdered r.1) ((ops 3).load start 0 (range_at 30 12))
    × Returns AllOrdered ((ops 3).store start 0 (range_at 30 12) true)
    × Returns (λ r. AllOrdered r.1) ((ops 3).inject start 0 (dirty_line 8))
calls-AllOrdered_example =
    calls-AllOrdered 3 start 0 start-IsValid (omega arith) start-AllOrdered (range_at 30 12) true
      (dirty_line 8) refl
