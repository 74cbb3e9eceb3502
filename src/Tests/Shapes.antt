-- ===== src/Tests/Shapes.antt =====
-- The shape of the caches of the tests, and of their hierarchy.
use mathlib.Core.Option.{some-injective}
use mathlib.Core.Path.{subst}
use pycachesim.Base.{
  ℕ, zero, suc, ◌<◌, ◌≡◌, refl, true, none, some, [], ◌∷◌, arith, get_elem?, ◌==◌,
}
use pycachesim.Bits.Laws.{IsChars}
use pycachesim.Hierarchy.Steps.{IsValid, IsLinked}
use pycachesim.Replace.Shape.{HasShape}
use pycachesim.Tests.{first_level, second_level, victim_cache, mru_cache, start}

-- An element of a list of three is one of them.
pub of_three :
    {A : Type 0} (P : ℕ → A → Type 0) (x y z : A)
    → P 0 x
    → P 1 y
    → P 2 z
    → (i : ℕ) (a : A) → get_elem? (x ∷ y ∷ z ∷ []) i ≡ some a
    → P i a
of_three P x y z h₀ h₁ h₂ zero a at = subst (P 0) (some-injective _ _ at) h₀
of_three P x y z h₀ h₁ h₂ (suc zero) a at = subst (P 1) (some-injective _ _ at) h₁
of_three P x y z h₀ h₁ h₂ (suc (suc zero)) a at = subst (P 2) (some-injective _ _ at) h₂
of_three P x y z h₀ h₁ h₂ (suc (suc (suc i))) a at = cc

pub two_zeros-IsChars : IsChars (0 ∷ 0 ∷ [])
two_zeros-IsChars zero x at = ground (arith, at)
two_zeros-IsChars (suc zero) x at = ground (arith, at)
two_zeros-IsChars (suc (suc i)) x at = cc

-- No cache that does not combine writes needs bits.
pub not_combining : {P : Type 0} → (0 == 1) ≡ true → P
not_combining e = cc

pub first_level-HasShape : HasShape first_level
first_level-HasShape = record {
  sets_pos = omega arith;
  ways_pos = omega arith;
  size = refl;
  room = refl;
  combining = λ on. not_combining on;
}

pub mru_cache-HasShape : HasShape mru_cache
mru_cache-HasShape = record {
  sets_pos = omega arith;
  ways_pos = omega arith;
  size = refl;
  room = refl;
  combining = λ on. not_combining on;
}

victim_cache-HasShape : HasShape victim_cache
victim_cache-HasShape = record {
  sets_pos = omega arith;
  ways_pos = omega arith;
  size = refl;
  room = refl;
  combining = λ on. not_combining on;
}

second_level-HasShape : HasShape second_level
second_level-HasShape = record {
  sets_pos = omega arith;
  ways_pos = omega arith;
  size = refl;
  room = refl;
  combining = λ on. record {
    chars = 0 ∷ 0 ∷ [];
    is = refl;
    valid = two_zeros-IsChars;
    enough = omega arith;
    whole = refl;
    back = refl;
  };
}

no_link : {p : ℕ} (q : ℕ) → none ≡ some q → (p < q) × (q < 3)
no_link q e = cc

link : {p t : ℕ} (q : ℕ) → p < t → t < 3 → some t ≡ some q → (p < q) × (q < 3)
link {t} q h k e = let same : t ≡ q = some-injective _ _ e in (omega arith, omega arith)

pub start-IsValid : IsValid 3 start
start-IsValid = record {
  count = refl;
  shape =
      of_three (λ _ c. HasShape c) first_level second_level victim_cache first_level-HasShape
        second_level-HasShape victim_cache-HasShape;
  linked =
      of_three (IsLinked 3) first_level second_level victim_cache
        (record {
          load_from = λ q e. link q (omega arith) (omega arith) e;
          store_to = λ q e. link q (omega arith) (omega arith) e;
          victims_to = no_link;
        })
        (record {
          load_from = no_link;
          store_to = no_link;
          victims_to = λ q e. link q (omega arith) (omega arith) e;
        })
        (record { load_from = no_link; store_to = no_link; victims_to = no_link });
}
