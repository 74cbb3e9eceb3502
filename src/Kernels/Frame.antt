-- ===== src/Kernels/Frame.antt =====
-- What the programs of validation/kernels share: no test has more elements than the arrays, so what each repetition
-- keeps holds at the end.
use pycachesim.Base.{
  ℕ, zero, suc, ◌≤◌, ◌≡◌, Option, none, some, List, [], ◌∷◌, arith, ltb, if◌then◌else◌, Result, ok,
  Returns, returns, bind,
}
use pycachesim.CString.{Text}
use pycachesim.Kernels.{max_elements, repeat, run_tests, benchmark}

-- The sizes of each test fit.
abbrev pub AllFit : {E : Type 0} → (E → Type 0) → List (ℕ × E) → Type 0
AllFit fits [] = Unit {0}
AllFit fits ((r, e) ∷ rest) = fits e × AllFit fits rest

max_elements-le : (m : ℕ) (tests : List (ℕ × ℕ)) → m ≤ max_elements m tests
unfolding max_elements
max_elements-le m [] = omega arith
max_elements-le m ((r, n) ∷ rest) = ground (arith, max_elements-le (if ltb m n then n else m) rest)

pub max_elements-AllFit :
    (m : ℕ) (tests : List (ℕ × ℕ)) → AllFit (λ n. n ≤ max_elements m tests) tests
unfolding max_elements
max_elements-AllFit m [] = tt
max_elements-AllFit m ((r, n) ∷ rest) = (
  ground (arith, max_elements-le (if ltb m n then n else m) rest),
  max_elements-AllFit (if ltb m n then n else m) rest,
)

-- The usage if there are no arguments, and else a final state.
pub data IsRun {S : Type 0} (P : S → Type 0) : List Text → Option S → Type 0 where
  usage : IsRun P [] none
  run : {arg : Text} {args : List Text} {s : S} → P s → IsRun P (arg ∷ args) (some s)

module _ {S E : Type 0} (read_args : List Text → Result (List (ℕ × E)))
    (set_up : List (ℕ × E) → Result S) (begin : S → S) (pass : E → S → Result S) (P : S → Type 0)
    (fits : E → Type 0) (begins : (s : S) → P s → P (begin s))
    (goes_on : (e : E) (s : S) → fits e → P s → Returns P (pass e s)) where
  repeat-Returns : (r : ℕ) (e : E) (s : S) → fits e → P s → Returns P (repeat pass r e s)
  unfolding repeat
  repeat-Returns zero e s fit p = returns p
  repeat-Returns (suc r) e s fit p =
      bind (goes_on e s fit p) (λ s' p'. repeat-Returns r e s' fit p')

  run_tests-Returns :
      (tests : List (ℕ × E)) (s : S)
      → AllFit fits tests
      → P s
      → Returns P (run_tests read_args set_up begin pass tests s)
  unfolding run_tests
  run_tests-Returns [] s fit p = returns p
  run_tests-Returns ((r, e) ∷ rest) s (fit, all) p =
      bind (repeat-Returns 2 e _ fit (begins s p)) (λ s₁ p₁.
        bind (repeat-Returns r e _ fit (begins s₁ p₁)) (λ s₂ p₂. run_tests-Returns rest s₂ all p₂))

  pub benchmark-Returns :
      (args : List Text) (tests : List (ℕ × E))
      → read_args args ≡ ok tests
      → AllFit fits tests
      → Returns P (set_up tests)
      → Returns (IsRun P args) (benchmark read_args set_up begin pass args)
  unfolding benchmark
  benchmark-Returns [] tests e all starts = returns usage
  benchmark-Returns (arg ∷ args) tests e all starts =
      rw e (bind starts (λ s p. bind (run_tests-Returns tests s all p) (λ s' p'. returns (run p'))))
