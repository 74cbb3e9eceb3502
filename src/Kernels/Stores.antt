-- ===== src/Kernels/Stores.antt =====
-- The benchmark store.c of validation/kernels: what its array holds in the end.
use mathlib.Core.Path.{subst}
use native.Mathlib.Decide.{dec_lt}
use pycachesim.Base.{
  ℕ, zero, suc, ◌+◌, ◌≤◌, ◌<◌, ◌≡◌, ◌∙◌, some, List, [], ◌∷◌, arith, ltb, if◌then◌else◌, length,
  get_elem?, get_elem?-set, length-set, set, Result, ok, Returns, returns, bind, weaken,
  write_of_lt,
}
use pycachesim.CString.{Text}
use pycachesim.Kernels.{
  max_elements, read_tests, repeat, run_tests, benchmark, one_array, store_loop, store_main,
}
use pycachesim.Kernels.Frame.{AllFit, IsRun, usage, run, max_elements-AllFit}

-- An array of `m` elements, the first `n` of which are `v`.
pub record IsFilled {D : Type 0} (v : D) (m n : ℕ) (a : List D) : Type 0 where
  pub size : length a ≡ m
  pub filled : (j : ℕ) → j < n → get_elem? a j ≡ some v

abbrev at_least : ℕ → ℕ → ℕ
at_least c n = if ltb c n then n else c

module _ {D : Type 0} (of_int : ℕ → D) (plus : D → D → D) (left_over : D) (v : D) where
  -- The loop from the element `i` on goes on where the first `i` elements are `v`.
  store_loop-IsFilled :
      (k i m c : ℕ) (a : List D)
      → i + k ≤ m
      → IsFilled v m c a
      → IsFilled v m i a
      → Returns
          (λ a'. IsFilled v m c a' × IsFilled v m (i + k) a')
          (store_loop of_int plus left_over v k i a)
  unfolding store_loop
  store_loop-IsFilled zero i m c a le before here =
      returns (before, record { size = here.size; filled = λ j lt. here.filled j (omega arith) })
  store_loop-IsFilled (suc k) i m c a le before here =
      let size = here.size in
      let lt : i < length a = omega arith in
      let next : i + 1 + k ≡ i + suc k = omega arith in
      rw (write_of_lt a i v lt) (
        weaken
          (store_loop-IsFilled k (i + 1) m c (set a i v) (omega arith)
            (record {
              size = length-set a i v ∙ size;
              filled =
                  λ j h. let kept = before.filled j h in ground (arith, get_elem?-set a i j v lt);
            })
            (record {
              size = length-set a i v ∙ size;
              filled = λ j h. elim (dec_lt j i) [
                | yes below ↦
                    let kept = here.filled j below in ground (arith, get_elem?-set a i j v lt)
                | no other ↦ ground (arith, get_elem?-set a i j v lt)
              ];
            }))
          (λ a' (all, done). (all, subst (λ n. IsFilled v m n a') next done)))

  abbrev pass : ℕ → List D → Result (List D)
  pass n a = store_loop of_int plus left_over v n 0 a

  pass-IsFilled :
      (m c n : ℕ) (a : List D)
      → n ≤ m
      → IsFilled v m c a
      → Returns (IsFilled v m (at_least c n)) (pass n a)
  pass-IsFilled m c n a le before =
      weaken
        (store_loop-IsFilled n 0 m c a (omega arith) before
          (record { size = before.size; filled = λ j lt. absurd (omega arith) }))
        (λ a' (all, done). record {
          size = all.size;
          filled = λ j lt. elim (dec_lt j c) [
            | yes below ↦ all.filled j below
            | no other ↦ done.filled j (ground (arith, lt))
          ];
        })

  repeat-IsFilled :
      (r m c n : ℕ) (a : List D)
      → n ≤ m
      → n ≤ c
      → IsFilled v m c a
      → Returns (IsFilled v m c) (repeat pass r n a)
  unfolding repeat
  repeat-IsFilled zero m c n a le below before = returns before
  repeat-IsFilled (suc r) m c n a le below before =
      let same : at_least c n ≡ c = ground arith in
      bind (pass-IsFilled m c n a le before)
        (λ a' done. repeat-IsFilled r m c n a' le below (subst (λ d. IsFilled v m d a') same done))

  warm_up-IsFilled :
      (m c n : ℕ) (a : List D)
      → n ≤ m
      → IsFilled v m c a
      → Returns (IsFilled v m (at_least c n)) (repeat pass 2 n a)
  unfolding repeat
  warm_up-IsFilled m c n a le before =
      bind (pass-IsFilled m c n a le before)
        (λ a' done. repeat-IsFilled 1 m (at_least c n) n a' le (ground arith) done)

  run_tests-IsFilled :
      (m c : ℕ) (tests : List (ℕ × ℕ)) (a : List D)
      → AllFit (λ n. n ≤ m) tests
      → IsFilled v m c a
      → Returns (IsFilled v m (max_elements c tests)) (
          run_tests read_tests
            (λ tests. one_array of_int plus left_over (max_elements 0 tests))
            (λ a. a)
            pass
            tests
            a)
  unfolding run_tests max_elements
  run_tests-IsFilled m c [] a fit before = returns before
  run_tests-IsFilled m c ((r, n) ∷ rest) a (le, fit) before =
      bind (warm_up-IsFilled m c n a le before) (λ a₁ done₁.
        bind (repeat-IsFilled r m (at_least c n) n a₁ le (ground arith) done₁)
          (λ a₂ done₂. run_tests-IsFilled m (at_least c n) rest a₂ fit done₂))

  -- In the end each element of the array is the number that is stored.
  pub store_main-IsFilled :
      ((m : ℕ) → Returns (λ a. length a ≡ m) (one_array of_int plus left_over m))
      → (args : List Text) (tests : List (ℕ × ℕ)) → read_tests args ≡ ok tests
      → Returns
          (IsRun (IsFilled v (max_elements 0 tests) (max_elements 0 tests)) args)
          (store_main of_int plus left_over v args)
  unfolding store_main benchmark
  store_main-IsFilled starts [] tests e = returns usage
  store_main-IsFilled starts (arg ∷ args) tests e = rw e (
      bind (starts (max_elements 0 tests)) (λ a size.
        bind
          (run_tests-IsFilled (max_elements 0 tests) 0 tests a (max_elements-AllFit 0 tests)
            (record { size = size; filled = λ j lt. absurd (omega arith) }))
          (λ a' done. returns (run done))))
