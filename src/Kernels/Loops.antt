-- ===== src/Kernels/Loops.antt =====
-- The bounds of the accesses in the benchmarks of validation/kernels.
use native.Mathlib.Decide.{dec_lt}
use pycachesim.Base.{
  ℕ, zero, suc, ◌+◌, ◌-◌, ◌⊎◌, inl, inr, ◌∙◌, ◌≤◌, ◌≡◌, List, arith, length, length-replicate,
  length-set, ok, Returns, returns, bind, read_of_lt, write_of_lt,
}
use pycachesim.CString.{Text}
use pycachesim.Kernels.{
  read_tests, max_elements, Arrays, fill, fill_both, one_array, two_arrays, load_loop, update_loop,
  copy_loop, stencil_loop, load_pass, copy_pass, stencil_pass, no_sum, array_and_sum, load_main,
  store_main, update_main, copy_main, stencil_main,
}
use pycachesim.Kernels.Stores.{IsFilled, store_main-IsFilled}
use pycachesim.Kernels.Frame.{IsRun, max_elements-AllFit, benchmark-Returns}

module _ {D : Type 0} (of_int : ℕ → D) (plus : D → D → D) (left_over : D) where
  abbrev pub Long : ℕ → List D → Type 0
  Long m a = length a ≡ m

  pub record BothLong (m : ℕ) (s : Arrays D) : Type 0 where
    pub a : length s.a ≡ m
    pub b : length s.b ≡ m

  pub fill-Long :
      (k i m : ℕ) (a : List D)
      → i + k ≤ m
      → Long m a
      → Returns (Long m) (fill of_int plus left_over k i a)
  unfolding fill
  fill-Long zero i m a le size = returns size
  fill-Long (suc k) i m a le size =
      rw (write_of_lt a i (of_int i) (omega arith))
        (fill-Long k (i + 1) m _ (omega arith) (length-set a i (of_int i) ∙ size))

  fill_both-BothLong :
      (k i m : ℕ) (s : Arrays D)
      → i + k ≤ m
      → BothLong m s
      → Returns (BothLong m) (fill_both of_int plus left_over k i m s)
  unfolding fill_both
  fill_both-BothLong zero i m s le size = returns size
  fill_both-BothLong (suc k) i m s le size =
      let size_a = size.a in
      let size_b = size.b in
      rw
        (
          write_of_lt s.a i (of_int i) (omega arith),
          write_of_lt s.b i (of_int (m - i)) (omega arith),
        )
        (fill_both-BothLong k (i + 1) m _ (omega arith) (record {
          a = length-set s.a i (of_int i) ∙ size.a;
          b = length-set s.b i (of_int (m - i)) ∙ size.b;
        }))

  load_loop-Returns :
      (k i m : ℕ) (a : List D) (s : D)
      → i + k ≤ m
      → Long m a
      → Returns (λ _. Unit {0}) (load_loop of_int plus left_over k i a s)
  unfolding load_loop
  load_loop-Returns zero i m a s le size = returns tt
  load_loop-Returns (suc k) i m a s le size =
      bind (read_of_lt a i (omega arith))
        (λ x at. load_loop-Returns k (i + 1) m a (plus s x) (omega arith) size)

  update_loop-Long :
      (v : D) (k i m : ℕ) (a : List D)
      → i + k ≤ m
      → Long m a
      → Returns (Long m) (update_loop of_int plus left_over v k i a)
  unfolding update_loop
  update_loop-Long v zero i m a le size = returns size
  update_loop-Long v (suc k) i m a le size = bind (read_of_lt a i (omega arith)) (λ x at.
      rw (write_of_lt a i (plus x v) (omega arith))
        (update_loop-Long v k (i + 1) m _ (omega arith) (length-set a i (plus x v) ∙ size)))

  copy_loop-Long :
      (k i m : ℕ) (a b : List D)
      → i + k ≤ m
      → Long m a
      → Long m b
      → Returns (Long m) (copy_loop of_int plus left_over k i a b)
  unfolding copy_loop
  copy_loop-Long zero i m a b le size size_b = returns size
  copy_loop-Long (suc k) i m a b le size size_b = bind (read_of_lt b i (omega arith)) (λ x at.
      rw (write_of_lt a i x (omega arith))
        (copy_loop-Long k (i + 1) m _ b (omega arith) (length-set a i x ∙ size) size_b))

  -- The neighbours are in the array, as the loop starts at 1 and ends before the last element.
  stencil_loop-Long :
      (k x m : ℕ) (a b : List D)
      → x + k + 1 ≤ m ⊎ (k ≡ 0)
      → Long m a
      → Long m b
      → Returns (Long m) (stencil_loop of_int plus left_over k x a b)
  unfolding stencil_loop
  stencil_loop-Long zero x m a b le size size_b = returns size
  stencil_loop-Long (suc k) x m a b (inr e) size size_b = absurd (omega arith)
  stencil_loop-Long (suc k) x m a b (inl le) size size_b =
      bind (read_of_lt b (x - 1) (omega arith)) (λ left at_left.
        bind (read_of_lt b x (omega arith)) (λ here at_here.
          bind (read_of_lt b (x + 1) (omega arith)) (λ right at_right.
            rw (write_of_lt a x (plus (plus left here) right) (omega arith)) (
              stencil_loop-Long k (x + 1) m _ b (inl (omega arith))
                (length-set a x (plus (plus left here) right) ∙ size) size_b))))

  load_pass-Long :
      (m n : ℕ) (s : List D × D)
      → n ≤ m
      → Long m s.0
      → Returns (λ r. Long m r.0) (load_pass of_int plus left_over n s)
  unfolding load_pass
  load_pass-Long m n (a, s) le size =
      bind (load_loop-Returns n 0 m a s (omega arith) size) (λ s' _. returns size)

  copy_pass-BothLong :
      (m n : ℕ) (s : Arrays D)
      → n ≤ m
      → BothLong m s
      → Returns (BothLong m) (copy_pass of_int plus left_over n s)
  unfolding copy_pass
  copy_pass-BothLong m n s le size =
      bind (copy_loop-Long n 0 m s.a s.b (omega arith) size.a size.b)
        (λ a' size'. returns (record { a = size.b; b = size' }))

  stencil_pass-BothLong :
      (m n : ℕ) (s : Arrays D)
      → n ≤ m
      → BothLong m s
      → Returns (BothLong m) (stencil_pass of_int plus left_over n s)
  unfolding stencil_pass
  stencil_pass-BothLong m n s le size =
      bind (stencil_loop-Long (n - 2) 1 m s.a s.b inner size.a size.b)
        (λ a' size'. returns (record { a = size.b; b = size' }))
    where
      inner : (1 + (n - 2) + 1 ≤ m) ⊎ (n - 2 ≡ 0)
      inner = elim (dec_lt 2 n) [ yes lt ↦ inl (omega arith) | no ge ↦ inr (omega arith) ]

  one_array-Long : (m : ℕ) → Returns (Long m) (one_array of_int plus left_over m)
  unfolding one_array
  one_array-Long m = fill-Long m 0 m _ (omega arith) (length-replicate m left_over)

  pub two_arrays-BothLong : (m : ℕ) → Returns (BothLong m) (two_arrays of_int plus left_over m)
  unfolding two_arrays
  two_arrays-BothLong m =
      fill_both-BothLong m 0 m _ (omega arith)
        (record { a = length-replicate m left_over; b = length-replicate m left_over })

  array_and_sum-Long : (m : ℕ) → Returns (λ r. Long m r.0) (array_and_sum of_int plus left_over m)
  unfolding array_and_sum
  array_and_sum-Long m = bind (one_array-Long m) (λ a size. returns size)

  -- If the arguments are ints, each of the benchmarks load, store, update, copy and 1d-3pt returns without
  -- an access outside its arrays, which are of as many elements as the largest test has, and each element
  -- of the array of store is in the end the number that is stored; without arguments, and only then, each
  -- stops after the usage.
  pub mains-Long :
      (v : D) (args : List Text) (tests : List (ℕ × ℕ))
      → read_tests args ≡ ok tests
      → Returns
          (IsRun (λ r. Long (max_elements 0 tests) r.0) args)
          (load_main of_int plus left_over args)
        × Returns
            (IsRun (IsFilled v (max_elements 0 tests) (max_elements 0 tests)) args)
            (store_main of_int plus left_over v args)
        × Returns
            (IsRun (Long (max_elements 0 tests)) args)
            (update_main of_int plus left_over v args)
        × Returns
            (IsRun (BothLong (max_elements 0 tests)) args)
            (copy_main of_int plus left_over args)
        × Returns
            (IsRun (BothLong (max_elements 0 tests)) args)
            (stencil_main of_int plus left_over args)
  unfolding load_main update_main copy_main stencil_main
  mains-Long v args tests e =
      let m = max_elements 0 tests in
      let all = max_elements-AllFit 0 tests in
      (
        benchmark-Returns read_tests _ (no_sum of_int plus left_over) _ (λ r. Long m r.0)
            (λ n. n ≤ m) (λ s p. p) (load_pass-Long m) args tests e all (array_and_sum-Long m),
        store_main-IsFilled of_int plus left_over v one_array-Long args tests e,
        benchmark-Returns read_tests _ (λ a. a) _ (Long m) (λ n. n ≤ m) (λ s p. p)
            (λ n a le size. update_loop-Long v n 0 m a (omega arith) size) args tests e all
            (one_array-Long m),
        benchmark-Returns read_tests _ (λ s. s) _ (BothLong m) (λ n. n ≤ m) (λ s p. p)
            (copy_pass-BothLong m) args tests e all (two_arrays-BothLong m),
        benchmark-Returns read_tests _ (λ s. s) _ (BothLong m) (λ n. n ≤ m) (λ s p. p)
            (stencil_pass-BothLong m) args tests e all (two_arrays-BothLong m),
      )
