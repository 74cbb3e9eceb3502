-- ===== src/Kernels/Products/Vectors.antt =====
-- The bounds of the accesses in the benchmarks matvec.c and transmatvec.c of validation/kernels.
use native.Mathlib.Decide.{dec_lt}
use pycachesim.Base.{
  ℕ, zero, suc, ◌+◌, ◌-◌, ◌*◌, ◌≤◌, ◌<◌, ◌≡◌, ◌⊎◌, inl, inr, refl, ◌∙◌, List, [], ◌∷◌, arith,
  length, length-replicate, length-set, Result, ok, fault, Returns, returns, bind, result,
  read_of_lt, write_of_lt, get_elem?-none_of_le, out_of_bounds,
}
use pycachesim.CString.{Text}
use pycachesim.Kernels.{benchmark, run_tests, repeat}
use pycachesim.Kernels.Frame.{AllFit, IsRun, benchmark-Returns}
use pycachesim.Kernels.Loops.{fill-Long}
use pycachesim.Kernels.Products.{
  read_products, max_product, max_cols, Matrix, fill_vectors, set_up_matrix, dot, row_loop,
  matvec_pass, transmatvec_pass, matvec_main, transmatvec_main,
}
use pycachesim.Kernels.Products.Bounds.{
  index_lt, inner, AreInts, max_product-AllFit, max_cols-AllFit, AllFit-both,
}

module _ {D : Type 0} (of_int : ℕ → D) (plus : D → D → D) (left_over : D) (times : D → D → D)
    (one : D) where
  -- The lengths of the arrays.
  pub record AreLong (p w : ℕ) (m : Matrix D) : Type 0 where
    pub mat : length m.mat ≡ p
    pub vec : length m.vec ≡ w
    pub resv : length m.resv ≡ w

  fill_vectors-AreLong :
      (k i p w : ℕ) (m : Matrix D)
      → i + k ≤ w
      → AreLong p w m
      → Returns (AreLong p w) (fill_vectors of_int plus left_over times one k i w m)
  unfolding fill_vectors
  fill_vectors-AreLong zero i p w m le size = returns size
  fill_vectors-AreLong (suc k) i p w m le size =
      let size_v = size.vec in
      let size_w = size.resv in
      rw
        (write_of_lt m.vec i (of_int (w - i)) (omega arith), write_of_lt m.resv i one (omega arith))
        (fill_vectors-AreLong k (i + 1) p w _ (omega arith) (record {
          mat = size.mat;
          vec = length-set m.vec i (of_int (w - i)) ∙ size.vec;
          resv = length-set m.resv i one ∙ size.resv;
        }))

  set_up_matrix-AreLong :
      (tests : List (ℕ × (ℕ × ℕ))) (p : ℕ)
      → max_product 0 tests ≡ ok p
      → Returns (AreLong p (max_cols 0 tests)) (set_up_matrix of_int plus left_over times one tests)
  unfolding set_up_matrix
  set_up_matrix-AreLong tests p is = rw is (
      bind (fill-Long of_int plus left_over p 0 p _ (omega arith) (length-replicate p left_over))
        (λ mat size.
          fill_vectors-AreLong (max_cols 0 tests) 0 p (max_cols 0 tests) _ (omega arith) (record {
            mat = size;
            vec = length-replicate (max_cols 0 tests) left_over;
            resv = length-replicate (max_cols 0 tests) left_over;
          })))

  dot-Returns :
      (index : ℕ → ℕ) (cols k c p w : ℕ) (m : Matrix D) (s : D)
      → ((x : ℕ) → x < cols → index x < p)
      → (c + k + 1 ≤ cols) ⊎ (k ≡ 0)
      → cols ≤ w
      → AreLong p w m
      → Returns (λ _. Unit {0}) (dot of_int plus left_over times one index k c m s)
  unfolding dot
  dot-Returns index cols zero c p w m s inside le fits size = returns tt
  dot-Returns index cols (suc k) c p w m s inside (inr e) fits size = absurd (omega arith)
  dot-Returns index cols (suc k) c p w m s inside (inl le) fits size =
      let size_m = size.mat in
      let size_v = size.vec in
      let here = inside c (omega arith) in
      bind (read_of_lt m.mat (index c) (omega arith)) (λ x at.
        bind (read_of_lt m.vec c (omega arith)) (λ y at'.
          dot-Returns index cols k (c + 1) p w m (plus s (times x y)) inside (inl (omega arith))
            fits size))

  module _ (index : ℕ → ℕ → ℕ) (rows cols p w : ℕ)
      (inside : (r c : ℕ) → r < rows → c < cols → index r c < p) (narrow : cols ≤ w) where
    row_loop-AreLong :
        (k r : ℕ) (m : Matrix D)
        → (r + k + 1 ≤ rows) ⊎ (k ≡ 0)
        → rows ≤ w + 1
        → AreLong p w m
        → Returns (AreLong p w) (row_loop of_int plus left_over times one index cols k r m)
    unfolding row_loop
    row_loop-AreLong zero r m le fits size = returns size
    row_loop-AreLong (suc k) r m (inr e) fits size = absurd (omega arith)
    row_loop-AreLong (suc k) r m (inl le) fits size =
        let size_r = size.resv in
        bind
          (dot-Returns (index r) cols (cols - 2) 1 p w m (of_int 0)
            (λ x lt. inside r x (omega arith) lt) (inner cols) narrow size)
          (λ s _. rw (write_of_lt m.resv r s (omega arith)) (
            row_loop-AreLong k (r + 1) _ (inl (omega arith)) fits (record {
              mat = size.mat;
              vec = size.vec;
              resv = length-set m.resv r s ∙ size.resv;
            })))

    -- With more rows the loop comes to an element behind the vector.
    row_loop-overruns :
        (k r : ℕ) (m : Matrix D)
        → r + k + 1 ≤ rows
        → r ≤ w
        → w < r + k
        → AreLong p w m
        → row_loop of_int plus left_over times one index cols k r m ≡ fault out_of_bounds
    unfolding row_loop
    row_loop-overruns zero r m le here behind size = absurd (omega arith)
    row_loop-overruns (suc k) r m le here behind size =
        let size_r = size.resv in
        let (s, is, _) = result (
          dot-Returns (index r) cols (cols - 2) 1 p w m (of_int 0)
            (λ x lt. inside r x (omega arith) lt) (inner cols) narrow size) in
        rw is (elim (dec_lt r w) [
          | yes lt ↦ rw (write_of_lt m.resv r s (omega arith)) (
              row_loop-overruns k (r + 1) _ (omega arith) (omega arith) (omega arith) (record {
                mat = size.mat;
                vec = size.vec;
                resv = length-set m.resv r s ∙ size.resv;
              }))
          | no ge ↦ rw (get_elem?-none_of_le m.resv r (omega arith)) refl
        ])

  matvec_pass-AreLong :
      (p w : ℕ) (e : ℕ × ℕ) (m : Matrix D)
      → (e.0 * e.1 ≤ p) × ((e.1 ≤ w) × (e.0 ≤ w + 1))
      → AreLong p w m
      → Returns (AreLong p w) (matvec_pass of_int plus left_over times one e m)
  unfolding matvec_pass
  matvec_pass-AreLong p w (rows, cols) m (product, (narrow, low)) size =
      row_loop-AreLong (λ r c. r * cols + c) rows cols p w
        (λ r c lt lt'. omega (arith, index_lt rows cols r c lt lt')) narrow (rows - 2) 1 m
        (inner rows) low size

  transmatvec_pass-AreLong :
      (p w : ℕ) (e : ℕ × ℕ) (m : Matrix D)
      → (e.0 * e.1 ≤ p) × ((e.1 ≤ w) × (e.0 ≤ w + 1))
      → AreLong p w m
      → Returns (AreLong p w) (transmatvec_pass of_int plus left_over times one e m)
  unfolding transmatvec_pass
  transmatvec_pass-AreLong p w (rows, cols) m (product, (narrow, low)) size =
      row_loop-AreLong (λ r c. r + c * rows) rows cols p w
        (λ r c lt lt'. omega (arith, index_lt cols rows c r lt' lt)) narrow (rows - 2) 1 m
        (inner rows) low size

  -- If the sizes are ints with products that are ints, and no test has more rows than the most columns and
  -- one, then matvec and transmatvec return without an access outside the matrix and the vectors, which
  -- have as many elements as the greatest product and the most columns.
  pub vector_mains-AreLong :
      (args : List Text) (tests : List (ℕ × (ℕ × ℕ)))
      → read_products args ≡ ok tests
      → AreInts tests
      → AllFit (λ (r, c). r ≤ max_cols 0 tests + 1) tests
      → (p : ℕ) × (max_product 0 tests ≡ ok p)
        × Returns
            (IsRun (AreLong p (max_cols 0 tests)) args)
            (matvec_main of_int plus left_over times one args)
        × Returns
            (IsRun (AreLong p (max_cols 0 tests)) args)
            (transmatvec_main of_int plus left_over times one args)
  unfolding matvec_main transmatvec_main
  vector_mains-AreLong args tests e ints low =
      let (p, is, (more, products)) = result (max_product-AllFit 0 tests ints) in
      let w = max_cols 0 tests in
      let all =
        AllFit-both (λ (r, c). r * c ≤ p) (λ (r, c). (c ≤ w) × (r ≤ w + 1)) tests products
          (AllFit-both (λ (r, c). c ≤ w) (λ (r, c). r ≤ w + 1) tests (max_cols-AllFit 0 tests)
            low) in
      (
        p,
        is,
        benchmark-Returns read_products _ (λ s. s) _ (AreLong p w) _ (λ s q. q)
            (matvec_pass-AreLong p w) args tests e all (set_up_matrix-AreLong tests p is),
        benchmark-Returns read_products _ (λ s. s) _ (AreLong p w) _ (λ s q. q)
            (transmatvec_pass-AreLong p w) args tests e all (set_up_matrix-AreLong tests p is),
      )

  -- A pass that overruns stops the program.
  stopped :
      (pass : ℕ × ℕ → Matrix D → Result (Matrix D)) (args : List Text) (n : ℕ) (e : ℕ × ℕ)
      (m : Matrix D)
      → read_products args ≡ ok ((n, e) ∷ [])
      → set_up_matrix of_int plus left_over times one ((n, e) ∷ []) ≡ ok m
      → pass e m ≡ fault out_of_bounds
      → benchmark read_products (set_up_matrix of_int plus left_over times one) (λ s. s) pass args
        ≡ fault out_of_bounds
  unfolding benchmark run_tests repeat read_products
  stopped pass [] n e m reads sets stops = cc
  stopped pass (arg ∷ args) n e m reads sets stops = rw (reads, sets, stops) refl

  -- A test of at least one column with more rows than columns and one, if it is the only one, makes matvec
  -- and transmatvec write behind the end of the vector of results.
  pub vector_mains-overrun :
      (args : List Text) (n rows cols : ℕ)
      → read_products args ≡ ok ((n, (rows, cols)) ∷ [])
      → rows * cols < 2147483648
      → 0 < cols
      → cols + 1 < rows
      → (matvec_main of_int plus left_over times one args ≡ fault out_of_bounds)
        × (transmatvec_main of_int plus left_over times one args ≡ fault out_of_bounds)
  unfolding matvec_main transmatvec_main matvec_pass transmatvec_pass max_cols
  vector_mains-overrun args n rows cols reads int some_cols more =
      let tests : List (ℕ × (ℕ × ℕ)) = (n, (rows, cols)) ∷ [] in
      let (p, is, (_, products)) = result (max_product-AllFit 0 tests (int, tt)) in
      let w : max_cols 0 tests ≡ cols = ground arith in
      let (m, sets, size) = result (set_up_matrix-AreLong tests p is) in
      let product = products.0 in
      (
        stopped (matvec_pass of_int plus left_over times one) args n (rows, cols) m reads sets
            (row_loop-overruns (λ r c. r * cols + c) rows cols p (max_cols 0 tests)
              (λ r c lt lt'. omega (arith, index_lt rows cols r c lt lt')) (omega arith) (rows - 2)
              1 m (omega arith) (omega arith) (omega arith) size),
        stopped (transmatvec_pass of_int plus left_over times one) args n (rows, cols) m reads sets
            (row_loop-overruns (λ r c. r + c * rows) rows cols p (max_cols 0 tests)
              (λ r c lt lt'. omega (arith, index_lt cols rows c r lt' lt)) (omega arith) (rows - 2)
              1 m (omega arith) (omega arith) (omega arith) size),
      )
