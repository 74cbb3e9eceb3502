-- ===== src/Kernels.antt =====
-- The benchmarks load.c, store.c, update.c, copy.c and 1d-3pt.c of validation/kernels: their arguments, their
-- arrays and the loops over them. The numbers in the arrays are of any type, with the operations as parameters.
-- The output, the markers of likwid and `dummy`, which does nothing, are not modelled.
pub mod Frame
pub mod Loops
pub mod Stores
pub mod Products
pub mod Cubes
use pycachesim.Base.{
  ℕ, zero, suc, ◌+◌, ◌-◌, Bool, Option, none, some, List, [], ◌∷◌, ltb, if◌then◌else◌, replicate,
  Result, ok, fault, ◌>>=◌, out_of_range, read, write,
}
use pycachesim.CString.{Text, atoi}

-- `atoi` of an argument, for a loop that counts up to it or down from it: a negative number means no round.
unfoldable pub rounds : Text → Result ℕ
rounds text =
    let (negative, n) = atoi text in
    if ltb n 2147483648 then ok (if negative then 0 else n) else fault out_of_range

-- The repetitions and the elements of each test; an argument that is left over is not read.
unfoldable pub read_tests : List Text → Result (List (ℕ × ℕ))
unfolding rounds
read_tests [] = ok []
read_tests (repeats ∷ []) = ok []
read_tests (repeats ∷ elements ∷ rest) = do
  r ← rounds repeats
  n ← rounds elements
  others ← read_tests rest
  ok ((r, n) ∷ others)

unfoldable pub max_elements : ℕ → List (ℕ × ℕ) → ℕ
max_elements m [] = m
max_elements m ((r, n) ∷ rest) = max_elements (if ltb m n then n else m) rest

module _ {S E : Type 0} (pass : E → S → Result S) where
  unfoldable pub repeat : ℕ → E → S → Result S
  repeat zero e s = ok s
  repeat (suc r) e s = do s' ← pass e s; repeat r e s'

-- What the programs share, for the state `S` of the arrays and the sizes `E` of a test: how the arguments
-- are read, how the arrays are set up for all tests, what is reset before the repetitions, and one
-- repetition.
module _ {S E : Type 0} (read_args : List Text → Result (List (ℕ × E)))
    (set_up : List (ℕ × E) → Result S) (begin : S → S) (pass : E → S → Result S) where
  -- Two repetitions to warm up, and those that are measured.
  unfoldable pub run_tests : List (ℕ × E) → S → Result S
  unfolding repeat
  run_tests [] s = ok s
  run_tests ((r, e) ∷ rest) s = do
    s₁ ← repeat pass 2 e (begin s)
    s₂ ← repeat pass r e (begin s₁)
    run_tests rest s₂

  -- `none` is the exit after the usage.
  unfoldable pub benchmark : List Text → Result (Option S)
  unfolding run_tests
  benchmark [] = ok none
  benchmark (arg ∷ args) = do
    tests ← read_args (arg ∷ args)
    s ← set_up tests
    s' ← run_tests tests s
    ok (some s')

pub record Arrays (D : Type 0) : Type 0 where
  pub a : List D
  pub b : List D

-- Allocated memory has `left_over` in it.
module _ {D : Type 0} (of_int : ℕ → D) (plus : D → D → D) (left_over : D) where
  -- `a[i] = i`
  unfoldable pub fill : ℕ → ℕ → List D → Result (List D)
  fill zero i a = ok a
  fill (suc k) i a = do a' ← write a i (of_int i); fill k (i + 1) a'

  -- `a[i] = i; b[i] = maxelements-i`
  unfoldable pub fill_both : ℕ → ℕ → ℕ → Arrays D → Result (Arrays D)
  fill_both zero i m s = ok s
  fill_both (suc k) i m s = do
    a' ← write s.a i (of_int i)
    b' ← write s.b i (of_int (m - i))
    fill_both k (i + 1) m (record { a = a'; b = b' })

  unfoldable pub one_array : ℕ → Result (List D)
  unfolding fill
  one_array m = fill m 0 (replicate m left_over)

  unfoldable pub two_arrays : ℕ → Result (Arrays D)
  unfolding fill_both
  two_arrays m = fill_both m 0 m (record { a = replicate m left_over; b = replicate m left_over })

  -- `s += a[i]`
  unfoldable pub load_loop : ℕ → ℕ → List D → D → Result D
  load_loop zero i a s = ok s
  load_loop (suc k) i a s = do x ← read a i; load_loop k (i + 1) a (plus s x)

  -- `a[i] = v`
  unfoldable pub store_loop : D → ℕ → ℕ → List D → Result (List D)
  store_loop v zero i a = ok a
  store_loop v (suc k) i a = do a' ← write a i v; store_loop v k (i + 1) a'

  -- `a[i] += v`
  unfoldable pub update_loop : D → ℕ → ℕ → List D → Result (List D)
  update_loop v zero i a = ok a
  update_loop v (suc k) i a = do x ← read a i; a' ← write a i (plus x v); update_loop v k (i + 1) a'

  -- `a[i] = b[i]`
  unfoldable pub copy_loop : ℕ → ℕ → List D → List D → Result (List D)
  copy_loop zero i a b = ok a
  copy_loop (suc k) i a b = do x ← read b i; a' ← write a i x; copy_loop k (i + 1) a' b

  -- `a[x] = b[x-1] + b[x] + b[x+1]`
  unfoldable pub stencil_loop : ℕ → ℕ → List D → List D → Result (List D)
  stencil_loop zero x a b = ok a
  stencil_loop (suc k) x a b = do
    left ← read b (x - 1)
    here ← read b x
    right ← read b (x + 1)
    a' ← write a x (plus (plus left here) right)
    stencil_loop k (x + 1) a' b

  -- The array, and the sum.
  unfoldable pub load_pass : ℕ → List D × D → Result (List D × D)
  unfolding load_loop
  load_pass n (a, s) = do s' ← load_loop n 0 a s; ok (a, s')

  -- `double s=0.0`
  abbrev pub no_sum : List D × D → List D × D
  no_sum (a, s) = (a, of_int 0)

  unfoldable pub array_and_sum : ℕ → Result (List D × D)
  unfolding one_array
  array_and_sum m = do a ← one_array m; ok (a, of_int 0)

  -- The arrays change places.
  unfoldable pub copy_pass : ℕ → Arrays D → Result (Arrays D)
  unfolding copy_loop
  copy_pass n s = do a' ← copy_loop n 0 s.a s.b; ok (record { a = s.b; b = a' })

  unfoldable pub stencil_pass : ℕ → Arrays D → Result (Arrays D)
  unfolding stencil_loop
  stencil_pass n s = do a' ← stencil_loop (n - 2) 1 s.a s.b; ok (record { a = s.b; b = a' })

  unfoldable pub load_main : List Text → Result (Option (List D × D))
  unfolding benchmark read_tests max_elements array_and_sum load_pass
  load_main = benchmark read_tests (λ tests. array_and_sum (max_elements 0 tests)) no_sum load_pass

  unfoldable pub store_main : D → List Text → Result (Option (List D))
  unfolding benchmark read_tests max_elements one_array store_loop
  store_main v =
      benchmark read_tests (λ tests. one_array (max_elements 0 tests)) (λ a. a)
        λ n a. store_loop v n 0 a

  unfoldable pub update_main : D → List Text → Result (Option (List D))
  unfolding benchmark read_tests max_elements one_array update_loop
  update_main v =
      benchmark read_tests (λ tests. one_array (max_elements 0 tests)) (λ a. a)
        λ n a. update_loop v n 0 a

  unfoldable pub copy_main : List Text → Result (Option (Arrays D))
  unfolding benchmark read_tests max_elements two_arrays copy_pass
  copy_main = benchmark read_tests (λ tests. two_arrays (max_elements 0 tests)) (λ s. s) copy_pass

  unfoldable pub stencil_main : List Text → Result (Option (Arrays D))
  unfolding benchmark read_tests max_elements two_arrays stencil_pass
  stencil_main =
      benchmark read_tests (λ tests. two_arrays (max_elements 0 tests)) (λ s. s) stencil_pass
