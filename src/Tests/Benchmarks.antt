-- ===== src/Tests/Benchmarks.antt =====
-- The bounds of the benchmarks, on the arguments of two tests.
use pycachesim.Base.{
  ℕ, ◌+◌, ◌*◌, ◌≤◌, ◌≡◌, refl, List, [], length, arith, fault, out_of_bounds, ◌∷◌, ok, Returns,
}
use pycachesim.CString.{Text, bytes, atoi}
use pycachesim.Kernels.{
  rounds, read_tests, max_elements, load_main, store_main, update_main, copy_main, stencil_main,
}
use pycachesim.Kernels.Cubes.{Sizes, read_cubes, max_cube, seven_main, eleven_main}
use pycachesim.Kernels.Cubes.Bounds.{cube_mains-BothLong}
use pycachesim.Kernels.Frame.{AllFit, IsRun}
use pycachesim.Kernels.Products.{
  read_products, size_of, max_product, max_cols, matvec_main, transmatvec_main,
}
use pycachesim.Kernels.Products.Vectors.{AreLong, vector_mains-AreLong, vector_mains-overrun}
use pycachesim.Kernels.Stores.{IsFilled}
use pycachesim.Kernels.Loops.{BothLong, mains-Long}

-- Three repetitions on five elements, and one on a single element; the last argument is left over.
abbrev two_tests : List Text
two_tests = bytes "3" ∷ bytes "5" ∷ bytes "1" ∷ bytes "1" ∷ bytes "7" ∷ []

two_tests-read : read_tests two_tests ≡ ok ((3, 5) ∷ (1, 1) ∷ [])
unfolding read_tests rounds atoi
two_tests-read = refl

mains-Long_example :
    Returns (IsRun (λ r. length r.0 ≡ 5) two_tests) (load_main (λ n. n) ◌+◌ 0 two_tests)
    × Returns (IsRun (IsFilled 7 5 5) two_tests) (store_main (λ n. n) ◌+◌ 0 7 two_tests)
    × Returns (IsRun (λ r. length r ≡ 5) two_tests) (update_main (λ n. n) ◌+◌ 0 7 two_tests)
    × Returns (IsRun (BothLong (λ n. n) ◌+◌ 0 5) two_tests) (copy_main (λ n. n) ◌+◌ 0 two_tests)
    × Returns (IsRun (BothLong (λ n. n) ◌+◌ 0 5) two_tests) (stencil_main (λ n. n) ◌+◌ 0 two_tests)
unfolding max_elements
mains-Long_example = mains-Long (λ n. n) ◌+◌ 0 7 two_tests ((3, 5) ∷ (1, 1) ∷ []) two_tests-read

-- Tests with two sizes: two repetitions on four times three elements, and one on two times five.
abbrev two_products : List Text
two_products = bytes "2" ∷ bytes "4" ∷ bytes "3" ∷ bytes "1" ∷ bytes "2" ∷ bytes "5" ∷ []

abbrev products : List (ℕ × (ℕ × ℕ))
products = (2, (4, 3)) ∷ (1, (2, 5)) ∷ []

two_products-read : read_products two_products ≡ ok products
unfolding read_products rounds size_of atoi
two_products-read = refl

low : AllFit (λ (r, c). r ≤ max_cols 0 products + 1) products
unfolding max_cols
low = (omega arith, (omega arith, tt))

vector_mains-AreLong_example :
    (p : ℕ) × (max_product 0 products ≡ ok p)
    × Returns
        (IsRun (AreLong (λ n. n) ◌+◌ 0 ◌*◌ 1 p 5) two_products)
        (matvec_main (λ n. n) ◌+◌ 0 ◌*◌ 1 two_products)
    × Returns
        (IsRun (AreLong (λ n. n) ◌+◌ 0 ◌*◌ 1 p 5) two_products)
        (transmatvec_main (λ n. n) ◌+◌ 0 ◌*◌ 1 two_products)
unfolding max_cols
vector_mains-AreLong_example =
    vector_mains-AreLong (λ n. n) ◌+◌ 0 ◌*◌ 1 two_products products two_products-read
      (omega arith, (omega arith, tt)) low

-- One repetition on five rows of three columns.
abbrev tall : List Text
tall = bytes "1" ∷ bytes "5" ∷ bytes "3" ∷ []

tall-read : read_products tall ≡ ok ((1, (5, 3)) ∷ [])
unfolding read_products rounds size_of atoi
tall-read = refl

vector_mains-overrun_example :
    (matvec_main (λ n. n) ◌+◌ 0 ◌*◌ 1 tall ≡ fault out_of_bounds)
    × (transmatvec_main (λ n. n) ◌+◌ 0 ◌*◌ 1 tall ≡ fault out_of_bounds)
vector_mains-overrun_example =
    vector_mains-overrun (λ n. n) ◌+◌ 0 ◌*◌ 1 tall 1 5 3 tall-read (omega arith) (omega arith)
      (omega arith)

-- Two repetitions on eight times seven times three elements.
abbrev one_cube : List Text
one_cube = bytes "2" ∷ bytes "8" ∷ bytes "7" ∷ bytes "3" ∷ []

abbrev cube : List (ℕ × Sizes)
cube = (2, record { zs = 8; ys = 7; xs = 3 }) ∷ []

one_cube-read : read_cubes one_cube ≡ ok cube
unfolding read_cubes rounds size_of atoi
one_cube-read = refl

cube_mains-BothLong_example :
    (m : ℕ) × (max_cube 0 cube ≡ ok m)
    × Returns (IsRun (BothLong (λ n. n) ◌+◌ 0 m) one_cube) (seven_main (λ n. n) ◌+◌ 0 one_cube)
    × Returns (IsRun (BothLong (λ n. n) ◌+◌ 0 m) one_cube) (eleven_main (λ n. n) ◌+◌ 0 one_cube)
cube_mains-BothLong_example =
    cube_mains-BothLong (λ n. n) ◌+◌ 0 one_cube cube one_cube-read ((omega arith, omega arith), tt)
