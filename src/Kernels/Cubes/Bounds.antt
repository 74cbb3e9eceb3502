-- ===== src/Kernels/Cubes/Bounds.antt =====
-- The bounds of the accesses in the benchmarks 3d-7pt.c and 3d-r3-11pt.c of validation/kernels.
use native.Mathlib.Decide.{dec_lt}
use pycachesim.Base.{
  ℕ, zero, suc, ◌+◌, ◌-◌, ◌*◌, ◌≤◌, ◌<◌, ◌≡◌, ◌⊎◌, inl, inr, ◌∙◌, true, List, [], ◌∷◌, arith, ltb,
  if◌then◌else◌, length, length-set, ok, Returns, returns, bind, weaken, result, read_of_lt,
  write_of_lt,
}
use pycachesim.CString.{Text}
use pycachesim.Kernels.{Arrays}
use pycachesim.Kernels.Cubes.{
  Sizes, read_cubes, max_cube, index, seven_first, seven_rest, eleven_first, eleven_rest, add_up,
  x_loop, y_loop, z_loop, cube_pass, set_up_cube, seven_main, eleven_main,
}
use pycachesim.Kernels.Frame.{AllFit, IsRun, benchmark-Returns}
use pycachesim.Kernels.Loops.{Long, BothLong, two_arrays-BothLong}
use pycachesim.Kernels.Products.Bounds.{index_lt, inner}

abbrev pub volume : Sizes → ℕ
volume e = e.zs * e.ys * e.xs

volume_lt : (e : Sizes) (z y x : ℕ) → z < e.zs → y < e.ys → x < e.xs → index e z y x < volume e
volume_lt e z y x lt lt' lt'' =
    let plane : z * e.ys + y < e.zs * e.ys = index_lt e.zs e.ys z y lt lt' in
    let inside : (z * e.ys + y) * e.xs + x < e.zs * e.ys * e.xs =
      index_lt (e.zs * e.ys) e.xs (z * e.ys + y) x plane lt'' in
    grind arith

-- The products are ints.
abbrev pub AreCubes : List (ℕ × Sizes) → Type 0
AreCubes = AllFit (λ e. (e.zs * e.ys < 2147483648) × (volume e < 2147483648))

max_cube-AllFit :
    (m : ℕ) (tests : List (ℕ × Sizes))
    → AreCubes tests
    → Returns (λ p. (m ≤ p) × AllFit (λ e. volume e ≤ p) tests) (max_cube m tests)
unfolding max_cube
max_cube-AllFit m [] ints = returns (omega arith, tt)
max_cube-AllFit m ((n, e) ∷ rest) ((plane, int), ints) =
    let small : ltb (e.zs * e.ys) 2147483648 ≡ true = ground arith in
    let small' : ltb (volume e) 2147483648 ≡ true = ground arith in
    rw (small, small')
      (weaken (max_cube-AllFit (if ltb m (volume e) then volume e else m) rest ints)
        (λ p (more, all). (ground arith, (ground arith, all))))

abbrev AllBelow : ℕ → List ℕ → Type 0
AllBelow n [] = Unit {0}
AllBelow n (i ∷ rest) = (i < n) × AllBelow n rest

-- The elements that a program reads around one that is far enough from the ends are in the array.
abbrev Around : ℕ → (ℕ → ℕ → ℕ → ℕ) → (ℕ → ℕ → ℕ → List ℕ) → Sizes → Type 0
Around margin first others e =
    (z y x : ℕ)
    → margin ≤ z
    → z + margin < e.zs
    → margin ≤ y
    → y + margin < e.ys
    → 0 < x
    → x + 1 < e.xs
    → (first z y x < volume e) × AllBelow (volume e) (others z y x)

seven-Around : (e : Sizes) → Around 1 (seven_first e) (seven_rest e) e
seven-Around e z y x z_low z_high y_low y_high x_low x_high = (
  volume_lt e (z + 1) y x (omega arith) (omega arith) (omega arith),
  (
    volume_lt e z (y - 1) x (omega arith) (omega arith) (omega arith),
    (
      omega (arith, volume_lt e z y x (omega arith) (omega arith) (omega arith)),
      (
        volume_lt e z y (x + 1) (omega arith) (omega arith) (omega arith),
        (
          volume_lt e z (y + 1) x (omega arith) (omega arith) (omega arith),
          (volume_lt e (z - 1) y x (omega arith) (omega arith) (omega arith), tt),
        ),
      ),
    ),
  ),
)

eleven-Around : (e : Sizes) → Around 3 (eleven_first e) (eleven_rest e) e
eleven-Around e z y x z_low z_high y_low y_high x_low x_high =
    let at : (z' y' x' : ℕ) → z' ≤ z + 3 → y' ≤ y + 3 → x' ≤ x + 1 → index e z' y' x' < volume e =
      λ z' y' x' h h' h''. volume_lt e z' y' x' (omega arith) (omega arith) (omega arith) in
    (
      at (z + 3) y x (omega arith) (omega arith) (omega arith),
      (
        at (z + 1) y x (omega arith) (omega arith) (omega arith),
        (
          at z (y - 3) x (omega arith) (omega arith) (omega arith),
          (
            at z (y - 1) x (omega arith) (omega arith) (omega arith),
            (
              omega (arith, at z y x (omega arith) (omega arith) (omega arith)),
              (
                at z y (x + 1) (omega arith) (omega arith) (omega arith),
                (
                  at z (y + 1) x (omega arith) (omega arith) (omega arith),
                  (
                    at z (y + 3) x (omega arith) (omega arith) (omega arith),
                    (
                      at (z - 1) y x (omega arith) (omega arith) (omega arith),
                      (at (z - 3) y x (omega arith) (omega arith) (omega arith), tt),
                    ),
                  ),
                ),
              ),
            ),
          ),
        ),
      ),
    )

-- The loops leave out `margin` elements at both ends.
inside : (n margin : ℕ) → (margin + (n - 2 * margin) + margin ≤ n) ⊎ (n - 2 * margin ≡ 0)
inside n margin = elim (dec_lt (2 * margin) n) [
  | yes lt ↦ inl (omega arith)
  | no ge ↦ inr (omega arith)
]

module _ {D : Type 0} (of_int : ℕ → D) (plus : D → D → D) (left_over : D) where
  add_up-Returns :
      (n : ℕ) (b : List D) (s : D) (is : List ℕ)
      → AllBelow n is
      → n ≤ length b
      → Returns (λ _. Unit {0}) (add_up of_int plus left_over b s is)
  unfolding add_up
  add_up-Returns n b s [] all le = returns tt
  add_up-Returns n b s (i ∷ rest) (lt, all) le =
      bind (read_of_lt b i (omega arith)) (λ x at. add_up-Returns n b (plus s x) rest all le)

  module _ (margin : ℕ) (first : Sizes → ℕ → ℕ → ℕ → ℕ) (others : Sizes → ℕ → ℕ → ℕ → List ℕ)
      (m : ℕ) (e : Sizes) (around : Around margin (first e) (others e) e)
      (fits : volume e ≤ m) where
    x_loop-Long :
        (z y k x : ℕ) (a b : List D)
        → margin ≤ z
        → z + margin < e.zs
        → margin ≤ y
        → y + margin < e.ys
        → 0 < x
        → (x + k + 1 ≤ e.xs) ⊎ (k ≡ 0)
        → Long of_int plus left_over m a
        → Long of_int plus left_over m b
        → Returns
            (Long of_int plus left_over m)
            (x_loop of_int plus left_over margin first others e z y k x a b)
    unfolding x_loop
    x_loop-Long z y zero x a b z_low z_high y_low y_high x_low x_high size_a size_b = returns size_a
    x_loop-Long z y (suc k) x a b z_low z_high y_low y_high x_low (inr none_left) size_a size_b =
        absurd (omega arith)
    x_loop-Long z y (suc k) x a b z_low z_high y_low y_high x_low (inl x_high) size_a size_b =
        let (lt, all) = around z y x z_low z_high y_low y_high x_low (omega arith) in
        let here = volume_lt e z y x (omega arith) (omega arith) (omega arith) in
        bind (read_of_lt b (first e z y x) (omega arith)) (λ s at.
          bind (add_up-Returns (volume e) b s (others e z y x) all (omega arith)) (λ s' _.
            rw (write_of_lt a (index e z y x) s' (omega arith)) (
              x_loop-Long z y k (x + 1) _ b z_low z_high y_low y_high (omega arith)
                (inl (omega arith)) (length-set a (index e z y x) s' ∙ size_a) size_b)))

    y_loop-Long :
        (z k y : ℕ) (a b : List D)
        → margin ≤ z
        → z + margin < e.zs
        → margin ≤ y
        → (y + k + margin ≤ e.ys) ⊎ (k ≡ 0)
        → Long of_int plus left_over m a
        → Long of_int plus left_over m b
        → Returns
            (Long of_int plus left_over m)
            (y_loop of_int plus left_over margin first others e z k y a b)
    unfolding y_loop
    y_loop-Long z zero y a b z_low z_high y_low y_high size_a size_b = returns size_a
    y_loop-Long z (suc k) y a b z_low z_high y_low (inr none_left) size_a size_b =
        absurd (omega arith)
    y_loop-Long z (suc k) y a b z_low z_high y_low (inl y_high) size_a size_b =
        bind
          (x_loop-Long z y (e.xs - 2) 1 a b z_low z_high y_low (omega arith) (omega arith)
            (inner e.xs) size_a size_b)
          (λ a' size'.
            y_loop-Long z k (y + 1) a' b z_low z_high (omega arith) (inl (omega arith)) size'
              size_b)

    z_loop-Long :
        (k z : ℕ) (a b : List D)
        → margin ≤ z
        → (z + k + margin ≤ e.zs) ⊎ (k ≡ 0)
        → Long of_int plus left_over m a
        → Long of_int plus left_over m b
        → Returns
            (Long of_int plus left_over m)
            (z_loop of_int plus left_over margin first others e k z a b)
    unfolding z_loop
    z_loop-Long zero z a b z_low z_high size_a size_b = returns size_a
    z_loop-Long (suc k) z a b z_low (inr none_left) size_a size_b = absurd (omega arith)
    z_loop-Long (suc k) z a b z_low (inl z_high) size_a size_b =
        bind
          (y_loop-Long z (e.ys - 2 * margin) margin a b z_low (omega arith) (omega arith)
            (inside e.ys margin) size_a size_b)
          (λ a' size'. z_loop-Long k (z + 1) a' b (omega arith) (inl (omega arith)) size' size_b)

    cube_pass-BothLong :
        (s : Arrays D)
        → BothLong of_int plus left_over m s
        → Returns
            (BothLong of_int plus left_over m)
            (cube_pass of_int plus left_over margin first others e s)
    unfolding cube_pass
    cube_pass-BothLong s size =
        bind
          (z_loop-Long (e.zs - 2 * margin) margin s.a s.b (omega arith) (inside e.zs margin) size.a
            size.b)
          (λ a' size'. returns (record { a = size.b; b = size' }))

  -- If the sizes are ints with products that are ints, 3d-7pt and 3d-r3-11pt return without an access
  -- outside their arrays, which are of as many elements as the greatest product of three sizes.
  pub cube_mains-BothLong :
      (args : List Text) (tests : List (ℕ × Sizes))
      → read_cubes args ≡ ok tests
      → AreCubes tests
      → (m : ℕ) × (max_cube 0 tests ≡ ok m)
        × Returns
            (IsRun (BothLong of_int plus left_over m) args)
            (seven_main of_int plus left_over args)
        × Returns
            (IsRun (BothLong of_int plus left_over m) args)
            (eleven_main of_int plus left_over args)
  unfolding seven_main eleven_main set_up_cube
  cube_mains-BothLong args tests e ints =
      let (m, is, (more, all)) = result (max_cube-AllFit 0 tests ints) in
      let starts : Returns (BothLong of_int plus left_over m)
          (set_up_cube of_int plus left_over tests) =
        rw is (two_arrays-BothLong of_int plus left_over m) in
      (
        m,
        is,
        benchmark-Returns read_cubes _ (λ s. s) _ (BothLong of_int plus left_over m)
            (λ e. volume e ≤ m) (λ s p. p)
            (λ e s fits. cube_pass-BothLong 1 seven_first seven_rest m e (seven-Around e) fits s)
            args tests e all starts,
        benchmark-Returns read_cubes _ (λ s. s) _ (BothLong of_int plus left_over m)
            (λ e. volume e ≤ m) (λ s p. p)
            (λ e s fits. cube_pass-BothLong 3 eleven_first eleven_rest m e (eleven-Around e) fits s)
            args tests e all starts,
      )
