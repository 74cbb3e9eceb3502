-- ===== src/Kernels/Products/Bounds.antt =====
-- The bounds of the accesses in the benchmarks matvec.c, transmatvec.c and 2d-5pt.c of validation/kernels.
use native.Mathlib.Decide.{dec_lt}
use pycachesim.Base.{
  ℕ, zero, suc, ◌+◌, ◌-◌, ◌*◌, ◌≤◌, ◌<◌, ◌≡◌, ◌⊎◌, inl, inr, ◌∙◌, true, List, [], ◌∷◌, arith, ltb,
  if◌then◌else◌, length-set, ok, Returns, returns, bind, weaken, result, read_of_lt, write_of_lt,
}
use pycachesim.CString.{Text}
use pycachesim.Kernels.{Arrays}
use pycachesim.Kernels.Frame.{AllFit, IsRun, benchmark-Returns}
use pycachesim.Kernels.Loops.{Long, BothLong, two_arrays-BothLong}
use pycachesim.Kernels.Products.{
  read_products, max_product, max_cols, five_loop, plane_loop, plane_pass, plane_main,
}

-- An index into a table of `ys` rows of `xs` elements.
pub index_lt : (ys xs y x : ℕ) → y < ys → x < xs → y * xs + x < ys * xs
index_lt ys xs y x lt lt' = grind arith

-- The products are ints.
abbrev pub AreInts : List (ℕ × (ℕ × ℕ)) → Type 0
AreInts = AllFit (λ (r, c). r * c < 2147483648)

pub max_product-AllFit :
    (m : ℕ) (tests : List (ℕ × (ℕ × ℕ)))
    → AreInts tests
    → Returns (λ p. (m ≤ p) × AllFit (λ (r, c). r * c ≤ p) tests) (max_product m tests)
unfolding max_product
max_product-AllFit m [] ints = returns (omega arith, tt)
max_product-AllFit m ((n, (r, c)) ∷ rest) (int, ints) =
    let small : ltb (r * c) 2147483648 ≡ true = ground arith in
    rw small (
      weaken (max_product-AllFit (if ltb m (r * c) then r * c else m) rest ints)
        (λ p (more, all). (ground arith, (ground arith, all))))

max_cols-le : (m : ℕ) (tests : List (ℕ × (ℕ × ℕ))) → m ≤ max_cols m tests
unfolding max_cols
max_cols-le m [] = omega arith
max_cols-le m ((n, (r, c)) ∷ rest) = ground (arith, max_cols-le (if ltb m c then c else m) rest)

pub max_cols-AllFit :
    (m : ℕ) (tests : List (ℕ × (ℕ × ℕ))) → AllFit (λ (r, c). c ≤ max_cols m tests) tests
unfolding max_cols
max_cols-AllFit m [] = tt
max_cols-AllFit m ((n, (r, c)) ∷ rest) = (
  ground (arith, max_cols-le (if ltb m c then c else m) rest),
  max_cols-AllFit (if ltb m c then c else m) rest,
)

pub AllFit-both :
    {E : Type 0} (f g : E → Type 0) (tests : List (ℕ × E))
    → AllFit f tests
    → AllFit g tests
    → AllFit (λ e. f e × g e) tests
AllFit-both f g [] a b = tt
AllFit-both f g ((r, e) ∷ rest) (x, a) (y, b) = ((x, y), AllFit-both f g rest a b)

-- The loops leave out the first and the last element.
pub inner : (n : ℕ) → (1 + (n - 2) + 1 ≤ n) ⊎ (n - 2 ≡ 0)
inner n = elim (dec_lt 2 n) [ yes lt ↦ inl (omega arith) | no ge ↦ inr (omega arith) ]

module _ {D : Type 0} (of_int : ℕ → D) (plus : D → D → D) (left_over : D) (times : D → D → D)
    (one : D) where
  five_loop-Long :
      (size ys y k x m : ℕ) (a b : List D)
      → 0 < y
      → y + 1 < ys
      → 0 < x
      → (x + k + 1 ≤ size) ⊎ (k ≡ 0)
      → ys * size ≤ m
      → Long of_int plus left_over m a
      → Long of_int plus left_over m b
      → Returns
          (Long of_int plus left_over m)
          (five_loop of_int plus left_over times one size y k x a b)
  unfolding five_loop
  five_loop-Long size ys y zero x m a b pos low pos_x le fits size_a size_b = returns size_a
  five_loop-Long size ys y (suc k) x m a b pos low pos_x (inr e) fits size_a size_b =
      absurd (omega arith)
  five_loop-Long size ys y (suc k) x m a b pos low pos_x (inl le) fits size_a size_b =
      let above = index_lt ys size (y - 1) x (omega arith) (omega arith) in
      let here = index_lt ys size y x (omega arith) (omega arith) in
      let right_in = index_lt ys size y (x + 1) (omega arith) (omega arith) in
      let below = index_lt ys size (y + 1) x (omega arith) (omega arith) in
      bind (read_of_lt b ((y - 1) * size + x) (omega arith)) (λ v₁ at₁.
        bind (read_of_lt b (y * size + x - 1) (omega arith)) (λ v₂ at₂.
          bind (read_of_lt b (y * size + x + 1) (omega arith)) (λ v₃ at₃.
            bind (read_of_lt b ((y + 1) * size + x) (omega arith)) (λ v₄ at₄.
              rw (write_of_lt a (y * size + x) (plus (plus (plus v₁ v₂) v₃) v₄) (omega arith)) (
                five_loop-Long size ys y k (x + 1) m _ b pos low (omega arith) (inl (omega arith))
                  fits (length-set a (y * size + x) (plus (plus (plus v₁ v₂) v₃) v₄) ∙ size_a)
                  size_b)))))

  plane_loop-Long :
      (size ys k y m : ℕ) (a b : List D)
      → 0 < y
      → (y + k + 1 ≤ ys) ⊎ (k ≡ 0)
      → ys * size ≤ m
      → Long of_int plus left_over m a
      → Long of_int plus left_over m b
      → Returns
          (Long of_int plus left_over m)
          (plane_loop of_int plus left_over times one size k y a b)
  unfolding plane_loop
  plane_loop-Long size ys zero y m a b pos le fits size_a size_b = returns size_a
  plane_loop-Long size ys (suc k) y m a b pos (inr e) fits size_a size_b = absurd (omega arith)
  plane_loop-Long size ys (suc k) y m a b pos (inl le) fits size_a size_b =
      bind
        (five_loop-Long size ys y (size - 2) 1 m a b pos (omega arith) (omega arith) (inner size)
          fits size_a size_b)
        (λ a' size_a'.
          plane_loop-Long size ys k (y + 1) m a' b (omega arith) (inl (omega arith)) fits size_a'
            size_b)

  plane_pass-BothLong :
      (m : ℕ) (e : ℕ × ℕ) (s : Arrays D)
      → e.0 * e.1 ≤ m
      → BothLong of_int plus left_over m s
      → Returns (BothLong of_int plus left_over m) (plane_pass of_int plus left_over times one e s)
  unfolding plane_pass
  plane_pass-BothLong m (ys, xs) s fits size =
      bind (plane_loop-Long xs ys (ys - 2) 1 m s.a s.b (omega arith) (inner ys) fits size.a size.b)
        (λ a' size'. returns (record { a = size.b; b = size' }))

  -- If the sizes are ints with products that are ints, the benchmark 2d-5pt returns without an access
  -- outside its arrays, which are of as many elements as the greatest product.
  pub plane_main-BothLong :
      (args : List Text) (tests : List (ℕ × (ℕ × ℕ)))
      → read_products args ≡ ok tests
      → AreInts tests
      → (m : ℕ) × (max_product 0 tests ≡ ok m)
        × Returns
            (IsRun (BothLong of_int plus left_over m) args)
            (plane_main of_int plus left_over times one args)
  unfolding plane_main
  plane_main-BothLong args tests e ints =
      let (m, is, (more, all)) = result (max_product-AllFit 0 tests ints) in
      (
        m,
        is,
        benchmark-Returns read_products _ (λ s. s) _ (BothLong of_int plus left_over m)
            (λ (r, c). r * c ≤ m) (λ s p. p) (plane_pass-BothLong m) args tests e all
            (rw is (two_arrays-BothLong of_int plus left_over m)),
      )
