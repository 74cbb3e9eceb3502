-- ===== src/Kernels/Cubes.antt =====
-- The benchmarks 3d-7pt.c and 3d-r3-11pt.c of validation/kernels, whose arrays are of as many elements as the product
-- of three sizes.
pub mod Bounds
use pycachesim.Base.{
  ℕ, zero, suc, ◌+◌, ◌-◌, ◌*◌, Option, none, some, List, [], ◌∷◌, ltb, if◌then◌else◌, ◌&&◌, Result,
  ok, fault, ◌>>=◌, out_of_range, read, write,
}
use pycachesim.CString.{Text}
use pycachesim.Kernels.{Arrays, rounds, benchmark, two_arrays}
use pycachesim.Kernels.Products.{size_of}

-- The sizes of z, y and x.
pub record Sizes : Type 0 where
  pub zs : ℕ
  pub ys : ℕ
  pub xs : ℕ

-- The repetitions and the three sizes of each test.
unfoldable pub read_cubes : List Text → Result (List (ℕ × Sizes))
unfolding rounds size_of
read_cubes [] = ok []
read_cubes (repeats ∷ []) = ok []
read_cubes (repeats ∷ z ∷ []) = ok []
read_cubes (repeats ∷ z ∷ y ∷ []) = ok []
read_cubes (repeats ∷ z ∷ y ∷ x ∷ rest) = do
  n ← rounds repeats
  zs ← size_of z
  ys ← size_of y
  xs ← size_of x
  others ← read_cubes rest
  ok ((n, record { zs = zs; ys = ys; xs = xs }) ∷ others)

-- The greatest product; each product is an int, on the way too.
unfoldable pub max_cube : ℕ → List (ℕ × Sizes) → Result ℕ
max_cube m [] = ok m
max_cube m ((n, e) ∷ rest) =
    if ltb (e.zs * e.ys) 2147483648 && ltb (e.zs * e.ys * e.xs) 2147483648
    then max_cube (if ltb m (e.zs * e.ys * e.xs) then e.zs * e.ys * e.xs else m) rest
    else fault out_of_range

-- `z*cur_elementsy*cur_elementsx+y*cur_elementsx+x`
abbrev pub index : Sizes → ℕ → ℕ → ℕ → ℕ
index e z y x = z * e.ys * e.xs + y * e.xs + x

-- The indices that 3d-7pt adds up, the first one apart.
abbrev pub seven_first : Sizes → ℕ → ℕ → ℕ → ℕ
seven_first e z y x = index e (z + 1) y x

abbrev pub seven_rest : Sizes → ℕ → ℕ → ℕ → List ℕ
seven_rest e z y x =
    index e z (y - 1) x
    ∷ (index e z y x - 1)
    ∷ index e z y (x + 1)
    ∷ index e z (y + 1) x
    ∷ index e (z - 1) y x
    ∷ []

-- Those of 3d-r3-11pt.
abbrev pub eleven_first : Sizes → ℕ → ℕ → ℕ → ℕ
eleven_first e z y x = index e (z + 3) y x

abbrev pub eleven_rest : Sizes → ℕ → ℕ → ℕ → List ℕ
eleven_rest e z y x =
    index e (z + 1) y x
    ∷ index e z (y - 3) x
    ∷ index e z (y - 1) x
    ∷ (index e z y x - 1)
    ∷ index e z y (x + 1)
    ∷ index e z (y + 1) x
    ∷ index e z (y + 3) x
    ∷ index e (z - 1) y x
    ∷ index e (z - 3) y x
    ∷ []

module _ {D : Type 0} (of_int : ℕ → D) (plus : D → D → D) (left_over : D) where
  -- The sum of elements, from the left.
  unfoldable pub add_up : List D → D → List ℕ → Result D
  add_up b s [] = ok s
  add_up b s (i ∷ rest) = do x ← read b i; add_up b (plus s x) rest

  -- The loops of a program that leaves out `margin` elements at both ends of z and of y, and one of x.
  module _ (margin : ℕ) (first : Sizes → ℕ → ℕ → ℕ → ℕ) (others : Sizes → ℕ → ℕ → ℕ → List ℕ)
      (e : Sizes) where
    unfoldable pub x_loop : ℕ → ℕ → ℕ → ℕ → List D → List D → Result (List D)
    unfolding add_up
    x_loop z y zero x a b = ok a
    x_loop z y (suc k) x a b = do
      s ← read b (first e z y x)
      s' ← add_up b s (others e z y x)
      a' ← write a (index e z y x) s'
      x_loop z y k (x + 1) a' b

    unfoldable pub y_loop : ℕ → ℕ → ℕ → List D → List D → Result (List D)
    unfolding x_loop
    y_loop z zero y a b = ok a
    y_loop z (suc k) y a b = do a' ← x_loop z y (e.xs - 2) 1 a b; y_loop z k (y + 1) a' b

    unfoldable pub z_loop : ℕ → ℕ → List D → List D → Result (List D)
    unfolding y_loop
    z_loop zero z a b = ok a
    z_loop (suc k) z a b = do a' ← y_loop z (e.ys - 2 * margin) margin a b; z_loop k (z + 1) a' b

    unfoldable pub cube_pass : Arrays D → Result (Arrays D)
    unfolding z_loop
    cube_pass s = do a' ← z_loop (e.zs - 2 * margin) margin s.a s.b; ok (record { a = s.b; b = a' })

  unfoldable pub set_up_cube : List (ℕ × Sizes) → Result (Arrays D)
  unfolding max_cube two_arrays
  set_up_cube tests = do m ← max_cube 0 tests; two_arrays of_int plus left_over m

  unfoldable pub seven_main : List Text → Result (Option (Arrays D))
  unfolding benchmark read_cubes set_up_cube cube_pass
  seven_main = benchmark read_cubes set_up_cube (λ s. s) (cube_pass 1 seven_first seven_rest)

  unfoldable pub eleven_main : List Text → Result (Option (Arrays D))
  unfolding benchmark read_cubes set_up_cube cube_pass
  eleven_main = benchmark read_cubes set_up_cube (λ s. s) (cube_pass 3 eleven_first eleven_rest)
