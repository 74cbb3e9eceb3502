-- ===== src/Kernels/Products.antt =====
-- The benchmarks matvec.c, transmatvec.c and 2d-5pt.c of validation/kernels, whose arrays are of as many elements as
-- the product of two sizes.
pub mod Bounds
pub mod Vectors
use pycachesim.Base.{
  ℕ, zero, suc, ◌+◌, ◌-◌, ◌*◌, Bool, not, ◌&&◌, ◌||◌, Option, none, some, List, [], ◌∷◌, ltb, ◌==◌,
  if◌then◌else◌, replicate, Result, ok, fault, ◌>>=◌, out_of_range, read, write,
}
use pycachesim.CString.{Text, atoi}
use pycachesim.Kernels.{Arrays, rounds, benchmark, fill, two_arrays}

-- `atoi` of an argument that is a size. Negative ones are left out.
unfoldable pub size_of : Text → Result ℕ
size_of text =
    let (negative, n) = atoi text in
    if ltb n 2147483648 && (not negative || n == 0) then ok n else fault out_of_range

-- The repetitions and the two sizes of each test.
unfoldable pub read_products : List Text → Result (List (ℕ × (ℕ × ℕ)))
unfolding rounds size_of
read_products [] = ok []
read_products (repeats ∷ []) = ok []
read_products (repeats ∷ rows ∷ []) = ok []
read_products (repeats ∷ rows ∷ cols ∷ rest) = do
  n ← rounds repeats
  r ← size_of rows
  c ← size_of cols
  others ← read_products rest
  ok ((n, (r, c)) ∷ others)

-- The greatest product, which is an int.
unfoldable pub max_product : ℕ → List (ℕ × (ℕ × ℕ)) → Result ℕ
max_product m [] = ok m
max_product m ((n, (r, c)) ∷ rest) =
    if ltb (r * c) 2147483648
    then max_product (if ltb m (r * c) then r * c else m) rest
    else fault out_of_range

unfoldable pub max_cols : ℕ → List (ℕ × (ℕ × ℕ)) → ℕ
max_cols m [] = m
max_cols m ((n, (r, c)) ∷ rest) = max_cols (if ltb m c then c else m) rest

pub record Matrix (D : Type 0) : Type 0 where
  pub mat : List D
  pub vec : List D
  pub resv : List D

-- `times` and `one` are the product and 1.0.
module _ {D : Type 0} (of_int : ℕ → D) (plus : D → D → D) (left_over : D) (times : D → D → D)
    (one : D) where
  -- `vec[i] = maxcols - i; resv[i] = 1.0`
  unfoldable pub fill_vectors : ℕ → ℕ → ℕ → Matrix D → Result (Matrix D)
  fill_vectors zero i m s = ok s
  fill_vectors (suc k) i m s = do
    v ← write s.vec i (of_int (m - i))
    w ← write s.resv i one
    fill_vectors k (i + 1) m (record { mat = s.mat; vec = v; resv = w })

  unfoldable pub set_up_matrix : List (ℕ × (ℕ × ℕ)) → Result (Matrix D)
  unfolding max_product max_cols fill fill_vectors
  set_up_matrix tests = do
    m ← max_product 0 tests
    mat ← fill of_int plus left_over m 0 (replicate m left_over)
    fill_vectors (max_cols 0 tests) 0 (max_cols 0 tests) (record {
      mat = mat;
      vec = replicate (max_cols 0 tests) left_over;
      resv = replicate (max_cols 0 tests) left_over;
    })

  -- The loop over the columns: `s += mat[index]*vec[c]`, with the index as a function of the column.
  unfoldable pub dot : (ℕ → ℕ) → ℕ → ℕ → Matrix D → D → Result D
  dot index zero c m s = ok s
  dot index (suc k) c m s = do
    x ← read m.mat (index c)
    y ← read m.vec c
    dot index k (c + 1) m (plus s (times x y))

  -- The loop over the rows: `resv[r] = s`.
  unfoldable pub row_loop : (ℕ → ℕ → ℕ) → ℕ → ℕ → ℕ → Matrix D → Result (Matrix D)
  unfolding dot
  row_loop index cols zero r m = ok m
  row_loop index cols (suc k) r m = do
    s ← dot (index r) (cols - 2) 1 m (of_int 0)
    w ← write m.resv r s
    row_loop index cols k (r + 1) (record { mat = m.mat; vec = m.vec; resv = w })

  -- `mat[r*cur_cols+c]`
  unfoldable pub matvec_pass : ℕ × ℕ → Matrix D → Result (Matrix D)
  unfolding row_loop
  matvec_pass (rows, cols) = row_loop (λ r c. r * cols + c) cols (rows - 2) 1

  -- `mat[r+c*cur_rows]`
  unfoldable pub transmatvec_pass : ℕ × ℕ → Matrix D → Result (Matrix D)
  unfolding row_loop
  transmatvec_pass (rows, cols) = row_loop (λ r c. r + c * rows) cols (rows - 2) 1

  unfoldable pub matvec_main : List Text → Result (Option (Matrix D))
  unfolding benchmark read_products set_up_matrix matvec_pass
  matvec_main = benchmark read_products set_up_matrix (λ s. s) matvec_pass

  unfoldable pub transmatvec_main : List Text → Result (Option (Matrix D))
  unfolding benchmark read_products set_up_matrix transmatvec_pass
  transmatvec_main = benchmark read_products set_up_matrix (λ s. s) transmatvec_pass

  -- The inner loop: `a[y*X+x] = b[(y-1)*X+x] + b[y*X+x-1] + b[y*X+x+1] + b[(y+1)*X+x]`
  unfoldable pub five_loop : ℕ → ℕ → ℕ → ℕ → List D → List D → Result (List D)
  five_loop size y zero x a b = ok a
  five_loop size y (suc k) x a b = do
    above ← read b ((y - 1) * size + x)
    left ← read b (y * size + x - 1)
    right ← read b (y * size + x + 1)
    below ← read b ((y + 1) * size + x)
    a' ← write a (y * size + x) (plus (plus (plus above left) right) below)
    five_loop size y k (x + 1) a' b

  unfoldable pub plane_loop : ℕ → ℕ → ℕ → List D → List D → Result (List D)
  unfolding five_loop
  plane_loop size zero y a b = ok a
  plane_loop size (suc k) y a b = do
    a' ← five_loop size y (size - 2) 1 a b
    plane_loop size k (y + 1) a' b

  unfoldable pub plane_pass : ℕ × ℕ → Arrays D → Result (Arrays D)
  unfolding plane_loop
  plane_pass (ys, xs) s = do a' ← plane_loop xs (ys - 2) 1 s.a s.b; ok (record { a = s.b; b = a' })

  unfoldable pub plane_main : List Text → Result (Option (Arrays D))
  unfolding benchmark read_products max_product two_arrays plane_pass
  plane_main =
      benchmark read_products
        (λ tests. do m ← max_product 0 tests; two_arrays of_int plus left_over m) (λ s. s)
        plane_pass
