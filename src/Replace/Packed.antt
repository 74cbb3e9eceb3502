-- ===== src/Replace/Packed.antt =====
-- The lines that a set of cachesim/backend.c holds, as a list, and the order of the valid and the
-- invalid entries of a queue.
use mathlib.Core.Option.{some-injective}
use pycachesim.Base.{
  ℕ, zero, suc, ◌<◌, ◌≡◌, refl, sym, ◌∙◌, Bool, true, false, ◌||◌, some, List, [], ◌∷◌, arith, ◌==◌,
  if◌then◌else◌, length, get_elem?, set, take, drop, erase_at,
}
use pycachesim.Cache.{Entry, holds}

-- The ids of the valid entries.
abbrev pub lines_of : List Entry → List ℕ
lines_of [] = []
lines_of (e ∷ es) = if e.invalid then lines_of es else e.cl_id ∷ lines_of es

-- No valid entry stands behind an invalid one.
abbrev pub IsPacked : List Entry → Type 0
IsPacked [] = Unit {0}
IsPacked (e ∷ es) = (e.invalid ≡ true → lines_of es ≡ []) × IsPacked es

abbrev pub mem : ℕ → List ℕ → Bool
mem l [] = false
mem l (x ∷ xs) = x == l || mem l xs

-- The list without the first `l`.
abbrev pub remove : ℕ → List ℕ → List ℕ
remove l [] = []
remove l (x ∷ xs) = if x == l then xs else x ∷ remove l xs

lines_of-erase_at_nil : (i : ℕ) (es : List Entry) → lines_of es ≡ [] → lines_of (erase_at i es) ≡ []
lines_of-erase_at_nil i [] h = h
lines_of-erase_at_nil zero (e ∷ es) h = ground (arith, h)
lines_of-erase_at_nil (suc i) (e ∷ es) h = ground (arith, h, lines_of-erase_at_nil i es)

-- Taking an entry out leaves a packed queue.
pub IsPacked-erase_at : (i : ℕ) (es : List Entry) → IsPacked es → IsPacked (erase_at i es)
IsPacked-erase_at i [] p = p
IsPacked-erase_at zero (e ∷ es) (front, p) = p
IsPacked-erase_at (suc i) (e ∷ es) (front, p) =
    (λ h. lines_of-erase_at_nil i es (front h), IsPacked-erase_at i es p)

-- A packed queue without its end: its lines, at most as many as there is room for.
pub lines_of-erase_last :
    (n : ℕ) (es : List Entry)
    → length es ≡ suc n
    → IsPacked es
    → lines_of (erase_at n es) ≡ take n (lines_of es)
lines_of-erase_last n [] size p = absurd (omega arith)
lines_of-erase_last zero (e ∷ []) size p = refl
lines_of-erase_last zero (e ∷ e' ∷ es) size p = absurd (omega arith)
lines_of-erase_last (suc n) (e ∷ es) size (front, p) =
    ground (arith, front, lines_of-erase_at_nil n es, lines_of-erase_last n es (omega arith) p)

-- The first entry that holds a line: the line is there, and the queue without the entry has the
-- lines without the first of these.
pub lines_of-erase_held :
    (l i : ℕ) (es : List Entry) {e : Entry}
    → get_elem? es i ≡ some e
    → holds e l ≡ true
    → ((k : ℕ) (x : Entry) → k < i → get_elem? es k ≡ some x → holds x l ≡ false)
    → (mem l (lines_of es) ≡ true) × (lines_of (erase_at i es) ≡ remove l (lines_of es))
unfolding holds
lines_of-erase_held l i [] at held first = cc
lines_of-erase_held l zero (x ∷ es) at held first =
    (ground (arith, at, held), ground (arith, at, held))
lines_of-erase_held l (suc i) (x ∷ es) at held first =
    let (m, e) = lines_of-erase_held l i es at held (λ k y lt. first (suc k) y (omega arith)) in
    let no_here = first 0 x (omega arith) refl in
    (ground (arith, m, no_here), ground (arith, e, no_here))

pub mem-lines_of_absent :
    (l : ℕ) (es : List Entry)
    → ((k : ℕ) (x : Entry) → get_elem? es k ≡ some x → holds x l ≡ false)
    → mem l (lines_of es) ≡ false
unfolding holds
mem-lines_of_absent l [] absent = refl
mem-lines_of_absent l (x ∷ es) absent =
    let rest = mem-lines_of_absent l es (λ k. absent (suc k)) in
    let no_here = absent 0 x refl in ground (arith, rest, no_here)

-- Lists of entries that differ at most in which lines are dirty.
pub data Alike : List Entry → List Entry → Type 0 where
  nothing : Alike [] []
  both :
      {x y : Entry} {xs ys : List Entry}
      → y.cl_id ≡ x.cl_id
      → y.invalid ≡ x.invalid
      → Alike xs ys
      → Alike (x ∷ xs) (y ∷ ys)

Alike-refl : (xs : List Entry) → Alike xs xs
Alike-refl [] = nothing
Alike-refl (x ∷ xs) = both refl refl (Alike-refl xs)

pub Alike-set :
    (xs : List Entry) (k : ℕ) {x : Entry} (y : Entry)
    → get_elem? xs k ≡ some x
    → y.cl_id ≡ x.cl_id
    → y.invalid ≡ x.invalid
    → Alike xs (set xs k y)
Alike-set [] k y at e e' = nothing
Alike-set (x ∷ xs) zero {x = x'} y at e e' =
    let same : x ≡ x' = some-injective _ _ at in both (rw same e) (rw same e') (Alike-refl xs)
Alike-set (x ∷ xs) (suc k) y at e e' = both refl refl (Alike-set xs k y at e e')

pub Alike-drop : (n : ℕ) {xs ys : List Entry} → Alike xs ys → Alike (drop n xs) (drop n ys)
Alike-drop zero a = a
Alike-drop (suc n) nothing = nothing
Alike-drop (suc n) (both e e' a) = Alike-drop n a

pub Alike-take : (n : ℕ) {xs ys : List Entry} → Alike xs ys → Alike (take n xs) (take n ys)
Alike-take zero a = nothing
Alike-take (suc n) nothing = nothing
Alike-take (suc n) (both e e' a) = both e e' (Alike-take n a)

pub Alike-lines_of : {xs ys : List Entry} → Alike xs ys → lines_of ys ≡ lines_of xs
Alike-lines_of nothing = refl
Alike-lines_of (both e e' a) = let rest = Alike-lines_of a in ground (arith, e, e', rest)

pub Alike-IsPacked : {xs ys : List Entry} → Alike xs ys → IsPacked xs → IsPacked ys
Alike-IsPacked nothing p = p
Alike-IsPacked (both e e' a) (front, p) =
    (λ h. Alike-lines_of a ∙ front (sym e' ∙ h), Alike-IsPacked a p)
