-- ===== src/Api/Due.antt =====
-- The entries of `Cache_force_write_back`: those that are due, what they become, and the loop over them
-- as functions on lists.
use mathlib.Core.Option.{some-injective}
use pycachesim.Base.{
  ℕ, zero, suc, ◌+◌, ◌≤◌, ◌≡◌, refl, sym, ap, Bool, true, false, not, ◌&&◌, some, List, [], ◌∷◌,
  arith, if◌then◌else◌, length, get_elem?, lt_of_get_elem?, set, take, drop, ◌++◌, map,
}
use pycachesim.Cache.{Entry}

-- A valid entry is no longer dirty.
abbrev pub cleaned : Entry → Entry
cleaned e = record e { dirty = e.invalid && e.dirty }

-- The dirty valid entries of a list.
abbrev pub is_due : Entry → Bool
is_due e = not e.invalid && e.dirty

abbrev pub dirty_lines : List Entry → ℕ
dirty_lines [] = 0
dirty_lines (e ∷ es) = if is_due e then suc (dirty_lines es) else dirty_lines es

-- One more entry of a loop over a list.
pub map_from-suc :
    {A : Type 0} (f : A → A) (xs : List A) (i : ℕ) (e : A)
    → get_elem? xs i ≡ some e
    → take (suc i) (set xs i (f e)) ++ map f (drop (suc i) (set xs i (f e)))
      ≡ take i xs ++ map f (drop i xs)
map_from-suc f [] i e at = absurd (omega (arith, lt_of_get_elem? [] i at))
map_from-suc f (x ∷ xs) zero e at = let same : e ≡ x = some-injective _ _ (sym at) in rw same refl
map_from-suc f (x ∷ xs) (suc i) e at = ap (◌∷◌ x) (map_from-suc f xs i e at)

pub map_from-end :
    {A : Type 0} (f : A → A) (xs : List A) (i : ℕ)
    → length xs ≤ i
    → take i xs ++ map f (drop i xs) ≡ xs
map_from-end f [] zero h = refl
map_from-end f [] (suc i) h = refl
map_from-end f (x ∷ xs) zero h = absurd (omega arith)
map_from-end f (x ∷ xs) (suc i) h = ap (◌∷◌ x) (map_from-end f xs i (omega arith))

pub dirty_lines-end : (xs : List Entry) (i : ℕ) → length xs ≤ i → dirty_lines (drop i xs) ≡ 0
dirty_lines-end [] zero h = refl
dirty_lines-end [] (suc i) h = refl
dirty_lines-end (x ∷ xs) zero h = absurd (omega arith)
dirty_lines-end (x ∷ xs) (suc i) h = dirty_lines-end xs i (omega arith)

abbrev pub due : Entry → ℕ
due e = if is_due e then 1 else 0

pub dirty_lines-suc :
    (xs : List Entry) (i : ℕ) (e v : Entry)
    → get_elem? xs i ≡ some e
    → due e + dirty_lines (drop (suc i) (set xs i v)) ≡ dirty_lines (drop i xs)
dirty_lines-suc [] i e v at = absurd (omega (arith, lt_of_get_elem? [] i at))
dirty_lines-suc (x ∷ xs) zero e v at =
    let same : e ≡ x = some-injective _ _ (sym at) in rw same (ground arith)
dirty_lines-suc (x ∷ xs) (suc i) e v at = dirty_lines-suc xs i e v at

-- An entry that is not due is clean.
pub cleaned-due : (e : Entry) → is_due e ≡ false → cleaned e ≡ e
cleaned-due e h = ap (λ b. record e { dirty = b }) (clean e.invalid e.dirty h)
  where
    clean : (i d : Bool) → (not i && d) ≡ false → (i && d) ≡ d
    clean true d h = refl
    clean false d h = sym h

pub cleaned-is_due : (e : Entry) → is_due e ≡ true → record e { dirty = false } ≡ cleaned e
cleaned-is_due e h = ap (λ b. record e { dirty = b }) (clean e.invalid e.dirty h)
  where
    clean : (i d : Bool) → (not i && d) ≡ true → false ≡ (i && d)
    clean true d h = cc
    clean false d h = refl
