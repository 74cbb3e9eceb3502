-- ===== src/CString/Tokens.antt =====
-- The functions of `CString` on texts that are put together from tokens and delimiters.
use mathlib.Core.List.{append-nil}
use mathlib.Core.Path.{ap₂}
use pycachesim.Base.{
  ℕ, zero, suc, ◌<◌, ◌≡◌, refl, sym, ap, ◌∙◌, Bool, true, false, ◌||◌, none, some, [], ◌∷◌, ◌++◌,
  arith, ◌==◌, length,
}
use pycachesim.CString.{
  token_of, Text, newline, until_nul, take_line, fgets, skip, upto, behind, strtok,
}

-- Every byte of a text, and none, is a delimiter.
abbrev pub AllOf : (ℕ → Bool) → Text → Type 0
AllOf is [] = Unit {0}
AllOf is (c ∷ rest) = (is c ≡ true) × AllOf is rest

abbrev pub NoneOf : (ℕ → Bool) → Text → Type 0
NoneOf is [] = Unit {0}
NoneOf is (c ∷ rest) = (is c ≡ false) × NoneOf is rest

module _ (is : ℕ → Bool) where
  pub skip-AllOf : (pre rest : Text) → AllOf is pre → skip is (pre ++ rest) ≡ skip is rest
  unfolding skip
  skip-AllOf [] rest all = refl
  skip-AllOf (c ∷ pre) rest (here, all) = rw here (skip-AllOf pre rest all)

  pub upto-NoneOf : (key rest : Text) → NoneOf is key → upto is (key ++ rest) ≡ key ++ upto is rest
  unfolding upto
  upto-NoneOf [] rest all = refl
  upto-NoneOf (c ∷ key) rest (here, all) = rw here (ap (◌∷◌ c) (upto-NoneOf key rest all))

  pub behind-NoneOf : (key rest : Text) → NoneOf is key → behind is (key ++ rest) ≡ behind is rest
  unfolding behind
  behind-NoneOf [] rest all = refl
  behind-NoneOf (c ∷ key) rest (here, all) = rw here (behind-NoneOf key rest all)

  skip-token :
      (pre : Text) (c : ℕ) (cs : Text)
      → AllOf is pre
      → is c ≡ false
      → skip is (pre ++ (c ∷ cs)) ≡ c ∷ cs
  unfolding skip
  skip-token pre c cs all here = skip-AllOf pre (c ∷ cs) all ∙ rw here refl

  strtok-token :
      (pre : Text) (c : ℕ) (cs : Text)
      → AllOf is pre
      → is c ≡ false
      → strtok is (pre ++ (c ∷ cs)) ≡ some (upto is (c ∷ cs), behind is (c ∷ cs))
  unfolding strtok token_of
  strtok-token pre c cs all here = ap (token_of is) (skip-token pre c cs all here)

  -- A token up to a delimiter.
  pub strtok-next :
      (pre : Text) (c : ℕ) (cs : Text) (d : ℕ) (rest : Text)
      → AllOf is pre
      → NoneOf is (c ∷ cs)
      → is d ≡ true
      → strtok is (pre ++ ((c ∷ cs) ++ (d ∷ rest))) ≡ some (c ∷ cs, rest)
  unfolding upto behind
  strtok-next pre c cs d rest all (here, others) delim =
      strtok-token pre c (cs ++ (d ∷ rest)) all here
      ∙ rw
          (
            upto-NoneOf (c ∷ cs) (d ∷ rest) (here, others),
            behind-NoneOf (c ∷ cs) (d ∷ rest) (here, others),
            delim,
          )
          (ap (λ t. some (c ∷ t, rest)) (append-nil cs))

  upto-whole : (key : Text) → NoneOf is key → upto is key ≡ key
  unfolding upto
  upto-whole [] all = refl
  upto-whole (c ∷ key) (here, all) = rw here (ap (◌∷◌ c) (upto-whole key all))

  behind-whole : (key : Text) → NoneOf is key → behind is key ≡ []
  unfolding behind
  behind-whole [] all = refl
  behind-whole (c ∷ key) (here, all) = rw here (behind-whole key all)

  -- A token up to the end.
  pub strtok-last :
      (pre : Text) (c : ℕ) (cs : Text)
      → AllOf is pre
      → NoneOf is (c ∷ cs)
      → strtok is (pre ++ (c ∷ cs)) ≡ some (c ∷ cs, [])
  unfolding upto behind
  strtok-last pre c cs all (here, others) =
      strtok-token pre c cs all here
      ∙ ap₂ (λ a b. some (a, b)) (upto-whole (c ∷ cs) (here, others))
          (behind-whole (c ∷ cs) (here, others))

  -- Delimiters only.
  pub strtok-nothing : (text : Text) → AllOf is text → strtok is text ≡ none
  unfolding strtok token_of skip
  strtok-nothing text all =
      ap (λ t. strtok is t) (sym (append-nil text)) ∙ ap (token_of is) (skip-AllOf text [] all)

-- A text with a byte.
abbrev pub IsFilled : Text → Type 0
IsFilled [] = true ≡ false
IsFilled (c ∷ cs) = Unit {0}

-- A token at the start, up to a delimiter or the end.
pub strtok-start :
    (is : ℕ → Bool) (t : Text) (d : ℕ) (rest : Text)
    → IsFilled t
    → NoneOf is t
    → is d ≡ true
    → strtok is (t ++ (d ∷ rest)) ≡ some (t, rest)
strtok-start is [] d rest e all delim = cc
strtok-start is (c ∷ cs) d rest e all delim = strtok-next is [] c cs d rest tt all delim

pub strtok-all : (is : ℕ → Bool) (t : Text) → IsFilled t → NoneOf is t → strtok is t ≡ some (t, [])
strtok-all is [] e all = cc
strtok-all is (c ∷ cs) e all = strtok-last is [] c cs tt all

pub NoneOf-append : (is : ℕ → Bool) (a b : Text) → NoneOf is a → NoneOf is b → NoneOf is (a ++ b)
NoneOf-append is [] b none_a none_b = none_b
NoneOf-append is (c ∷ a) b (here, none_a) none_b = (here, NoneOf-append is a b none_a none_b)

-- A byte at which a line ends, or its string.
abbrev pub is_line_end : ℕ → Bool
is_line_end c = c == newline || c == 0

pub until_nul-line :
    (t : Text) → NoneOf is_line_end t → until_nul (t ++ (newline ∷ [])) ≡ t ++ (newline ∷ [])
unfolding until_nul
until_nul-line [] all = refl
until_nul-line (c ∷ cs) (here, all) =
    let no_nul : (c == 0) ≡ false = ground (arith, here) in
    rw no_nul (ap (◌∷◌ c) (until_nul-line cs all))

take_line-line :
    (n : ℕ) (t rest : Text)
    → NoneOf is_line_end t
    → length t < n
    → take_line n (t ++ (newline ∷ rest)) ≡ (t ++ (newline ∷ []), rest)
unfolding take_line
take_line-line zero t rest all h = absurd (omega arith)
take_line-line (suc n) [] rest all h = refl
take_line-line (suc n) (c ∷ cs) rest (here, all) h =
    let more : (c == newline) ≡ false = ground (arith, here) in
    let r = take_line-line n cs rest all (omega arith) in rw more (ap (λ x. (c ∷ x.0, x.1)) r)

-- A line of at most 1023 bytes.
pub fgets-line :
    (t rest : Text)
    → NoneOf is_line_end t
    → length t < 1023
    → fgets (t ++ (newline ∷ rest)) ≡ some (t ++ (newline ∷ []), rest)
unfolding fgets
fgets-line [] rest all h = ap some (take_line-line 1023 [] rest all h)
fgets-line (c ∷ cs) rest all h = ap some (take_line-line 1023 (c ∷ cs) rest all h)
