-- ===== src/CString/Cuts.antt =====
-- Any text cut at its delimiters, as `strtok_r` cuts it.
use mathlib.Core.List.{append-nil}
use mathlib.Core.Option.{some-injective}
use mathlib.Core.Path.{subst}
use pycachesim.Base.{
  ℕ, suc, ◌≤◌, ◌<◌, ◌≡◌, ◌⊎◌, inl, inr, refl, sym, ap, ◌∙◌, Bool, true, false, Bool-cases, some, [],
  ◌∷◌, ◌++◌, arith, length,
}
use pycachesim.CString.{leading, Text, skip, upto, behind, strtok, token_of}
use pycachesim.CString.Tokens.{AllOf, NoneOf}

-- A text is its leading delimiters and the rest.
pub leading-skip :
    (is : ℕ → Bool) (t : Text) → AllOf is (leading is t) × (t ≡ leading is t ++ skip is t)
unfolding leading skip
leading-skip is [] = (tt, refl)
leading-skip is (c ∷ cs) = elim (Bool-cases (is c)) [
  | inl here ↦ let (all, e) = leading-skip is cs in rw here ((here, all), ap (◌∷◌ c) e)
  | inr stop ↦ rw stop (tt, refl)
]

-- It is all delimiters, or a byte follows that is none.
pub skipped :
    (is : ℕ → Bool) (t : Text)
    → (skip is t ≡ []) ⊎ ((c : ℕ) × (cs : Text) × (skip is t ≡ c ∷ cs) × (is c ≡ false))
unfolding skip
skipped is [] = inl refl
skipped is (d ∷ t) = elim (Bool-cases (is d)) [
  | inl here ↦ rw here (skipped is t)
  | inr stop ↦ rw stop (inr (d, t, refl, stop))
]

-- A text is what is in front of the first delimiter, and the delimiter and the rest, if there is one.
pub data Cut (is : ℕ → Bool) (t : Text) : Type 0 where
  whole : NoneOf is t → behind is t ≡ [] → Cut is t
  cut :
      (d : ℕ) → is d ≡ true → NoneOf is (upto is t) → t ≡ upto is t ++ (d ∷ behind is t) → Cut is t

pub any-Cut : (is : ℕ → Bool) (t : Text) → Cut is t
unfolding upto behind
any-Cut is [] = whole tt refl
any-Cut is (c ∷ cs) = elim (Bool-cases (is c)) [
  | inl here ↦ cut c here (rw here tt) (rw here refl)
  | inr stop ↦ longer stop (any-Cut is cs)
]
  where
    longer : is c ≡ false → Cut is cs → Cut is (c ∷ cs)
    longer stop (whole none_of e) = whole (stop, none_of) (rw stop e)
    longer stop (cut d delim none_of e) =
        cut d delim (rw stop (stop, none_of)) (rw stop (ap (◌∷◌ c) e))

pub strtok_of : (is : ℕ → Bool) (t : Text) {r : Text} → skip is t ≡ r → strtok is t ≡ token_of is r
unfolding strtok
strtok_of is t e = ap (token_of is) e

pub all_leading : (is : ℕ → Bool) (t : Text) → skip is t ≡ [] → AllOf is t
all_leading is t nil =
    let (all, e) = leading-skip is t in
    subst (AllOf is) (sym (e ∙ ap (◌++◌ (leading is t)) nil ∙ append-nil (leading is t))) all

pub length-behind : (is : ℕ → Bool) (t : Text) → length (behind is t) ≤ length t
unfolding behind
length-behind is [] = omega arith
length-behind is (c ∷ cs) = elim (Bool-cases (is c)) [
  | inl here ↦ rw here (omega arith)
  | inr stop ↦ rw stop (omega (arith, length-behind is cs))
]

pub length-skip : (is : ℕ → Bool) (t : Text) → length (skip is t) ≤ length t
unfolding skip
length-skip is [] = omega arith
length-skip is (c ∷ cs) = elim (Bool-cases (is c)) [
  | inl here ↦ rw here (omega (arith, length-skip is cs))
  | inr stop ↦ rw stop (omega arith)
]

same_rest :
    (is : ℕ → Bool) (c : ℕ) (cs token saved : Text)
    → token_of is (c ∷ cs) ≡ some (token, saved)
    → behind is (c ∷ cs) ≡ saved
unfolding token_of
same_rest is c cs token saved e = ap (λ x. x.1) (some-injective _ _ e)

-- What is saved gets shorter.
pub saved_shorter :
    (is : ℕ → Bool) (t token saved : Text)
    → strtok is t ≡ some (token, saved)
    → length saved < length t
unfolding token_of behind
saved_shorter is t token saved e = elim (skipped is t) [
  | inl nil ↦ let e' = strtok_of is t nil in cc
  | inr (c, cs, at, stop) ↦
      let rest = same_rest is c cs token saved (sym (strtok_of is t at) ∙ e) in
      let next : behind is (c ∷ cs) ≡ behind is cs = rw stop refl in
      let size : length saved ≡ length (behind is cs) = ap length (sym rest ∙ next) in
      let size' : length (skip is t) ≡ suc (length cs) = ap length at in
      omega (arith, length-skip is t, length-behind is cs)
]
