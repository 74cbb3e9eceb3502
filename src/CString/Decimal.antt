-- ===== src/CString/Decimal.antt =====
-- The decimal digits of a number, read back by `atoi`.
use pycachesim.Base.{
  Bool-cases, inl, inr, ℕ, zero, suc, ◌+◌, ◌-◌, ◌*◌, ◌/◌, ◌%◌, ◌<◌, ◌≡◌, refl, sym, ap, ◌∙◌, true,
  false, [], ◌∷◌, ◌++◌, arith, ◌==◌, ltb, if◌then◌else◌,
}
use pycachesim.CString.{Text, newline, skip, digits_from, signed, atoi, is_digit, is_space}
use pycachesim.CString.Tokens.{AllOf}

-- The digits of `n`, in front of others.
unfoldable pub decimal_from : ℕ → ℕ → Text → Text
decimal_from zero n behind = behind
decimal_from (suc fuel) n behind =
    let longer = decimal_from fuel (n / 10) ((48 + n % 10) ∷ behind) in
    if ltb n 10 then (48 + n) ∷ behind else longer

unfoldable pub decimal : ℕ → Text
unfolding decimal_from
decimal n = decimal_from (suc n) n []

digits_from-decimal_from :
    (fuel n : ℕ) (behind : Text)
    → n < fuel
    → digits_from (decimal_from fuel n behind) 0 ≡ digits_from behind n
unfolding decimal_from digits_from
digits_from-decimal_from zero n behind h = absurd (omega arith)
digits_from-decimal_from (suc fuel) n behind h = elim (Bool-cases (ltb n 10)) [
  | inl small ↦
      let digit : is_digit (48 + n) ≡ true = ground arith in
      let same : 0 + (48 + n - 48) ≡ n = omega arith in rw small (rw (digit, same) refl)
  | inr large ↦
      let again : n / 10 * 10 + (48 + n % 10 - 48) ≡ n = omega arith in
      let digit : is_digit (48 + n % 10) ≡ true = ground arith in
      let fewer : n / 10 < fuel = ground arith in
      rw large (
        digits_from-decimal_from fuel (n / 10) ((48 + n % 10) ∷ behind) fewer
        ∙ rw (digit, again) refl)
]

-- A text of digits, at least one.
abbrev pub IsNumber : Text → Type 0
IsNumber [] = true ≡ false
IsNumber (c ∷ cs) = AllOf is_digit (c ∷ cs)

IsNumber-decimal_from :
    (fuel n : ℕ) (behind : Text)
    → n < fuel
    → AllOf is_digit behind
    → IsNumber (decimal_from fuel n behind)
unfolding decimal_from
IsNumber-decimal_from zero n behind h all = absurd (omega arith)
IsNumber-decimal_from (suc fuel) n behind h all = elim (Bool-cases (ltb n 10)) [
  | inl small ↦ rw small (ground arith, all)
  | inr large ↦
      let fewer : n / 10 < fuel = ground arith in
      rw large
        (IsNumber-decimal_from fuel (n / 10) ((48 + n % 10) ∷ behind) fewer (ground arith, all))
]

pub decimal-IsNumber : (n : ℕ) → IsNumber (decimal n)
unfolding decimal
decimal-IsNumber n = IsNumber-decimal_from (suc n) n [] (omega arith) tt

-- A text that starts with a digit.
atoi-digit :
    (c : ℕ) (cs : Text) → is_digit c ≡ true → atoi (c ∷ cs) ≡ (false, digits_from (c ∷ cs) 0)
unfolding atoi skip signed
atoi-digit c cs digit =
    let no_space : is_space c ≡ false = ground (arith, digit) in
    let no_minus : (c == b'-') ≡ false = ground (arith, digit) in
    let no_plus : (c == b'+') ≡ false = ground (arith, digit) in
    rw no_space (rw (no_minus, no_plus) refl)

atoi-IsNumber : (text : Text) → IsNumber text → atoi text ≡ (false, digits_from text 0)
atoi-IsNumber [] e = cc
atoi-IsNumber (c ∷ cs) (digit, all) = atoi-digit c cs digit

-- `atoi` reads the number of which these are the digits.
pub atoi-decimal : (n : ℕ) → atoi (decimal n) ≡ (false, n)
unfolding decimal digits_from
atoi-decimal n =
    atoi-IsNumber (decimal n) (decimal-IsNumber n)
    ∙ ap (λ k. (false, k)) (digits_from-decimal_from (suc n) n [] (omega arith))

digits_from-then :
    (t : Text) (d : ℕ) (rest : Text) (n : ℕ)
    → AllOf is_digit t
    → is_digit d ≡ false
    → digits_from (t ++ (d ∷ rest)) n ≡ digits_from t n
unfolding digits_from
digits_from-then [] d rest n all stop = rw stop refl
digits_from-then (c ∷ cs) d rest n (here, all) stop =
    rw here (digits_from-then cs d rest (n * 10 + (c - 48)) all stop)

-- The same with the end of a line behind the digits.
pub atoi-decimal_line : (n : ℕ) → atoi (decimal n ++ (newline ∷ [])) ≡ (false, n)
atoi-decimal_line n = go (decimal n) (decimal-IsNumber n) ∙ atoi-decimal n
  where
    go : (t : Text) → IsNumber t → atoi (t ++ (newline ∷ [])) ≡ atoi t
    go [] e = cc
    go (c ∷ cs) all =
        atoi-digit c (cs ++ (newline ∷ [])) (all.0)
        ∙ ap (λ k. (false, k)) (digits_from-then (c ∷ cs) newline [] 0 all refl)
        ∙ sym (atoi-digit c cs (all.0))
