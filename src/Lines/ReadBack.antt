-- ===== src/Lines/ReadBack.antt =====
-- The loop over the tokens of a line in `get_cacheSim_from_file` of cachesim/backend.c, on a line of
-- printed settings.
use mathlib.Core.List.{append-nil, append_assoc}
use pycachesim.Base.{
  ℕ, zero, suc, ◌<◌, ◌≡◌, refl, sym, ap, ◌∙◌, false, some, none, List, [], ◌∷◌, ◌++◌, arith, length,
  length-append, ok, option_case, Bool,
}
use pycachesim.CString.{Text, newline, strtok}
use pycachesim.CString.Decimal.{decimal, decimal-IsNumber}
use pycachesim.CString.Tokens.{
  is_line_end, NoneOf, IsFilled, strtok-start, strtok-nothing, strtok-all, NoneOf-append,
}
use pycachesim.Lines.{
  ends_value, ends_token, ends_key, ends_first_token, pass, read_tokens, read_settings,
}
use pycachesim.Lines.Printed.{
  is_special, IsField, key_of, value_in, print_value, CanPrint, key_of-IsField, print_value-IsField,
  setting_of-printed, NoneOf-line_end, IsNumber-IsField, NoneOf-ends_key, NoneOf-ends_value,
  NoneOf-ends_token, NoneOf-ends_first,
}
use pycachesim.Settings.{Setting}

unfoldable pub print_setting : Setting → Text
print_setting s = key_of s ++ (b'=' ∷ print_value (value_in s))

-- A line of settings.
unfoldable pub print_line : Setting → List Setting → Text
unfolding print_setting
print_line s [] = print_setting s ++ (newline ∷ [])
print_line s (s' ∷ rest) = print_setting s ++ (b',' ∷ print_line s' rest)

IsField-IsFilled : (t : Text) → IsField t → IsFilled t
IsField-IsFilled [] e = e
IsField-IsFilled (c ∷ cs) all = tt

IsFilled-append : (a b : Text) → IsFilled a → IsFilled (a ++ b)
IsFilled-append [] b e = cc
IsFilled-append (c ∷ a) b e = tt

IsField-NoneOf : (t : Text) → IsField t → NoneOf is_special t
IsField-NoneOf [] e = tt
IsField-NoneOf (c ∷ cs) all = all

pub decimal-NoneOf : (n : ℕ) → NoneOf is_line_end (decimal n)
decimal-NoneOf n =
    NoneOf-line_end (decimal n)
      (IsField-NoneOf (decimal n) (IsNumber-IsField (decimal n) (decimal-IsNumber n)))

-- What may follow the last setting in its token.
data IsTail : Text → Type 0 where
  bare : IsTail []
  line_end : IsTail (newline ∷ [])

value_with_tail :
    (v tail : Text)
    → IsField v
    → IsTail tail
    → (rest : Text) × (strtok ends_value (v ++ tail) ≡ some (v, rest))
value_with_tail v _ f bare = (
  [],
  ap (strtok ends_value) (append-nil v)
      ∙ strtok-all ends_value v (IsField-IsFilled v f) (NoneOf-ends_value v (IsField-NoneOf v f)),
)
value_with_tail v _ f line_end = (
  [],
  strtok-start ends_value v newline [] (IsField-IsFilled v f)
      (NoneOf-ends_value v (IsField-NoneOf v f)) refl,
)

module _ (s : Setting) (printable : CanPrint s) where
  key-IsField : IsField (key_of s)
  key-IsField = key_of-IsField s printable.0

  value-IsField : IsField (print_value (value_in s))
  value-IsField = print_value-IsField (value_in s) printable.1

  -- One pass on a printed setting assigns it.
  pass-printed :
      (tail saved : Text)
      → IsTail tail
      → pass (print_setting s ++ tail) saved
        ≡ option_case
            (strtok ends_token saved)
            (ok (some s, none, []))
            (λ (token', saved'). ok (some s, some token', saved'))
  unfolding pass print_setting
  pass-printed tail saved is_tail =
      let k = key_of s in
      let v = print_value (value_in s) in
      let (rest, e) = value_with_tail v tail value-IsField is_tail in
      let found : strtok ends_key (k ++ (b'=' ∷ v) ++ tail) ≡ some (k, v ++ tail) =
        ap (strtok ends_key) (append_assoc k (b'=' ∷ v) tail)
        ∙ strtok-start ends_key k b'=' (v ++ tail) (IsField-IsFilled k key-IsField)
            (NoneOf-ends_key k (IsField-NoneOf k key-IsField)) refl in
      rw (found, e, setting_of-printed s printable) refl

  print_setting-IsFilled : IsFilled (print_setting s)
  unfolding print_setting
  print_setting-IsFilled =
      IsFilled-append (key_of s) (b'=' ∷ print_value (value_in s))
        (IsField-IsFilled (key_of s) key-IsField)

  -- A printed setting has no comma and no end of the line.
  pub print_setting-NoneOf :
      (is : ℕ → Bool)
      → ((t : Text) → NoneOf is_special t → NoneOf is t)
      → is b'=' ≡ false
      → NoneOf is (print_setting s)
  unfolding print_setting
  print_setting-NoneOf is less eq =
      let k = key_of s in
      let v = print_value (value_in s) in
      NoneOf-append is k (b'=' ∷ v) (less k (IsField-NoneOf k key-IsField))
        (eq, less v (IsField-NoneOf v value-IsField))

-- The rest of the token of the last setting, and what is saved behind a token.
abbrev tail_of : List Setting → Text
tail_of [] = newline ∷ []
tail_of (s ∷ rest) = []

unfoldable saved_at : List Setting → Text
saved_at [] = []
saved_at (s ∷ rest) = print_line s rest

tail_of-IsTail : (rest : List Setting) → IsTail (tail_of rest)
tail_of-IsTail [] = line_end
tail_of-IsTail (s ∷ rest) = bare

abbrev pub AllPrintable : List Setting → Type 0
AllPrintable [] = Unit {0}
AllPrintable (s ∷ rest) = CanPrint s × AllPrintable rest

strtok-print_line :
    (s : Setting) (rest : List Setting)
    → CanPrint s
    → strtok ends_token (print_line s rest) ≡ some (print_setting s ++ tail_of rest, saved_at rest)
unfolding print_line saved_at
strtok-print_line s [] p =
    strtok-all ends_token (print_setting s ++ (newline ∷ []))
      (IsFilled-append (print_setting s) (newline ∷ []) (print_setting-IsFilled s p))
      (NoneOf-append ends_token (print_setting s) (newline ∷ [])
        (print_setting-NoneOf s p ends_token NoneOf-ends_token refl) (refl, tt))
strtok-print_line s (s' ∷ rest) p =
    strtok-start ends_token (print_setting s) b',' (print_line s' rest) (print_setting-IsFilled s p)
      (print_setting-NoneOf s p ends_token NoneOf-ends_token refl) refl
    ∙ ap (λ t. some (t, print_line s' rest)) (sym (append-nil (print_setting s)))

first_token :
    (s : Setting) (rest : List Setting)
    → CanPrint s
    → strtok ends_first_token (print_line s rest) ≡ some (print_setting s, saved_at rest)
unfolding print_line saved_at
first_token s [] p =
    strtok-start ends_first_token (print_setting s) newline [] (print_setting-IsFilled s p)
      (print_setting-NoneOf s p ends_first_token NoneOf-ends_first refl) refl
first_token s (s' ∷ rest) p =
    strtok-start ends_first_token (print_setting s) b',' (print_line s' rest)
      (print_setting-IsFilled s p)
      (print_setting-NoneOf s p ends_first_token NoneOf-ends_first refl) refl

next_saved :
    (s : Setting) (rest : List Setting)
    → CanPrint s
    → strtok ends_token (saved_at (s ∷ rest))
      ≡ some (print_setting s ++ tail_of rest, saved_at rest)
unfolding saved_at
next_saved s rest p = strtok-print_line s rest p

nothing_saved : strtok ends_token (saved_at []) ≡ none
unfolding saved_at
nothing_saved = strtok-nothing ends_token [] tt

read_tokens-printed :
    (fuel : ℕ) (s : Setting) (rest : List Setting) (tail : Text)
    → CanPrint s
    → AllPrintable rest
    → IsTail tail
    → length rest < fuel
    → read_tokens fuel (some (print_setting s ++ tail)) (saved_at rest) ≡ ok (s ∷ rest)
unfolding read_tokens
read_tokens-printed zero s rest tail p all is_tail h = absurd (omega arith)
read_tokens-printed (suc fuel) s [] tail p all is_tail h =
    rw (pass-printed s p tail (saved_at []) is_tail, nothing_saved) refl
read_tokens-printed (suc fuel) s (s' ∷ rest) tail p (p', all) is_tail h =
    rw (pass-printed s p tail (saved_at (s' ∷ rest)) is_tail, next_saved s' rest p')
      (rw
        (read_tokens-printed fuel s' rest (tail_of rest) p' all (tail_of-IsTail rest) (omega arith))
        refl)

pub length-print_line :
    (s : Setting) (rest : List Setting) → length rest < length (print_line s rest)
unfolding print_line
length-print_line s [] = omega (arith, length-append (print_setting s) (newline ∷ []))
length-print_line s (s' ∷ rest) =
    omega (
      arith,
      length-append (print_setting s) (b',' ∷ print_line s' rest),
      length-print_line s' rest,
    )

-- A line of settings, each with a name that holds no delimiter or a number of an int, is read as these
-- settings in their order; one pass for each byte of the line is enough.
pub read_settings-print_line :
    (s : Setting) (rest : List Setting)
    → AllPrintable (s ∷ rest)
    → read_settings (print_line s rest) ≡ ok (s ∷ rest)
unfolding read_settings
read_settings-print_line s rest (p, all) = rw (first_token s rest p) (
    ap (λ t. read_tokens (length (print_line s rest)) (some t) (saved_at rest))
      (sym (append-nil (print_setting s)))
    ∙ read_tokens-printed (length (print_line s rest)) s rest [] p all bare
        (length-print_line s rest))
