-- ===== src/Lines/Printed.antt =====
-- Settings as a line of a cache definition file, `key=value` with commas between them, for the reader
-- `get_cacheSim_from_file` of cachesim/backend.c.
use pycachesim.Base.{
  ℕ, ◌<◌, ◌≡◌, refl, Bool, true, false, not, ◌&&◌, ◌||◌, [], ◌∷◌, arith, ◌==◌, ltb, ok,
}
use pycachesim.CString.{Text, bytes, newline, is_digit}
use pycachesim.CString.Decimal.{decimal, IsNumber, decimal-IsNumber, atoi-decimal}
use pycachesim.CString.Tokens.{AllOf, NoneOf, is_line_end}
use pycachesim.Lines.{
  setting_of, number, int_of, ends_value, ends_token, ends_key, ends_first_token,
}
use pycachesim.Settings.{
  Setting, name, sets, ways, cl_size, cl_bits, subblock_size, subblock_bits, replacement_policy_id,
  write_back, write_allocate, write_combining, swap_on_load, load_from, store_to, victims_to,
  unrecognized,
}

-- The bytes that end a key, a value or a token, and NUL.
abbrev pub is_special : ℕ → Bool
is_special c = c == 0 || c == b',' || c == b'=' || c == newline || c == 13

-- A text that can be a key or a value: not empty, without special bytes.
abbrev pub IsField : Text → Type 0
IsField [] = true ≡ false
IsField (c ∷ cs) = NoneOf is_special (c ∷ cs)

NoneOf-of :
    (is : ℕ → Bool)
    → ((c : ℕ) → is_special c ≡ false → is c ≡ false)
    → (t : Text) → NoneOf is_special t
    → NoneOf is t
NoneOf-of is less [] all = tt
NoneOf-of is less (c ∷ cs) (here, all) = (less c here, NoneOf-of is less cs all)

pub NoneOf-ends_key : (t : Text) → NoneOf is_special t → NoneOf ends_key t
NoneOf-ends_key = NoneOf-of ends_key (λ c h. ground (arith, h))

pub NoneOf-ends_value : (t : Text) → NoneOf is_special t → NoneOf ends_value t
NoneOf-ends_value = NoneOf-of ends_value (λ c h. ground (arith, h))

pub NoneOf-ends_token : (t : Text) → NoneOf is_special t → NoneOf ends_token t
NoneOf-ends_token = NoneOf-of ends_token (λ c h. ground (arith, h))

pub NoneOf-ends_first : (t : Text) → NoneOf is_special t → NoneOf ends_first_token t
NoneOf-ends_first = NoneOf-of ends_first_token (λ c h. ground (arith, h))

pub NoneOf-line_end : (t : Text) → NoneOf is_special t → NoneOf is_line_end t
NoneOf-line_end = NoneOf-of is_line_end (λ c h. ground (arith, h))

digits_not_special : (t : Text) → AllOf is_digit t → NoneOf is_special t
digits_not_special [] all = tt
digits_not_special (c ∷ cs) (here, all) = (ground (arith, here), digits_not_special cs all)

pub IsNumber-IsField : (t : Text) → IsNumber t → IsField t
IsNumber-IsField [] e = e
IsNumber-IsField (c ∷ cs) all = digits_not_special (c ∷ cs) all

abbrev pub key_of : Setting → Text
key_of (name t) = bytes "name"
key_of (sets n) = bytes "sets"
key_of (ways n) = bytes "ways"
key_of (cl_size n) = bytes "cl_size"
key_of (cl_bits n) = bytes "cl_bits"
key_of (subblock_size n) = bytes "subblock_size"
key_of (subblock_bits n) = bytes "subblock_bits"
key_of (replacement_policy_id n) = bytes "replacement_policy_id"
key_of (write_back n) = bytes "write_back"
key_of (write_allocate n) = bytes "write_allocate"
key_of (write_combining n) = bytes "write_combining"
key_of (swap_on_load n) = bytes "swap_on_load"
key_of (load_from t) = bytes "load_from"
key_of (store_to t) = bytes "store_to"
key_of (victims_to t) = bytes "victims_to"
key_of (unrecognized t) = t

-- The value of a setting: a text, or a number.
pub data Value : Type 0 where
  text : Text → Value
  figure : ℕ → Value

abbrev pub value_in : Setting → Value
value_in (name t) = text t
value_in (sets n) = figure n
value_in (ways n) = figure n
value_in (cl_size n) = figure n
value_in (cl_bits n) = figure n
value_in (subblock_size n) = figure n
value_in (subblock_bits n) = figure n
value_in (replacement_policy_id n) = figure n
value_in (write_back n) = figure n
value_in (write_allocate n) = figure n
value_in (write_combining n) = figure n
value_in (swap_on_load n) = figure n
value_in (load_from t) = text t
value_in (store_to t) = text t
value_in (victims_to t) = text t
value_in (unrecognized t) = text t

abbrev pub print_value : Value → Text
print_value (text t) = t
print_value (figure n) = decimal n

-- What can be printed: names that are fields, and numbers of an int.
abbrev pub IsPrintable : Value → Type 0
IsPrintable (text t) = IsField t
IsPrintable (figure n) = n < 2147483648

abbrev pub recognized : Setting → Bool
recognized (unrecognized t) = false
recognized other = true

abbrev pub CanPrint : Setting → Type 0
CanPrint s = (recognized s ≡ true) × IsPrintable (value_in s)

pub print_value-IsField : (v : Value) → IsPrintable v → IsField (print_value v)
print_value-IsField (text t) p = p
print_value-IsField (figure n) p = IsNumber-IsField (decimal n) (decimal-IsNumber n)

-- The same, as a test.
abbrev no_special : Text → Bool
no_special [] = true
no_special (c ∷ cs) = not (is_special c) && no_special cs

no_special-NoneOf : (t : Text) → no_special t ≡ true → NoneOf is_special t
no_special-NoneOf [] e = tt
no_special-NoneOf (c ∷ cs) e = (ground (arith, e), no_special-NoneOf cs (ground (arith, e)))

pub key_of-IsField : (s : Setting) → recognized s ≡ true → IsField (key_of s)
key_of-IsField (name n) e = no_special-NoneOf (bytes "name") refl
key_of-IsField (load_from n) e = no_special-NoneOf (bytes "load_from") refl
key_of-IsField (store_to n) e = no_special-NoneOf (bytes "store_to") refl
key_of-IsField (victims_to n) e = no_special-NoneOf (bytes "victims_to") refl
key_of-IsField (sets n) e = no_special-NoneOf (bytes "sets") refl
key_of-IsField (ways n) e = no_special-NoneOf (bytes "ways") refl
key_of-IsField (cl_size n) e = no_special-NoneOf (bytes "cl_size") refl
key_of-IsField (cl_bits n) e = no_special-NoneOf (bytes "cl_bits") refl
key_of-IsField (subblock_size n) e = no_special-NoneOf (bytes "subblock_size") refl
key_of-IsField (subblock_bits n) e = no_special-NoneOf (bytes "subblock_bits") refl
key_of-IsField (replacement_policy_id n) e = no_special-NoneOf (bytes "replacement_policy_id") refl
key_of-IsField (write_back n) e = no_special-NoneOf (bytes "write_back") refl
key_of-IsField (write_allocate n) e = no_special-NoneOf (bytes "write_allocate") refl
key_of-IsField (write_combining n) e = no_special-NoneOf (bytes "write_combining") refl
key_of-IsField (swap_on_load n) e = no_special-NoneOf (bytes "swap_on_load") refl
key_of-IsField (unrecognized t) e = cc

number-decimal : (f : ℕ → Setting) (n : ℕ) → n < 2147483648 → number f (decimal n) ≡ ok (f n)
unfolding number int_of
number-decimal f n h =
    let small : ltb n 2147483648 ≡ true = ground arith in rw (atoi-decimal n, small) refl

-- A key and a printed value are the setting.
pub setting_of-printed :
    (s : Setting) → CanPrint s → setting_of (key_of s) (print_value (value_in s)) ≡ ok s
unfolding setting_of
setting_of-printed (name t) p = refl
setting_of-printed (load_from t) p = refl
setting_of-printed (store_to t) p = refl
setting_of-printed (victims_to t) p = refl
setting_of-printed (sets n) p = number-decimal sets n p.1
setting_of-printed (ways n) p = number-decimal ways n p.1
setting_of-printed (cl_size n) p = number-decimal cl_size n p.1
setting_of-printed (cl_bits n) p = number-decimal cl_bits n p.1
setting_of-printed (subblock_size n) p = number-decimal subblock_size n p.1
setting_of-printed (subblock_bits n) p = number-decimal subblock_bits n p.1
setting_of-printed (replacement_policy_id n) p = number-decimal replacement_policy_id n p.1
setting_of-printed (write_back n) p = number-decimal write_back n p.1
setting_of-printed (write_allocate n) p = number-decimal write_allocate n p.1
setting_of-printed (write_combining n) p = number-decimal write_combining n p.1
setting_of-printed (swap_on_load n) p = number-decimal swap_on_load n p.1
setting_of-printed (unrecognized t) p = let e = p.0 in cc
