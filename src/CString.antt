-- ===== src/CString.antt =====
-- C strings as lists of bytes without the final NUL, and the functions of the C library that
-- cachesim/backend.c reads a cache definition file with.
pub mod Tokens
pub mod Decimal
pub mod Cuts
use Prim.Native.Char.{code}
use Prim.Native.String.{String}
use pycachesim.Base.{
  ℕ, zero, suc, ◌+◌, ◌-◌, ◌*◌, Bool, true, false, not, ◌&&◌, ◌||◌, Option, none, some, List, [],
  ◌∷◌, ◌==◌, ltb, if◌then◌else◌,
}

abbrev pub Text : Type 0
Text = List ℕ

-- The bytes of a literal.
abbrev pub bytes : String → Text
bytes String.[] = []
bytes (String.◌∷◌ c rest) = code c ∷ bytes rest

abbrev pub newline : ℕ
newline = 10

abbrev pub carriage_return : ℕ
carriage_return = 13

-- `strcmp(a, b) == 0`
abbrev pub strcmp_zero : Text → Text → Bool
strcmp_zero [] [] = true
strcmp_zero [] (y ∷ ys) = false
strcmp_zero (x ∷ xs) [] = false
strcmp_zero (x ∷ xs) (y ∷ ys) = x == y && strcmp_zero xs ys

-- What a buffer holds as a string: the bytes in front of the first NUL.
unfoldable pub until_nul : Text → Text
until_nul [] = []
until_nul (c ∷ rest) = if c == 0 then [] else c ∷ until_nul rest

-- At most `n` bytes, and nothing behind a newline; and the bytes that are left.
unfoldable pub take_line : ℕ → Text → Text × Text
take_line zero text = ([], text)
take_line (suc n) [] = ([], [])
take_line (suc n) (c ∷ rest) =
    if c == newline then (c ∷ [], rest) else (c ∷ (take_line n rest).0, (take_line n rest).1)

-- `fgets(line, 1024, stream)`, where `none` is the end of the file.
unfoldable pub fgets : Text → Option (Text × Text)
unfolding take_line
fgets [] = none
fgets (c ∷ rest) = some (take_line 1023 (c ∷ rest))

unfoldable pub skip : (ℕ → Bool) → Text → Text
skip is [] = []
skip is (c ∷ rest) = if is c then skip is rest else c ∷ rest

-- The delimiters that a text starts with.
unfoldable pub leading : (ℕ → Bool) → Text → Text
leading is [] = []
leading is (c ∷ rest) = if is c then c ∷ leading is rest else []

unfoldable pub upto : (ℕ → Bool) → Text → Text
upto is [] = []
upto is (c ∷ rest) = if is c then [] else c ∷ upto is rest

-- What is behind the first delimiter.
unfoldable pub behind : (ℕ → Bool) → Text → Text
behind is [] = []
behind is (c ∷ rest) = if is c then rest else behind is rest

-- `strtok_r`: the next token, and what is saved for the next call.
unfoldable pub token_of : (ℕ → Bool) → Text → Option (Text × Text)
token_of is [] = none
token_of is (c ∷ cs) = some (upto is (c ∷ cs), behind is (c ∷ cs))

unfoldable pub strtok : (ℕ → Bool) → Text → Option (Text × Text)
unfolding token_of
strtok is text = token_of is (skip is text)

-- `isspace`
abbrev pub is_space : ℕ → Bool
is_space c = c == 32 || (ltb 8 c && ltb c 14)

abbrev pub is_digit : ℕ → Bool
is_digit c = ltb 47 c && ltb c 58

-- The number that a text starts with, added to the digits that were read.
unfoldable pub digits_from : Text → ℕ → ℕ
digits_from [] n = n
digits_from (c ∷ rest) n = if is_digit c then digits_from rest (n * 10 + (c - 48)) else n

-- `atoi`: whether there is a minus sign, and the digits.
unfoldable pub signed : Text → Bool × ℕ
unfolding digits_from
signed [] = (false, 0)
signed (c ∷ rest) =
    if c == b'-'
    then (true, digits_from rest 0)
    else if c == b'+'
    then (false, digits_from rest 0)
    else (false, digits_from (c ∷ rest) 0)

unfoldable pub atoi : Text → Bool × ℕ
unfolding skip signed
atoi text = signed (skip is_space text)
