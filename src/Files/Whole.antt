-- ===== src/Files/Whole.antt =====
-- `get_cacheSim_from_file` of cachesim/backend.c on a whole file of printed settings, against the
-- construction of the caches without a text.
use mathlib.Core.List.{append_assoc}
use pycachesim.Base.{
  ℕ, zero, suc, ◌+◌, ◌≤◌, ◌<◌, ◌≡◌, refl, sym, ap, ◌∙◌, true, false, some, List, [], ◌∷◌, ◌++◌,
  ◌==◌, ltb, arith, length, length-append, map, Result, ok, fault, ◌>>=◌, >>=-congr, option_case,
}
use pycachesim.Cache.{Cache}
use pycachesim.CString.{Text, newline, until_nul, fgets}
use pycachesim.CString.Decimal.{decimal, atoi-decimal_line}
use pycachesim.CString.Tokens.{NoneOf, NoneOf-append, is_line_end, until_nul-line, fgets-line}
use pycachesim.Files.{
  is_skipped, Loading, fails, loaded, bad_cache, chunks, def_of, exit_of, keep, read_line,
  read_lines, link_loading, read_file, get_cache_sim_from_file,
}
use pycachesim.Lines.Printed.{recognized, key_of, value_in, print_value, NoneOf-line_end}
use pycachesim.Lines.ReadBack.{
  print_setting, print_line, AllPrintable, read_settings-print_line, print_setting-NoneOf,
  decimal-NoneOf, length-print_line,
}
use pycachesim.Linking.{CacheDef}
use pycachesim.Settings.{
  Setting, read_cache, name, sets, ways, cl_size, cl_bits, subblock_size, subblock_bits,
  replacement_policy_id, write_back, write_allocate, write_combining, swap_on_load, load_from,
  store_to, victims_to, unrecognized,
}

-- The settings of a cache, at least one.
abbrev pub Line : Type 0
Line = Setting × List Setting

abbrev pub text_of : Line → Text
text_of (s, rest) = print_line s rest

unfoldable pub print_lines : List Line → Text
print_lines [] = []
print_lines (l ∷ more) = text_of l ++ print_lines more

-- The number of caches, and a line for each.
unfoldable pub print_file : List Line → Text
unfolding print_lines
print_file lines = decimal (length lines) ++ (newline ∷ print_lines lines)

-- What can be printed on a line that `fgets` reads as a whole.
abbrev pub IsLine : Line → Type 0
IsLine (s, rest) = AllPrintable (s ∷ rest) × (length (print_line s rest) ≤ 1023)

abbrev pub AllLines : List Line → Type 0
AllLines [] = Unit {0}
AllLines (l ∷ more) = IsLine l × AllLines more

-- A line without its end.
line_body :
    (s : Setting) (rest : List Setting)
    → AllPrintable (s ∷ rest)
    → (body : Text) × (print_line s rest ≡ body ++ (newline ∷ [])) × NoneOf is_line_end body
unfolding print_line
line_body s [] (p, all) =
    (print_setting s, refl, print_setting-NoneOf s p is_line_end NoneOf-line_end refl)
line_body s (s' ∷ rest) (p, all) =
    let (body, e, none_of) = line_body s' rest all in
    (
      print_setting s ++ (b',' ∷ body),
      ap (λ t. print_setting s ++ (b',' ∷ t)) e
          ∙ sym (append_assoc (print_setting s) (b',' ∷ body) (newline ∷ [])),
      NoneOf-append is_line_end (print_setting s) (b',' ∷ body)
          (print_setting-NoneOf s p is_line_end NoneOf-line_end refl) (refl, none_of),
    )

fgets-text_of :
    (l : Line) (more : Text) → IsLine l → fgets (text_of l ++ more) ≡ some (text_of l, more)
fgets-text_of (s, rest) more (all, short) =
    let (body, e, none_of) = line_body s rest all in
    let size : length (print_line s rest) ≡ length body + length {A = ℕ} (newline ∷ []) =
      ap length e ∙ length-append body (newline ∷ []) in
    rw e (
      ap fgets (append_assoc body (newline ∷ []) more) ∙ fgets-line body more none_of (omega arith))

until_nul-text_of : (l : Line) → IsLine l → until_nul (text_of l) ≡ text_of l
until_nul-text_of (s, rest) (all, short) =
    let (body, e, none_of) = line_body s rest all in rw e (until_nul-line body none_of)

chunks-nil : (fuel : ℕ) → chunks fuel [] ≡ []
unfolding chunks fgets
chunks-nil zero = refl
chunks-nil (suc fuel) = refl

chunks-print_lines :
    (fuel : ℕ) (lines : List Line)
    → AllLines lines
    → length (print_lines lines) ≤ fuel
    → chunks fuel (print_lines lines) ≡ map text_of lines
unfolding chunks print_lines
chunks-print_lines fuel [] all h = chunks-nil fuel
chunks-print_lines zero (l ∷ more) (p, all) h =
    absurd (omega (arith, length-append (text_of l) (print_lines more), length-print_line l.0 l.1))
chunks-print_lines (suc fuel) (l ∷ more) (p, all) h = rw (fgets-text_of l (print_lines more) p) (
    ap (◌∷◌ (text_of l)) (
      chunks-print_lines fuel more all
        (omega (arith, length-append (text_of l) (print_lines more), length-print_line l.0 l.1))))

-- A line that starts with a key is not skipped.
key_not_skipped :
    (s : Setting) (t : Text) → recognized s ≡ true → is_skipped (key_of s ++ t) ≡ false
unfolding is_skipped
key_not_skipped (name n) t e = refl
key_not_skipped (load_from n) t e = refl
key_not_skipped (store_to n) t e = refl
key_not_skipped (victims_to n) t e = refl
key_not_skipped (sets n) t e = refl
key_not_skipped (ways n) t e = refl
key_not_skipped (cl_size n) t e = refl
key_not_skipped (cl_bits n) t e = refl
key_not_skipped (subblock_size n) t e = refl
key_not_skipped (subblock_bits n) t e = refl
key_not_skipped (replacement_policy_id n) t e = refl
key_not_skipped (write_back n) t e = refl
key_not_skipped (write_allocate n) t e = refl
key_not_skipped (write_combining n) t e = refl
key_not_skipped (swap_on_load n) t e = refl
key_not_skipped (unrecognized n) t e = cc

line_not_skipped :
    (s : Setting) (rest : List Setting)
    → AllPrintable (s ∷ rest)
    → is_skipped (print_line s rest) ≡ false
unfolding print_line print_setting
line_not_skipped s [] ((known, p), all) =
    ap is_skipped (append_assoc (key_of s) (b'=' ∷ print_value (value_in s)) (newline ∷ []))
    ∙ key_not_skipped s _ known
line_not_skipped s (s' ∷ rest) ((known, p), all) =
    ap is_skipped
      (append_assoc (key_of s) (b'=' ∷ print_value (value_in s)) (b',' ∷ print_line s' rest))
    ∙ key_not_skipped s _ known

-- A result that is wrapped before it is used.
bind-ok :
    {A B C : Type 0} (m : Result A) (f : A → B) (k : B → Result C)
    → ((m >>= λ a. ok (f a)) >>= k) ≡ (m >>= λ a. k (f a))
bind-ok (ok a) f k = refl
bind-ok (fault e) f k = refl

module _ (memory chars : ℕ → ℕ → ℕ) where
  -- The caches of the settings, one after the other.
  unfoldable pub build : ℕ → List Line → Result (Loading (List (Cache × CacheDef)))
  build counter [] = ok (loaded [])
  build counter ((s, rest) ∷ more) = do
    r ← read_cache (memory counter) (chars counter) (s ∷ rest)
    option_case (exit_of (some (r, def_of (s ∷ rest))))
        (do others ← build (counter + 1) more; ok (keep (some (r, def_of (s ∷ rest))) others))
        λ e. ok (fails (bad_cache e))

  read_lines-text_of :
      (size counter : ℕ) (lines : List Line)
      → AllLines lines
      → counter + length lines ≡ size
      → read_lines memory chars size counter (map text_of lines) ≡ build counter lines
  unfolding read_lines read_line build
  read_lines-text_of size counter [] all e = refl
  read_lines-text_of size counter ((s, rest) ∷ more) (p, all) e =
      let go_on : (counter == size) ≡ false = ground arith in
      let read_text = read_settings-print_line s rest p.0 in
      rw (go_on, until_nul-text_of (s, rest) p, line_not_skipped s rest p.0, read_text)
        (bind-ok (read_cache (memory counter) (chars counter) (s ∷ rest)) _ _
          ∙ >>=-congr (read_cache (memory counter) (chars counter) (s ∷ rest)) (λ r.
            ap
              (λ m.
                option_case (exit_of (some (r, def_of (s ∷ rest))))
                  (m >>= λ others. ok (keep (some (r, def_of (s ∷ rest))) others))
                  (λ e. ok (fails (bad_cache e))))
              (read_lines-text_of size (counter + 1) more all (omega arith))))

  -- The file of a list of lines of settings, at least one line and each of at most 1023 bytes, is read as
  -- the caches of these settings, one after the other until there is a reason to exit, which are then linked
  -- by their names.
  pub get_cache_sim_from_file-print_file :
      (lines : List Line)
      → AllLines lines
      → 0 < length lines
      → length lines < 2147483648
      → length (decimal (length lines)) < 1023
      → get_cache_sim_from_file memory chars (some (print_file lines))
        ≡ (build 0 lines >>= link_loading (length lines))
  unfolding get_cache_sim_from_file print_file read_file
  get_cache_sim_from_file-print_file lines all some_line few short =
      let n = length lines in
      let is_int : ltb n 2147483648 ≡ true = ground arith in
      let positive : (n == 0) ≡ false = ground arith in
      rw
        (
          fgets-line (decimal n) (print_lines lines) (decimal-NoneOf n) short,
          until_nul-line (decimal n) (decimal-NoneOf n),
          atoi-decimal_line n,
          is_int,
          positive,
          chunks-print_lines (length (print_lines lines)) lines all (omega arith),
          read_lines-text_of n 0 lines all (omega arith),
        )
        refl
