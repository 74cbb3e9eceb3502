-- ===== src/Files.antt =====
-- `get_cacheSim_from_file` of cachesim/backend.c as a function of the text of the file. The log is not
-- modelled. What allocated memory holds is a parameter, for each cache that is read.
pub mod Whole
pub mod Sound
pub mod Forward
pub mod Ready
use pycachesim.Base.{
  ℕ, zero, suc, ◌+◌, ◌≤◌, Bool, true, false, not, ◌&&◌, ◌||◌, Option, none, some, List, [], ◌∷◌,
  ◌++◌, ◌==◌, ltb, if◌then◌else◌, length, map, Result, ok, fault, ◌>>=◌, option_case, null_pointer,
  out_of_fuel, out_of_range, uninitialized,
}
use pycachesim.Cache.{Cache}
use pycachesim.CString.{
  Text, bytes, newline, carriage_return, strcmp_zero, until_nul, fgets, upto, strtok, atoi,
}
use pycachesim.Linking.{
  CacheDef, Links, FirstLevel, first_level, unconnected, no_first_level, link_caches,
}
use pycachesim.Settings.{
  Setting, name, sets, ways, cl_size, cl_bits, subblock_size, subblock_bits, replacement_policy_id,
  write_back, write_allocate, write_combining, swap_on_load, load_from, store_to, victims_to,
  unrecognized, Draft, zero_draft, assign_all, Exit, Checked, exits, checked, read_cache,
}
use pycachesim.Lines.{read_settings}

-- `line[0] != '\n' && line[0] != '\r' && line[0] != '#'` is not the case.
unfoldable pub is_skipped : Text → Bool
is_skipped [] = false
is_skipped (c ∷ rest) = c == newline || c == carriage_return || c == b'#'

-- The reasons to exit, or what was read.
pub data FileExit : Type 0 where
  unreadable invalid_number two_first_levels no_level : FileExit
  bad_cache : Exit → FileExit

pub data Loading (A : Type 0) : Type 0 where
  fails : FileExit → Loading A
  loaded : A → Loading A

-- The results of the calls of `fgets` until the end of the file.
unfoldable pub chunks : ℕ → Text → List Text
chunks zero text = []
chunks (suc fuel) text = option_case (fgets text) [] λ (line, rest). line ∷ chunks fuel rest

-- What the links of a cache are to be.
unfoldable pub def_of : List Setting → CacheDef
def_of settings =
    let d = assign_all settings zero_draft in
    record {
      name = d.name;
      load_from = d.load_from;
      store_to = d.store_to;
      victims_to = d.victims_to;
    }

-- What a line means for the loop: the reason to exit, the counter, the caches.
unfoldable pub exit_of : Option (Checked × CacheDef) → Option Exit
exit_of none = none
exit_of (some (exits e, d)) = some e
exit_of (some (checked c, d)) = none

abbrev pub counter_after : Option (Checked × CacheDef) → ℕ → ℕ
counter_after none counter = counter
counter_after (some r) counter = counter + 1

unfoldable pub keep :
    Option (Checked × CacheDef)
    → Loading (List (Cache × CacheDef))
    → Loading (List (Cache × CacheDef))
keep r (fails e) = fails e
keep none (loaded cs) = loaded cs
keep (some (exits e, d)) (loaded cs) = loaded cs
keep (some (checked c, d)) (loaded cs) = loaded ((c, d) ∷ cs)

-- The links of the caches, as indices.
abbrev pub with_links : Cache → Links → Cache
with_links c l = record c {
  load_from = l.load_from;
  store_to = l.store_to;
  victims_to = l.victims_to;
}

abbrev pub link_all : List Cache → List Links → List Cache
link_all [] ls = []
link_all (c ∷ cs) [] = []
link_all (c ∷ cs) (l ∷ ls) = with_links c l ∷ link_all cs ls

module _ (memory chars : ℕ → ℕ → ℕ) (size : ℕ) where
  -- The body of the loop for one line; `none` is a line that is skipped.
  unfoldable pub read_line : ℕ → Text → Result (Option (Checked × CacheDef))
  unfolding read_settings is_skipped def_of
  read_line counter line = if is_skipped line then ok none else do
    settings ← read_settings line
    r ← read_cache (memory counter) (chars counter) settings
    ok (some (r, def_of settings))

  -- The loop over the lines, with `counter` caches read.
  unfoldable pub read_lines : ℕ → List Text → Result (Loading (List (Cache × CacheDef)))
  unfolding read_line exit_of keep
  read_lines counter [] = ok (loaded [])
  read_lines counter (line ∷ rest) = if counter == size then ok (loaded []) else do
    r ← read_line counter (until_nul line)
    option_case (exit_of r)
        (do others ← read_lines (counter_after r counter) rest; ok (keep r others))
        λ e. ok (fails (bad_cache e))

-- The caches with their links, and the index of the first level.
unfoldable pub answer : List Cache → List Links × FirstLevel → Loading (List Cache × ℕ)
answer cs (links, first_level p) = loaded (link_all cs links, p)
answer cs (links, unconnected) = fails two_first_levels
answer cs (links, no_first_level) = fails no_level

-- From the linking on. The loops over `size` caches read each of them.
unfoldable pub link_read : ℕ → List (Cache × CacheDef) → Result (Loading (List Cache × ℕ))
unfolding answer
link_read size read =
    if length read == size
    then (do r ← link_caches (map (λ x. x.1) read); ok (answer (map (λ x. x.0) read) r))
    else fault uninitialized

unfoldable pub link_loading :
    ℕ → Loading (List (Cache × CacheDef)) → Result (Loading (List Cache × ℕ))
unfolding link_read
link_loading size (fails e) = ok (fails e)
link_loading size (loaded read) = link_read size read

unfoldable pub read_file : (ℕ → ℕ → ℕ) → (ℕ → ℕ → ℕ) → ℕ → Text → Result (Loading (List Cache × ℕ))
unfolding read_lines chunks link_loading
read_file memory chars size text = do
  r ← read_lines memory chars size 0 (chunks (length text) text)
  link_loading size r

-- `none` is a file that cannot be opened.
unfoldable pub get_cache_sim_from_file :
    (ℕ → ℕ → ℕ) → (ℕ → ℕ → ℕ) → Option Text → Result (Loading (List Cache × ℕ))
unfolding read_file
get_cache_sim_from_file memory chars none = fault null_pointer
get_cache_sim_from_file memory chars (some text) =
    option_case (fgets text) (ok (fails unreadable)) λ (line, rest).
      let (negative, size) = atoi (until_nul line) in
      if not (ltb size 2147483648)
      then fault out_of_range
      else if negative || size == 0
      then ok (fails invalid_number)
      else read_file memory chars size rest
