-- ===== src/Lines.antt =====
-- One line of a cache definition file in `get_cacheSim_from_file` of cachesim/backend.c: it is cut into tokens,
-- keys and values, and numbers are read. A number that `atoi` has no value for, and a negative setting,
-- is the fault `out_of_range`.
pub mod Printed
pub mod ReadBack
pub mod Endless
use pycachesim.Base.{
  ℕ, zero, suc, ◌+◌, ◌≤◌, Bool, true, false, not, ◌&&◌, ◌||◌, Option, none, some, List, [], ◌∷◌,
  ◌++◌, ◌==◌, ltb, if◌then◌else◌, length, map, Result, ok, fault, ◌>>=◌, option_case, null_pointer,
  out_of_fuel, out_of_range, uninitialized,
}
use pycachesim.Cache.{Cache}
use pycachesim.CString.{
  leading, Text, bytes, newline, carriage_return, strcmp_zero, until_nul, fgets, upto, strtok, atoi,
}
use pycachesim.Linking.{
  CacheDef, Links, FirstLevel, first_level, unconnected, no_first_level, link_caches,
}
use pycachesim.Settings.{
  Setting, name, sets, ways, cl_size, cl_bits, subblock_size, subblock_bits, replacement_policy_id,
  write_back, write_allocate, write_combining, swap_on_load, load_from, store_to, victims_to,
  unrecognized, Draft, zero_draft, assign_all, Exit, Checked, exits, checked, read_cache,
}

-- The delimiters of the four calls of `strtok_r`.
abbrev pub ends_first_token : ℕ → Bool
ends_first_token c = c == b',' || c == newline || c == carriage_return

abbrev pub ends_token : ℕ → Bool
ends_token c = c == b','

abbrev pub ends_key : ℕ → Bool
ends_key c = c == b'='

abbrev pub ends_value : ℕ → Bool
ends_value c = c == b'=' || c == newline || c == carriage_return

-- `atoi(value)` for a setting: an int that is not negative.
unfoldable pub int_of : Bool × ℕ → Result ℕ
int_of (negative, n) =
    if ltb n 2147483648 && not (negative && not (n == 0)) then ok n else fault out_of_range

unfoldable pub number : (ℕ → Setting) → Text → Result Setting
unfolding int_of
number setting value = do n ← int_of (atoi value); ok (setting n)

-- The chain of `strcmp` of a key.
unfoldable pub setting_of : Text → Text → Result Setting
unfolding number
setting_of key value =
    if strcmp_zero key (bytes "name")
    then ok (name value)
    else if strcmp_zero key (bytes "sets")
    then number sets value
    else if strcmp_zero key (bytes "ways")
    then number ways value
    else if strcmp_zero key (bytes "cl_size")
    then number cl_size value
    else if strcmp_zero key (bytes "cl_bits")
    then number cl_bits value
    else if strcmp_zero key (bytes "subblock_size")
    then number subblock_size value
    else if strcmp_zero key (bytes "subblock_bits")
    then number subblock_bits value
    else if strcmp_zero key (bytes "replacement_policy_id")
    then number replacement_policy_id value
    else if strcmp_zero key (bytes "write_back")
    then number write_back value
    else if strcmp_zero key (bytes "write_allocate")
    then number write_allocate value
    else if strcmp_zero key (bytes "write_combining")
    then number write_combining value
    else if strcmp_zero key (bytes "load_from")
    then ok (load_from value)
    else if strcmp_zero key (bytes "store_to")
    then ok (store_to value)
    else if strcmp_zero key (bytes "victims_to")
    then ok (victims_to value)
    else if strcmp_zero key (bytes "swap_on_load")
    then number swap_on_load value
    else ok (unrecognized key)

-- One pass of the loop over the tokens of a line: the setting that is assigned, and the token and the
-- saved text of the next pass. Without a key or a value the pass ends in front of the next call of
-- `strtok_r`, so the token stays, up to the end of its key.
unfoldable pub pass : Text → Text → Result (Option Setting × Option Text × Text)
unfolding leading
pass token saved = option_case (strtok ends_key token) (ok (none, some token, saved)) λ (key, rest).
    option_case (strtok ends_value rest) (ok (none, some (leading ends_key token ++ key), saved))
      λ (value, _). do
        s ← setting_of key value
        option_case (strtok ends_token saved) (ok (some s, none, []))
            λ (token', saved'). ok (some s, some token', saved')

-- The loop over the tokens: the settings in the order in which they are assigned.
unfoldable pub read_tokens : ℕ → Option Text → Text → Result (List Setting)
unfolding pass
read_tokens fuel none saved = ok []
read_tokens zero (some token) saved = fault out_of_fuel
read_tokens (suc fuel) (some token) saved = do
  (s, next, saved') ← pass token saved
  others ← read_tokens fuel next saved'
  ok (option_case s others (λ x. x ∷ others))

-- The settings of a line, with one pass for each byte.
unfoldable pub read_settings : Text → Result (List Setting)
unfolding read_tokens
read_settings line =
    option_case (strtok ends_first_token line) (ok [])
      λ (token, saved). read_tokens (length line) (some token) saved
