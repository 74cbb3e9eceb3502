-- ===== src/Tests/Reading.antt =====
-- The theorems on the text of cache definition files, used on small ones.
use mathlib.Core.Option.{some-injective}
use mathlib.Core.Path.{subst}
use pycachesim.Base.{
  zero, suc, false, ◌<◌, ◌≡◌, refl, some, List, [], ◌∷◌, arith, length, map, fault, ◌>>=◌,
  out_of_fuel, Returns,
}
use pycachesim.CString.{bytes, strtok, skip, behind, upto, atoi}
use pycachesim.CString.Decimal.{decimal, decimal_from}
use pycachesim.Files.{def_of, get_cache_sim_from_file, link_loading}
use pycachesim.Files.Forward.{IsForward, Later}
use pycachesim.Files.Ready.{IsReady, get_cache_sim_from_file-IsReady}
use pycachesim.Files.Sound.{AllSound, def_in}
use pycachesim.Files.Whole.{Line, AllLines, print_file, build, get_cache_sim_from_file-print_file}
use pycachesim.Lines.{read_tokens, setting_of}
use pycachesim.Lines.Endless.{IsHalf, no_value, read_tokens-IsHalf, read_tokens-enough}
use pycachesim.Lines.ReadBack.{print_line, print_setting}
use pycachesim.Linking.{refers}
use pycachesim.Settings.{assign, assign_all, name, sets, ways, cl_size, load_from}

abbrev two_lines : List Line
two_lines =
    (name (bytes "L1"), sets 2 ∷ ways 2 ∷ cl_size 4 ∷ load_from (bytes "L2") ∷ [])
    ∷ (name (bytes "L2"), sets 64 ∷ ways 8 ∷ cl_size 4 ∷ [])
    ∷ []

two_lines-AllLines : AllLines two_lines
unfolding print_line print_setting decimal decimal_from
two_lines-AllLines = (
  (
    (
      (refl, (refl, (refl, tt))),
      (
        (refl, omega arith),
        ((refl, omega arith), ((refl, omega arith), ((refl, (refl, (refl, tt))), tt))),
      ),
    ),
    omega arith,
  ),
  (
    (
      (
        (refl, (refl, (refl, tt))),
        ((refl, omega arith), ((refl, omega arith), ((refl, omega arith), tt))),
      ),
      omega arith,
    ),
    tt,
  ),
)

one_digit : length (decimal 2) < 1023
unfolding decimal decimal_from
one_digit = omega arith

get_cache_sim_from_file-print_file_example :
    get_cache_sim_from_file (λ _ _. 7) (λ _ _. 7) (some (print_file two_lines))
    ≡ (build (λ _ _. 7) (λ _ _. 7) 0 two_lines >>= link_loading 2)
get_cache_sim_from_file-print_file_example =
    get_cache_sim_from_file-print_file (λ _ _. 7) (λ _ _. 7) two_lines two_lines-AllLines
      (omega arith) (omega arith) one_digit

two_lines-AllSound : AllSound two_lines
unfolding assign_all assign
two_lines-AllSound = (
  record {
    title = bytes "L1";
    named = refl;
    some_sets = λ e. absurd (omega arith);
    some_ways = λ e. absurd (omega arith);
    some_size = λ e. absurd (omega arith);
    even = (2, refl);
    divided = refl;
    usable = record { small = omega arith; combining = λ on. (cc, cc, λ e. absurd (omega arith)) };
  },
  (
    record {
      title = bytes "L2";
      named = refl;
      some_sets = λ e. absurd (omega arith);
      some_ways = λ e. absurd (omega arith);
      some_size = λ e. absurd (omega arith);
      even = (2, refl);
      divided = refl;
      usable = record {
        small = omega arith;
        combining = λ on. (cc, cc, λ e. absurd (omega arith));
      };
    },
    tt,
  ),
)

L1-Later : Later (map def_in two_lines) 0 (some (bytes "L2"))
unfolding def_of assign_all assign refers
L1-Later zero e at h =
    subst (λ x. refers (some (bytes "L2")) x.name ≡ false) (some-injective _ _ at) refl
L1-Later (suc j) e at h = absurd (omega arith)

two_lines-IsForward : IsForward (map def_in two_lines)
unfolding def_of assign_all assign refers
two_lines-IsForward zero d at =
    subst
      (λ x.
        Later (map def_in two_lines) 0 x.load_from
        × Later (map def_in two_lines) 0 x.store_to
        × Later (map def_in two_lines) 0 x.victims_to)
      (some-injective _ _ at) (L1-Later, (λ j e at h. refl), (λ j e at h. refl))
two_lines-IsForward (suc zero) d at =
    subst
      (λ x.
        Later (map def_in two_lines) 1 x.load_from
        × Later (map def_in two_lines) 1 x.store_to
        × Later (map def_in two_lines) 1 x.victims_to)
      (some-injective _ _ at) ((λ j e at h. refl), (λ j e at h. refl), (λ j e at h. refl))
two_lines-IsForward (suc (suc i)) d at = cc

get_cache_sim_from_file-IsReady_example :
    Returns
      (IsReady two_lines)
      (get_cache_sim_from_file (λ _ _. 7) (λ _ _. 7) (some (print_file two_lines)))
get_cache_sim_from_file-IsReady_example =
    get_cache_sim_from_file-IsReady (λ _ _. 7) (λ _ _. 7) (λ k i. omega arith) two_lines
      two_lines-AllLines two_lines-AllSound two_lines-IsForward (omega arith) (omega arith)
      one_digit

-- `ways=`, a key without a value.
half : IsHalf (bytes "ways=")
half = no_value [] 119 (bytes "ays") [] tt (refl, (refl, (refl, (refl, tt)))) tt

read_tokens-IsHalf_example :
    read_tokens 100 (some (bytes "ways=")) (bytes "sets=2") ≡ fault out_of_fuel
read_tokens-IsHalf_example = read_tokens-IsHalf 100 (bytes "ways=") (bytes "sets=2") half

stuck : read_tokens 6 (some (bytes "sets=2")) (bytes "ways=") ≡ fault out_of_fuel
unfolding read_tokens strtok skip behind setting_of upto atoi
stuck = refl

read_tokens-enough_example :
    read_tokens 100 (some (bytes "sets=2")) (bytes "ways=") ≡ fault out_of_fuel
read_tokens-enough_example =
    read_tokens-enough 6 (bytes "sets=2") (bytes "ways=") (omega arith) stuck 100
