-- ===== src/Files/Ready.antt =====
-- The caches that `get_cacheSim_from_file` of cachesim/backend.c returns, as a hierarchy on which loads and stores
-- can be made.
use mathlib.Core.Path.{subst}
use pycachesim.Base.{
  ℕ, ◌<◌, ◌≡◌, sym, ◌∙◌, true, some, List, arith, ◌==◌, length, map, get_elem?, get_elem?_of_lt,
  lt_of_get_elem?, Returns, returns, bind, Returns-both,
}
use pycachesim.Cache.{Cache}
use pycachesim.CString.Decimal.{decimal}
use pycachesim.Files.{
  Loading, fails, loaded, two_first_levels, no_level, link_all, answer, link_read, link_loading,
  get_cache_sim_from_file,
}
use pycachesim.Files.Whole.{Line, AllLines, print_file, get_cache_sim_from_file-print_file}
use pycachesim.Hierarchy.Steps.{IsValid, IsLinked}
use pycachesim.Linking.{
  CacheDef, Links, FirstLevel, first_level, unconnected, no_first_level, no_links,
}
use pycachesim.Linking.First.{IsFirst, the_one, link_caches-IsFirst}
use pycachesim.Linking.Targets.{RowLinked, AllLinked, link_caches-AllLinked}
use pycachesim.Files.Sound.{
  AllSound, def_in, draft_in, Built, build-Built, Built-defs, Built-IsCacheOf,
}
use pycachesim.Settings.Reasons.{IsCacheOf}
use pycachesim.Files.Forward.{
  with_links-IsCacheOf, get_elem?-link_all, length-link_all, length-map, get_elem?-map, IsForward,
  Linked-LinkIn,
}

-- The links of a cache, as they were chosen.
abbrev pub links_of : Cache → Links
links_of c = record { load_from = c.load_from; store_to = c.store_to; victims_to = c.victims_to }

-- A cache that is what its line says, each of whose links leads to the last cache of the name that the line
-- gives, or is NULL if no cache has that name.
pub record IsAsPrinted (lines : List Line) (l : Line) (c : Cache) : Type 0 where
  pub cache : IsCacheOf (draft_in l) c
  pub linked : RowLinked (def_in l) (map def_in lines) 0 no_links (links_of c)

-- A hierarchy in order that is as printed, with its first level, or the reason to exit at the end.
pub data IsReady (lines : List Line) : Loading (List Cache × ℕ) → Type 0 where
  hierarchy :
      {cs : List Cache} {p : ℕ}
      → ((rand : ℕ → ℕ) (draws : ℕ)
          → IsValid (length lines) (record { caches = cs; rand = rand; draws = draws }))
      → ((k : ℕ) (l : Line) (c : Cache)
          → get_elem? lines k ≡ some l
          → get_elem? cs k ≡ some c
          → IsAsPrinted lines l c)
      → p < length lines
      → IsFirst (map def_in lines) (first_level p)
      → IsReady lines (loaded (cs, p))
  not_connected : IsFirst (map def_in lines) unconnected → IsReady lines (fails two_first_levels)
  all_behind : IsFirst (map def_in lines) no_first_level → IsReady lines (fails no_level)

first_level_lt : {defs : List CacheDef} {p : ℕ} → IsFirst defs (first_level p) → p < length defs
first_level_lt {defs} (the_one {p} at none_to only) = lt_of_get_elem? defs p at

-- The caches before and after the linking.
module _ (lines : List Line) (cs : List Cache) (ls : List Links) (size : length cs ≡ length lines)
    (are : (k : ℕ) (l : Line) (c : Cache)
      → get_elem? lines k ≡ some l
      → get_elem? cs k ≡ some c
      → IsCacheOf (draft_in l) c)
    (all : AllLinked (map def_in lines) (map def_in lines) ls)
    (forward : IsForward (map def_in lines)) where
  link_all-IsAsPrinted :
      (k : ℕ) (l : Line) (c : Cache)
      → get_elem? lines k ≡ some l
      → get_elem? (link_all cs ls) k ≡ some c
      → IsAsPrinted lines l c
  unfolding AllLinked
  link_all-IsAsPrinted k l c at_l at =
      let (x, links, at_x, at_links, is) = get_elem?-link_all cs ls k c at in
      subst (IsAsPrinted lines l) (sym is) (record {
        cache = with_links-IsCacheOf links (are k l x at_l at_x);
        linked = all.1 k (def_in l) links (get_elem?-map def_in lines k at_l) at_links;
      })

  line_of :
      (k : ℕ) (c : Cache)
      → get_elem? (link_all cs ls) k ≡ some c
      → (l : Line) × (get_elem? lines k ≡ some l) × IsAsPrinted lines l c
  line_of k c at =
      let (x, links, at_x, at_links, is) = get_elem?-link_all cs ls k c at in
      let in_cs = lt_of_get_elem? cs k at_x in
      let (l, at_l) = get_elem?_of_lt lines k (omega arith) in
      (l, at_l, link_all-IsAsPrinted k l c at_l at)

  IsAsPrinted-IsLinked :
      (k : ℕ) (l : Line) (c : Cache)
      → get_elem? lines k ≡ some l
      → IsAsPrinted lines l c
      → IsLinked (length lines) k c
  IsAsPrinted-IsLinked k l c at_l as_printed =
      let defs = map def_in lines in
      let (f, g, h) = forward k (def_in l) (get_elem?-map def_in lines k at_l) in
      let row = as_printed.linked in
      subst (λ n. IsLinked n k c) (length-map def_in lines)
        (record {
          load_from = Linked-LinkIn (def_in l).load_from defs k c.load_from f row.load_from;
          store_to = Linked-LinkIn (def_in l).store_to defs k c.store_to g row.store_to;
          victims_to = Linked-LinkIn (def_in l).victims_to defs k c.victims_to h row.victims_to;
        })

  link_all-IsValid :
      (rand : ℕ → ℕ) (draws : ℕ)
      → IsValid (length lines) (record { caches = link_all cs ls; rand = rand; draws = draws })
  unfolding AllLinked
  link_all-IsValid rand draws = record {
    count = length-link_all cs ls (all.0 ∙ length-map def_in lines ∙ sym size) ∙ size;
    shape = λ k c at. let (l, at_l, is) = line_of k c at in is.cache.shape;
    linked = λ k c at. let (l, at_l, is) = line_of k c at in IsAsPrinted-IsLinked k l c at_l is;
  }

  answer-IsReady :
      (r : FirstLevel) → IsFirst (map def_in lines) r → IsReady lines (answer cs (ls, r))
  unfolding answer
  answer-IsReady (first_level p) first =
      hierarchy link_all-IsValid link_all-IsAsPrinted
        (let lt = first_level_lt first in omega (arith, length-map def_in lines)) first
  answer-IsReady unconnected first = not_connected first
  answer-IsReady no_first_level first = all_behind first

link_read-IsReady :
    (lines : List Line) (read : List (Cache × CacheDef))
    → Built lines read
    → IsForward (map def_in lines)
    → Returns (IsReady lines) (link_read (length lines) read)
unfolding link_read
link_read-IsReady lines read built forward =
    let (same, size) = Built-defs lines read built in
    let all_read : (length read == length lines) ≡ true = ground arith in
    let defs = map def_in lines in
    let count : length (map (λ x. x.0) read) ≡ length lines = length-map (λ x. x.0) read ∙ size in
    rw (all_read, same)
      (bind (Returns-both (link_caches-IsFirst defs) (link_caches-AllLinked defs))
        (λ (ls, r) (first, all). returns (
          answer-IsReady lines (map (λ x. x.0) read) ls count
            (λ k l c at_l at. Built-IsCacheOf lines read k l c built at_l at) all forward r first)))

pub get_cache_sim_from_file-IsReady :
    (memory chars : ℕ → ℕ → ℕ)
    → ((k i : ℕ) → chars k i < 256)
    → (lines : List Line) → AllLines lines
    → AllSound lines
    → IsForward (map def_in lines)
    → 0 < length lines
    → length lines < 2147483648
    → length (decimal (length lines)) < 1023
    → Returns (IsReady lines) (get_cache_sim_from_file memory chars (some (print_file lines)))
unfolding link_loading
get_cache_sim_from_file-IsReady memory chars are_chars lines all sound forward some_line few short =
    rw (get_cache_sim_from_file-print_file memory chars lines all some_line few short) (
      bind (build-Built memory chars are_chars 0 lines sound)
        (λ r (read, is, built). rw is (link_read-IsReady lines read built forward)))
