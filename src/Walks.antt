-- ===== src/Walks.antt =====
-- `printStats` and `dealloc_cacheSim` of cachesim/backend.c, which walk along the links of a cache. What is
-- printed is a list of reports, one for the lines of each call. Memory that is freed is a list of the
-- caches that it belonged to, the last one first.
pub mod Chain
use pycachesim.Base.{
  ℕ, zero, suc, Bool, true, false, not, ◌&&◌, ◌||◌, Option, none, some, List, [], ◌∷◌, ◌++◌, ◌==◌,
  if◌then◌else◌, Result, ok, fault, ◌>>=◌, option_case, read, out_of_fuel, use_after_free,
}
use pycachesim.Cache.{Cache, Stats}
use pycachesim.CString.{Text}

pub record Report : Type 0 where
  pub name : Text
  pub load : Stats
  pub store : Stats
  pub hit : Stats
  pub miss : Stats
  pub evict : Stats

unfoldable pub report : Cache → Report
report c = record {
  name = c.name;
  load = c.load;
  store = c.store;
  hit = c.hit;
  miss = c.miss;
  evict = c.evict;
}

-- `a == b` for two pointers.
abbrev pub same_pointer : Option ℕ → Option ℕ → Bool
same_pointer none none = true
same_pointer none (some q) = false
same_pointer (some p) none = false
same_pointer (some p) (some q) = p == q

-- The pointers that are followed behind `load_from`.
unfoldable pub store_link : Cache → Option ℕ
store_link c = if not (same_pointer c.store_to c.load_from) then c.store_to else none

unfoldable pub victims_link : Cache → Option ℕ
victims_link c =
    if not (same_pointer c.store_to c.load_from) && not (same_pointer c.store_to c.victims_to)
    then c.victims_to
    else none

unfoldable pub print_stats : ℕ → List Cache → ℕ → Result (List Report)
unfolding report store_link victims_link
print_stats zero cs p = fault out_of_fuel
print_stats (suc fuel) cs p = do
  c ← read cs p
  loads ← option_case c.load_from (ok []) (λ q. print_stats fuel cs q)
  stores ← option_case (store_link c) (ok []) (λ q. print_stats fuel cs q)
  victims ← option_case (victims_link c) (ok []) (λ q. print_stats fuel cs q)
  ok (report c ∷ (loads ++ (stores ++ victims)))

abbrev pub is_freed : ℕ → List ℕ → Bool
is_freed p [] = false
is_freed p (q ∷ freed) = q == p || is_freed p freed

-- A cache is read, and freed, only if it is not freed yet.
unfoldable pub dealloc : ℕ → List Cache → List ℕ → ℕ → Result (List ℕ)
dealloc zero cs freed p = fault out_of_fuel
dealloc (suc fuel) cs freed p = if is_freed p freed then fault use_after_free else do
  c ← read cs p
  freed' ← option_case c.load_from (ok freed) (λ q. dealloc fuel cs freed q)
  if is_freed p freed' then fault use_after_free else ok (p ∷ freed')
