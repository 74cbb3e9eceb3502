-- ===== src/Linking.antt =====
-- The end of `get_cacheSim_from_file` of cachesim/backend.c: the caches that were read are linked by
-- their names, and the first level is chosen by counting links. What was read of a cache is its name and
-- the names that it is to be linked to, none where a pointer is NULL.
pub mod Counters
pub mod First
pub mod Targets
use pycachesim.CString.{Text, strcmp_zero}
use pycachesim.Base.{
  ℕ, zero, suc, ◌+◌, Bool, true, false, Option, none, some, List, [], ◌∷◌, length, replicate,
  if◌then◌else◌, Result, ok, ◌>>=◌, option_case, read, write,
}

pub record CacheDef : Type 0 where
  pub name : Option Text
  pub load_from : Option Text
  pub store_to : Option Text
  pub victims_to : Option Text

pub record Links : Type 0 where
  pub load_from : Option ℕ
  pub store_to : Option ℕ
  pub victims_to : Option ℕ

abbrev pub no_links : Links
no_links = record { load_from = none; store_to = none; victims_to = none }

-- `buff != NULL && strcmp(buff, name) == 0`
unfoldable pub refers : Option Text → Option Text → Bool
refers none name = false
refers (some link) none = false
refers (some link) (some name) = strcmp_zero link name

-- `++linkcounter[j]`
unfoldable pub increment : List ℕ → ℕ → Result (List ℕ)
increment counters j = do n ← read counters j; write counters j (n + 1)

unfoldable pub increment_if : Bool → List ℕ → ℕ → Result (List ℕ)
increment_if b counters j = if b then increment counters j else ok counters

-- The body of the two loops, for the cache `d` and the cache `j`.
unfoldable pub link_pair : CacheDef → Option Text → ℕ → Links → List ℕ → Result (Links × List ℕ)
link_pair d name j links counters = do
  c₁ ← increment_if (refers d.load_from name) counters j
  c₂ ← increment_if (refers d.store_to name) c₁ j
  c₃ ← increment_if (refers d.victims_to name) c₂ j
  ok (
    record {
      load_from = if refers d.load_from name then some j else links.load_from;
      store_to = if refers d.store_to name then some j else links.store_to;
      victims_to = if refers d.victims_to name then some j else links.victims_to;
    },
    c₃,
  )

-- The inner loop, over the caches from `j` on.
unfoldable pub link_row : CacheDef → List CacheDef → ℕ → Links → List ℕ → Result (Links × List ℕ)
link_row d [] j links counters = ok (links, counters)
link_row d (e ∷ rest) j links counters = do
  (links', counters') ← link_pair d e.name j links counters
  link_row d rest (j + 1) links' counters'

-- The outer loop, over the caches that are still to be linked.
unfoldable pub link_rows : List CacheDef → List CacheDef → List ℕ → Result (List Links × List ℕ)
link_rows defs [] counters = ok ([], counters)
link_rows defs (d ∷ rest) counters = do
  (links, counters') ← link_row d defs 0 no_links counters
  (others, counters'') ← link_rows defs rest counters'
  ok (links ∷ others, counters'')

-- The index of the first level, or the reason to exit.
pub data FirstLevel : Type 0 where
  first_level : ℕ → FirstLevel
  unconnected : FirstLevel
  no_first_level : FirstLevel

-- The loop over the counters from `i` on, with the first level that was found.
unfoldable pub find_first_level : List ℕ → ℕ → Option ℕ → FirstLevel
find_first_level [] i none = no_first_level
find_first_level [] i (some p) = first_level p
find_first_level (zero ∷ rest) i none = find_first_level rest (i + 1) (some i)
find_first_level (zero ∷ rest) i (some p) = unconnected
find_first_level (suc n ∷ rest) i found = find_first_level rest (i + 1) found

unfoldable pub link_caches : List CacheDef → Result (List Links × FirstLevel)
link_caches defs = do
  (links, counters) ← link_rows defs defs (replicate (length defs) 0)
  ok (links, find_first_level counters 0 none)
