-- ===== src/Files/Forward.antt =====
-- The linking at the end of `get_cacheSim_from_file` of cachesim/backend.c when each link leads to a later cache.
use mathlib.Core.Option.{some-injective}
use native.Mathlib.Decide.{dec_lt}
use pycachesim.Base.{
  ℕ, zero, suc, ◌+◌, ◌≤◌, ◌≡◌, inl, inr, refl, sym, ap, ◌∙◌, false, none, some, Option, List, [],
  ◌∷◌, arith, length, map, get_elem?, lt_of_get_elem?,
}
use pycachesim.Cache.{Cache}
use pycachesim.CString.{Text}
use pycachesim.Files.{with_links, link_all}
use pycachesim.Hierarchy.Steps.{LinkIn}
use pycachesim.Linking.{CacheDef, Links, refers}
use pycachesim.Linking.Targets.{Linked}
use pycachesim.Replace.Shape.{HasShape}
use pycachesim.Settings.{Draft}
use pycachesim.Settings.Reasons.{IsCacheOf}

with_links-HasShape : {c : Cache} (l : Links) → HasShape c → HasShape (with_links c l)
with_links-HasShape l s = record {
  sets_pos = s.sets_pos;
  ways_pos = s.ways_pos;
  size = s.size;
  room = s.room;
  combining = λ on.
      let b = s.combining on in
      record {
        chars = b.chars;
        is = b.is;
        valid = b.valid;
        enough = b.enough;
        whole = b.whole;
        back = b.back;
      };
}

pub with_links-IsCacheOf :
    {d : Draft} {c : Cache} (l : Links) → IsCacheOf d c → IsCacheOf d (with_links c l)
with_links-IsCacheOf l s = record {
  named = s.named;
  sets = s.sets;
  ways = s.ways;
  cl_size = s.cl_size;
  subblock_size = s.subblock_size;
  subblock_bits = s.subblock_bits;
  policy = s.policy;
  write_back = s.write_back;
  write_allocate = s.write_allocate;
  write_combining = s.write_combining;
  swap_on_load = s.swap_on_load;
  verbosity = s.verbosity;
  shape = with_links-HasShape l s.shape;
  invalid = s.invalid;
  field = s.field;
  no_load = s.no_load;
  no_store = s.no_store;
  no_hit = s.no_hit;
  no_miss = s.no_miss;
  no_evict = s.no_evict;
}

-- A cache of the linked list is one of the list with its links.
pub get_elem?-link_all :
    (cs : List Cache) (ls : List Links) (k : ℕ) (c : Cache)
    → get_elem? (link_all cs ls) k ≡ some c
    → (x : Cache) × (l : Links) × (get_elem? cs k ≡ some x)
      × (get_elem? ls k ≡ some l)
      × (c ≡ with_links x l)
get_elem?-link_all [] ls k c at = cc
get_elem?-link_all (x ∷ cs) [] k c at = cc
get_elem?-link_all (x ∷ cs) (l ∷ ls) zero c at = (x, l, refl, refl, sym (some-injective _ _ at))
get_elem?-link_all (x ∷ cs) (l ∷ ls) (suc k) c at = get_elem?-link_all cs ls k c at

pub length-link_all :
    (cs : List Cache) (ls : List Links)
    → length ls ≡ length cs
    → length (link_all cs ls) ≡ length cs
length-link_all [] ls e = refl
length-link_all (x ∷ cs) [] e = absurd (omega arith)
length-link_all (x ∷ cs) (l ∷ ls) e = ap suc (length-link_all cs ls (omega arith))

pub length-map : {A B : Type 0} (f : A → B) (xs : List A) → length (map f xs) ≡ length xs
length-map f [] = refl
length-map f (x ∷ xs) = ap suc (length-map f xs)

pub get_elem?-map :
    {A B : Type 0} (f : A → B) (xs : List A) (k : ℕ) {a : A}
    → get_elem? xs k ≡ some a
    → get_elem? (map f xs) k ≡ some (f a)
get_elem?-map f [] k at = cc
get_elem?-map f (x ∷ xs) zero at = ap (λ y. some (f y)) (some-injective _ _ at)
get_elem?-map f (x ∷ xs) (suc k) at = get_elem?-map f xs k at

-- The cache `i` is linked to no cache in front of it and not to itself.
abbrev pub Later : List CacheDef → ℕ → Option Text → Type 0
Later defs i link =
    (j : ℕ) (e : CacheDef) → get_elem? defs j ≡ some e → j ≤ i → refers link e.name ≡ false

abbrev pub IsForward : List CacheDef → Type 0
IsForward defs =
    (i : ℕ) (d : CacheDef)
    → get_elem? defs i ≡ some d
    → Later defs i d.load_from × Later defs i d.store_to × Later defs i d.victims_to

pub Linked-LinkIn :
    (link : Option Text) (defs : List CacheDef) (i : ℕ) (after : Option ℕ)
    → Later defs i link
    → Linked link defs 0 none after
    → LinkIn (length defs) i after
Linked-LinkIn link defs i after later (inl (j, e, at, named, last, is)) q is_q =
    let same : 0 + j ≡ q = some-injective _ _ (sym is ∙ is_q) in
    let inside = lt_of_get_elem? defs j at in
    elim (dec_lt i j) [
      | yes lt ↦ (omega arith, omega arith)
      | no ge ↦ let off = later j e at (omega arith) in cc
    ]
Linked-LinkIn link defs i after later (inr (none_named, is)) q is_q = cc
