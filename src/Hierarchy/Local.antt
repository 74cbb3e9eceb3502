-- ===== src/Hierarchy/Local.antt =====
-- The changes that `Cache__inject`, `Cache__load` and `Cache__store` make to one cache, as a step
-- relation, and what each of them keeps.
use pycachesim.Base.{
  ℕ, ◌+◌, ◌-◌, ◌*◌, ◌%◌, ◌<◌, ◌≡◌, refl, ap, ◌∙◌, true, false, none, some, [], ◌∷◌, erase_at,
  get_elem?, set, length-set,
}
use pycachesim.Cache.{Cache, Entry, Stats, bump}
use pycachesim.Hierarchy.{count_load, count_store, count_hit, count_miss, count_evict}
use pycachesim.Replace.Shape.{HasShape, Kept, Kept-placement}
use pycachesim.Replace.Choice.{is_queue}
use pycachesim.Replace.Entries.{Replaced, IsUpdated}
use pycachesim.Replace.Queue.{queue}

abbrev pub no_stats : Stats
no_stats = record { count = 0; byte = 0 }

-- A cache without what the operations change: its geometry, its policies and its links.
abbrev pub config : Cache → Cache
config c = record c {
  placement = [];
  subblock_bitfield = none;
  load = no_stats;
  store = no_stats;
  hit = no_stats;
  miss = no_stats;
  evict = no_stats;
}

pub data Local : Cache → Cache → Type 0 where
  loaded : {c : Cache} (n : ℕ) → Local c (count_load n c)
  stored : {c : Cache} (n : ℕ) → Local c (count_store n c)
  was_hit : {c : Cache} (n : ℕ) → Local c (count_hit n c)
  missed : {c : Cache} (n : ℕ) → Local c (count_miss n c)
  evicted : {c : Cache} (n : ℕ) → Local c (count_evict n c)
  -- A valid entry replaces one of its set.
  replaced :
      {set_id i : ℕ} {entry old : Entry} {c c' : Cache}
      → set_id ≡ entry.cl_id % c.sets
      → entry.invalid ≡ false
      → Replaced c set_id entry i old c'
      → (is_queue c ≡ true → queue c' set_id ≡ entry ∷ erase_at (c.ways - 1) (queue c set_id))
      → Local c c'
  -- The entry that was hit goes to the front of its set.
  to_front :
      {set_id i : ℕ} {entry : Entry} {c c' : Cache}
      → set_id < c.sets
      → i < c.ways
      → get_elem? c.placement (set_id * c.ways + i) ≡ some entry
      → entry.invalid ≡ false
      → Kept c c'
      → IsUpdated c.placement (set_id * c.ways) c.ways 0 entry c'.placement
      → queue c' set_id ≡ entry ∷ erase_at i (queue c set_id)
      → Local c c'
  -- Bits of the bit field change.
  marked : {c c' : Cache} → Kept c c' → c'.placement ≡ c.placement → Local c c'
  dirtied :
      {c : Cache} (k : ℕ) (e : Entry)
      → get_elem? c.placement k ≡ some e
      → Local c (record c { placement = set c.placement k (record e { dirty = true }) })
  and_then : {c c' c'' : Cache} → Local c c' → Local c' c'' → Local c c''

HasShape-stats :
    {c : Cache} (l st h m e : Stats)
    → HasShape c
    → HasShape (record c { load = l; store = st; hit = h; miss = m; evict = e })
HasShape-stats l st h m e s = record {
  sets_pos = s.sets_pos;
  ways_pos = s.ways_pos;
  size = s.size;
  room = s.room;
  combining = λ on.
      let b = s.combining on in
      record {
        chars = b.chars;
        is = b.is;
        valid = b.valid;
        enough = b.enough;
        whole = b.whole;
        back = b.back;
      };
}

pub Kept-config : {c c' : Cache} → Kept c c' → config c' ≡ config c
Kept-config k = ap config k.only

pub Local-config : {c c' : Cache} → Local c c' → config c' ≡ config c
Local-config (loaded n) = refl
Local-config (stored n) = refl
Local-config (was_hit n) = refl
Local-config (missed n) = refl
Local-config (evicted n) = refl
Local-config (replaced e v r q) = Kept-config r.kept
Local-config (to_front h l a v k u q) = Kept-config k
Local-config (marked k e) = Kept-config k
Local-config (dirtied k e at) = refl
Local-config (and_then l l') = Local-config l' ∙ Local-config l

pub Local-HasShape : {c c' : Cache} → Local c c' → HasShape c → HasShape c'
unfolding bump
Local-HasShape {c} (loaded n) s = HasShape-stats _ c.store c.hit c.miss c.evict s
Local-HasShape {c} (stored n) s = HasShape-stats c.load _ c.hit c.miss c.evict s
Local-HasShape {c} (was_hit n) s = HasShape-stats c.load c.store _ c.miss c.evict s
Local-HasShape {c} (missed n) s = HasShape-stats c.load c.store c.hit _ c.evict s
Local-HasShape {c} (evicted n) s = HasShape-stats c.load c.store c.hit c.miss _ s
Local-HasShape (replaced e v r q) s = r.kept.shape
Local-HasShape (to_front h l a v k u q) s = k.shape
Local-HasShape (marked k e) s = k.shape
Local-HasShape {c} (dirtied k e at) s =
    (Kept-placement (set c.placement k _) s (length-set c.placement k _)).shape
Local-HasShape (and_then l l') s = Local-HasShape l' (Local-HasShape l s)
