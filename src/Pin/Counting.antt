-- ===== src/Pin/Counting.antt =====
-- What a run under the Pin tool of pintool/cachesim_itf.cpp counts as stores.
use mathlib.Core.Path.{subst}
use native.Mathlib.Nat.{add-mul}
use pycachesim.Base.{
  ℕ, ◌+◌, ◌*◌, ◌<◌, ◌≡◌, refl, ap, ◌∙◌, Bool, true, false, ◌&&◌, some, List, [], ◌∷◌, arith,
  if◌then◌else◌, get_elem?, ok, Returns, returns, bind, weaken, Returns-both, if-Returns,
}
use pycachesim.Cache.{Cache, AddrRange}
use pycachesim.Hierarchy.{Sim, ops}
use pycachesim.Hierarchy.Safety.{load-Outcome, store-Outcome}
use pycachesim.Hierarchy.Steps.{IsValid}
use pycachesim.Hierarchy.Tally.{load-LoadCounted, store-counts}
use pycachesim.Pin.{
  Ins, Marks, Callback, mem_read, mem_write, mem_read_check, mem_write_check, instruction, Executed,
  Tool, activate, deactivate, load_range, store_range, callback, callbacks,
}
use pycachesim.Pin.Runs.{Event, at_start, at_stop, at_ins, handle, run_events, in_region}

-- The cache `p`, which was `c`, has counted `n` more stores of `b` bytes together.
pub record Stored (size p : ℕ) (c : Cache) (n b : ℕ) (s : Sim) : Type 0 where
  pub valid : IsValid size s
  pub own : Cache
  pub at : get_elem? s.caches p ≡ some own
  pub count : own.store.count ≡ c.store.count + n
  pub bytes : own.store.byte ≡ c.store.byte + b

-- The stores of callbacks, and their bytes.
abbrev is_store : Bool → Callback → Bool
is_store active mem_read = false
is_store active mem_read_check = false
is_store active mem_write = true
is_store active mem_write_check = active

abbrev one_if : Bool → ℕ
one_if b = if b then 1 else 0

abbrev stores_in : Bool → List Callback → ℕ
stores_in active [] = 0
stores_in active (f ∷ rest) = one_if (is_store active f) + stores_in active rest

-- What an instruction counts: one store if it writes memory and is to be simulated.
abbrev pub simulated : Bool → Marks → Bool → Ins → Bool
simulated follow_calls m active ins = if follow_calls then active else in_region m ins

abbrev pub stores_of : Bool → Marks → Bool → List Event → ℕ
stores_of follow_calls m active [] = 0
stores_of follow_calls m active (at_start ∷ rest) = stores_of follow_calls m true rest
stores_of follow_calls m active (at_stop ∷ rest) = stores_of follow_calls m false rest
stores_of follow_calls m active (at_ins x ∷ rest) =
    one_if (x.ins.is_memory_write && simulated follow_calls m active x.ins)
    + stores_of follow_calls m active rest

abbrev pub bytes_of : Bool → Marks → Bool → List Event → ℕ
bytes_of follow_calls m active [] = 0
bytes_of follow_calls m active (at_start ∷ rest) = bytes_of follow_calls m true rest
bytes_of follow_calls m active (at_stop ∷ rest) = bytes_of follow_calls m false rest
bytes_of follow_calls m active (at_ins x ∷ rest) =
    one_if (x.ins.is_memory_write && simulated follow_calls m active x.ins) * x.writes.length
    + bytes_of follow_calls m active rest

stores_in-instruction :
    (follow_calls : Bool) (m : Marks) (active : Bool) (ins : Ins)
    → stores_in active (instruction follow_calls m ins)
      ≡ one_if (ins.is_memory_write && simulated follow_calls m active ins)
unfolding instruction
stores_in-instruction follow_calls m active ins = ground arith

module _ (size p : ℕ) (inside : p < size) where
  -- A tool whose flag is as before.
  abbrev KeptStored : Cache → Bool → ℕ → ℕ → Tool → Type 0
  KeptStored c active n b t = (t.active ≡ active) × Stored size p c n b t.sim

  load_range-Stored :
      (c : Cache) (range : AddrRange) (t : Tool)
      → IsValid size t.sim
      → get_elem? t.sim.caches p ≡ some c
      → Returns (KeptStored c t.active 0 0) (load_range (ops size) p range t)
  unfolding load_range
  load_range-Stored c range t valid at =
      bind
        (Returns-both (load-Outcome size t.sim p valid inside range)
          (load-LoadCounted size t.sim p c range valid inside at))
        (λ (i, s) (o, l). returns (
          refl,
          record {
            valid = o.valid;
            own = l.own;
            at = l.at;
            count = ground (arith, ap (λ x. x.count) l.store_same);
            bytes = ground (arith, ap (λ x. x.byte) l.store_same);
          },
        ))

  store_range-Stored :
      (c : Cache) (range : AddrRange) (t : Tool)
      → IsValid size t.sim
      → get_elem? t.sim.caches p ≡ some c
      → Returns (KeptStored c t.active 1 range.length) (store_range (ops size) p range t)
  unfolding store_range
  store_range-Stored c range t valid at =
      bind
        (Returns-both (store-Outcome size t.sim p valid inside range false)
          (store-counts size t.sim p c range false valid inside at))
        (λ s (o, (own, at_own, count, bytes)).
          returns (
            refl,
            record { valid = o.valid; own = own; at = at_own; count = count; bytes = bytes },
          ))

  nothing_stored :
      (c : Cache) (t : Tool)
      → IsValid size t.sim
      → get_elem? t.sim.caches p ≡ some c
      → KeptStored c t.active 0 0 t
  nothing_stored c t valid at =
      (refl, record { valid = valid; own = c; at = at; count = omega arith; bytes = omega arith })

  Stored-trans :
      {c : Cache} {n b n' b' : ℕ} {s u : Sim}
      → (o : Stored size p c n b s) → Stored size p o.own n' b' u
      → Stored size p c (n + n') (b + b') u
  Stored-trans o o' = record {
    valid = o'.valid;
    own = o'.own;
    at = o'.at;
    count = omega (arith, o.count, o'.count);
    bytes = omega (arith, o.bytes, o'.bytes);
  }

  callback-Stored :
      (c : Cache) (x : Executed) (f : Callback) (t : Tool)
      → IsValid size t.sim
      → get_elem? t.sim.caches p ≡ some c
      → Returns
          (KeptStored c t.active
            (one_if (is_store t.active f))
            (one_if (is_store t.active f) * x.writes.length))
          (callback (ops size) p x f t)
  unfolding callback
  callback-Stored c x mem_read t valid at =
      let none_at_all : 0 * x.writes.length ≡ 0 = omega arith in
      rw none_at_all (load_range-Stored c x.reads t valid at)
  callback-Stored c x mem_write t valid at =
      let all_of_it : 1 * x.writes.length ≡ x.writes.length = omega arith in
      rw all_of_it (store_range-Stored c x.writes t valid at)
  callback-Stored c x mem_read_check t valid at =
      let none_at_all : 0 * x.writes.length ≡ 0 = omega arith in
      rw none_at_all (
        if-Returns t.active (λ on. load_range-Stored c x.reads t valid at)
          (λ off. returns (nothing_stored c t valid at)))
  callback-Stored c x mem_write_check t valid at = checked t.active refl
    where
      checked :
          (active : Bool)
          → active ≡ t.active
          → Returns
              (KeptStored c t.active (one_if active) (one_if active * x.writes.length))
              (if active then store_range (ops size) p x.writes t else ok t)
      checked true e =
          let all_of_it : 1 * x.writes.length ≡ x.writes.length = omega arith in
          rw all_of_it (store_range-Stored c x.writes t valid at)
      checked false e =
          let none_at_all : 0 * x.writes.length ≡ 0 = omega arith in
          rw none_at_all (returns (nothing_stored c t valid at))

  callbacks-Stored :
      (x : Executed) (fs : List Callback) (c : Cache) (t : Tool)
      → IsValid size t.sim
      → get_elem? t.sim.caches p ≡ some c
      → Returns
          (KeptStored c t.active (stores_in t.active fs) (stores_in t.active fs * x.writes.length))
          (callbacks (ops size) p x fs t)
  unfolding callbacks
  callbacks-Stored x [] c t valid at =
      let none_at_all : 0 * x.writes.length ≡ 0 = omega arith in
      rw none_at_all (returns (nothing_stored c t valid at))
  callbacks-Stored x (f ∷ rest) c t valid at =
      bind (callback-Stored c x f t valid at) (λ t' (same, o).
        weaken (callbacks-Stored x rest o.own t' o.valid o.at) (λ u (same', o'). (
          same' ∙ same,
          together (one_if (is_store t.active f)) (stores_in t.active rest) (
              Stored-trans o (
                subst
                  (λ a.
                    Stored size p o.own (stores_in a rest) (stores_in a rest * x.writes.length)
                      u.sim)
                  same o')),
        )))
    where
      together :
          (n n' : ℕ) {u : Sim}
          → Stored size p c (n + n') (n * x.writes.length + n' * x.writes.length) u
          → Stored size p c (n + n') ((n + n') * x.writes.length) u
      together n n' o =
          let spread : (n + n') * x.writes.length ≡ n * x.writes.length + n' * x.writes.length =
            add-mul n n' x.writes.length in
          rw spread o

  -- On the first level of a valid hierarchy, the run of any events returns, and the first level has then
  -- counted one store for each instruction that is executed and writes memory, of the bytes that it
  -- writes: while the flag of the tool is set, if it follows calls, and else if the instruction is
  -- between the calls of the two markers.
  pub run_events-Stored :
      (follow_calls : Bool) (m : Marks) (events : List Event) (c : Cache) (t : Tool)
      → IsValid size t.sim
      → get_elem? t.sim.caches p ≡ some c
      → Returns
          (λ u.
            Stored size p c
              (stores_of follow_calls m t.active events)
              (bytes_of follow_calls m t.active events)
              u.sim)
          (run_events (ops size) p follow_calls m events t)
  unfolding run_events handle activate deactivate
  run_events-Stored follow_calls m [] c t valid at = returns (nothing_stored c t valid at).1
  run_events-Stored follow_calls m (at_start ∷ rest) c t valid at =
      run_events-Stored follow_calls m rest c (activate t) valid at
  run_events-Stored follow_calls m (at_stop ∷ rest) c t valid at =
      run_events-Stored follow_calls m rest c (deactivate t) valid at
  run_events-Stored follow_calls m (at_ins x ∷ rest) c t valid at =
      bind (callbacks-Stored x (instruction follow_calls m x.ins) c t valid at) (λ t' (same, o).
        weaken (run_events-Stored follow_calls m rest o.own t' o.valid o.at) (λ u o'.
          let o'' = rw same at o' in
          rw (← stores_in-instruction follow_calls m t.active x.ins) (Stored-trans o o'')))
