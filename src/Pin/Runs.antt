-- ===== src/Pin/Runs.antt =====
-- A run of a program under the Pin tool of pintool/cachesim_itf.cpp: the events that call the
-- functions of the tool.
use pycachesim.Base.{
  ℕ, ◌≡◌, refl, ◌∙◌, Bool, true, false, ◌&&◌, Option, List, [], ◌∷◌, ◌++◌, ltb, if◌then◌else◌,
  Result, ok, Fault, fault, ◌>>=◌,
}
use pycachesim.Cache.{AddrRange}
use pycachesim.Hierarchy.{Sim, Ops}
use pycachesim.Pin.{
  Ins, Marks, Callback, mem_read, mem_write, mem_read_check, mem_write_check, when, instruction,
  Executed, Tool, activate, deactivate, load_range, store_range, callback, callbacks,
}

-- What Pin calls: the function that is inserted at a call of a marker, or what is inserted at an
-- instruction.
pub data Event : Type 0 where
  at_start at_stop : Event
  at_ins : Executed → Event

module _ (calls : Ops) (first_level : ℕ) (follow_calls : Bool) (m : Marks) where
  unfoldable pub handle : Event → Tool → Result Tool
  handle at_start t = ok (activate t)
  handle at_stop t = ok (deactivate t)
  handle (at_ins x) t = callbacks calls first_level x (instruction follow_calls m x.ins) t

  unfoldable pub run_events : List Event → Tool → Result Tool
  unfolding handle
  run_events [] t = ok t
  run_events (e ∷ rest) t = do t' ← handle e t; run_events rest t'

-- The instruction is between the calls of the markers.
abbrev pub in_region : Marks → Ins → Bool
in_region m ins = ltb m.start_ins ins.address && ltb ins.address m.stop_ins

-- The instructions that are executed while the flag is set are those between the markers.
abbrev pub Agrees : Marks → Bool → List Event → Type 0
Agrees m active [] = Unit {0}
Agrees m active (at_start ∷ rest) = Agrees m true rest
Agrees m active (at_stop ∷ rest) = Agrees m false rest
Agrees m active (at_ins x ∷ rest) = (in_region m x.ins ≡ active) × Agrees m active rest

abbrev tool : Bool → Sim → Tool
tool active s = record { active = active; sim = s }

-- What holds of a result, unless it is a fault.
data IfOk {A : Type 0} (P : A → Type 0) : Result A → Type 0 where
  is_ok : {a : A} → P a → IfOk P (ok a)
  is_fault : {e : Fault} → IfOk P (fault e)

IfOk-any : {A : Type 0} (m : Result A) → IfOk (λ _. Unit {0}) m
IfOk-any (ok a) = is_ok tt
IfOk-any (fault e) = is_fault

module _ {A : Type 0} {P : A → Type 0} where
  IfOk-bind :
      {B : Type 0} {Q : B → Type 0} {m : Result A} {f : A → Result B}
      → IfOk P m
      → ((a : A) → P a → IfOk Q (f a))
      → IfOk Q (m >>= f)
  IfOk-bind (is_ok p) next = next _ p
  IfOk-bind is_fault next = is_fault

  IfOk-weaken : {Q : A → Type 0} {m : Result A} → IfOk P m → ((a : A) → P a → Q a) → IfOk Q m
  IfOk-weaken (is_ok p) imply = is_ok (imply _ p)
  IfOk-weaken is_fault imply = is_fault

  IfOk-if : {m : Result A} {a : A} (b : Bool) → IfOk P m → P a → IfOk P (if b then m else ok a)
  IfOk-if true p q = p
  IfOk-if false p q = is_ok q

  IfOk-congr :
      {B : Type 0} {m : Result A} {f g : A → Result B}
      → IfOk P m
      → ((a : A) → P a → f a ≡ g a)
      → (m >>= f) ≡ (m >>= g)
  IfOk-congr (is_ok p) same = same _ p
  IfOk-congr is_fault same = refl

module _ (calls : Ops) (first_level : ℕ) (x : Executed) where
  write_only :
      (writes active : Bool) (s : Sim)
      → callbacks calls first_level x (when writes mem_write_check) (tool active s)
        ≡ callbacks calls first_level x
            (if active then when writes mem_write else [])
            (tool active s)
  unfolding callbacks callback
  write_only true true s = refl
  write_only true false s = refl
  write_only false true s = refl
  write_only false false s = refl

  after_load :
      (writes : Bool) (m : Result (Option ℕ × Sim))
      → ((m >>= λ (_, s). ok (tool true s))
          >>= callbacks calls first_level x (when writes mem_write_check))
        ≡ ((m >>= λ (_, s). ok (tool true s))
            >>= callbacks calls first_level x (when writes mem_write))
  after_load writes (ok (i, s)) = write_only writes true s
  after_load writes (fault e) = refl

  -- The callbacks with a check do what those without do if the flag is set, and nothing else.
  checked_callbacks :
      (reads writes active : Bool) (s : Sim)
      → callbacks calls first_level x
          (when reads mem_read_check ++ when writes mem_write_check)
          (tool active s)
        ≡ callbacks calls first_level x
            (if active then when reads mem_read ++ when writes mem_write else [])
            (tool active s)
  unfolding callbacks callback load_range
  checked_callbacks false writes true s = write_only writes true s
  checked_callbacks false writes false s = write_only writes false s
  checked_callbacks true writes true s = after_load writes (calls.load s first_level x.reads)
  checked_callbacks true writes false s = write_only writes false s

  load_keeps :
      (range : AddrRange) (t : Tool)
      → IfOk (λ t'. t'.active ≡ t.active) (load_range calls first_level range t)
  unfolding load_range
  load_keeps range t = IfOk-bind (IfOk-any (calls.load t.sim first_level range)) (λ _ _. is_ok refl)

  store_keeps :
      (range : AddrRange) (t : Tool)
      → IfOk (λ t'. t'.active ≡ t.active) (store_range calls first_level range t)
  unfolding store_range
  store_keeps range t =
      IfOk-bind (IfOk-any (calls.store t.sim first_level range false)) (λ _ _. is_ok refl)

  callback_keeps :
      (f : Callback) (t : Tool)
      → IfOk (λ t'. t'.active ≡ t.active) (callback calls first_level x f t)
  unfolding callback
  callback_keeps mem_read t = load_keeps x.reads t
  callback_keeps mem_write t = store_keeps x.writes t
  callback_keeps mem_read_check t = IfOk-if t.active (load_keeps x.reads t) refl
  callback_keeps mem_write_check t = IfOk-if t.active (store_keeps x.writes t) refl

  -- The callbacks keep the flag.
  callbacks_keep :
      (fs : List Callback) (t : Tool)
      → IfOk (λ t'. t'.active ≡ t.active) (callbacks calls first_level x fs t)
  unfolding callbacks
  callbacks_keep [] t = is_ok refl
  callbacks_keep (f ∷ rest) t =
      IfOk-bind (callback_keeps f t)
        (λ t' e. IfOk-weaken (callbacks_keep rest t') (λ t'' e'. e' ∙ e))

module _ (calls : Ops) (first_level : ℕ) (m : Marks) where
  pub run_events-modes :
      (events : List Event) (t : Tool)
      → Agrees m t.active events
      → run_events calls first_level true m events t ≡ run_events calls first_level false m events t
  unfolding run_events instruction activate deactivate
  run_events-modes [] t agrees = refl
  run_events-modes (at_start ∷ rest) t agrees = run_events-modes rest (activate t) agrees
  run_events-modes (at_stop ∷ rest) t agrees = run_events-modes rest (deactivate t) agrees
  run_events-modes (at_ins x ∷ rest) t (here, agrees) =
      let reads = x.ins.is_memory_read && x.ins.is_standard_memop in
      let writes = x.ins.is_memory_write in
      let same = checked_callbacks calls first_level x reads writes t.active t.sim in
      rw (here, same)
        (IfOk-congr
          (callbacks_keep calls first_level x
            (if t.active then when reads mem_read ++ when writes mem_write else []) t)
          (λ t' e. run_events-modes rest t' (rw e agrees)))
