-- ===== src/Pin.antt =====
-- The Pin tool of pintool/cachesim_itf.cpp. What Pin shows of a program is data: the symbols and the
-- instructions of an image, and the accesses of the instructions that are executed. How Pin undecorates
-- the name of a symbol is a parameter. The output to the console is not modelled, but for the reports.
pub mod Search
pub mod Markers
pub mod Runs
pub mod Counting
use pycachesim.Base.{
  ℕ, zero, suc, ◌+◌, ◌<◌, Bool, true, false, not, ◌&&◌, ◌||◌, Option, none, some, List, [], ◌∷◌,
  ◌++◌, ◌==◌, ltb, if◌then◌else◌, Result, ok, fault, ◌>>=◌, option_case, read, out_of_fuel,
}
use pycachesim.Cache.{Cache, AddrRange}
use pycachesim.CString.{Text, bytes, strcmp_zero}
use pycachesim.Files.{Loading, FileExit, fails, loaded, get_cache_sim_from_file}
use pycachesim.Hierarchy.{Sim, Ops}
use pycachesim.Walks.{Report, report}

pub record Symbol : Type 0 where
  pub name : Text
  pub address : ℕ

-- The target of a direct control flow, and whether memory is read and written.
pub record Ins : Type 0 where
  pub address : ℕ
  pub target : Option ℕ
  pub is_memory_read : Bool
  pub is_standard_memop : Bool
  pub is_memory_write : Bool

-- The sections of an image have routines, and these have instructions.
pub record Img : Type 0 where
  pub is_main_executable : Bool
  pub symbols : List Symbol
  pub sections : List (List (List Ins))

-- The global variables for the markers, the counters, and where calls of `activate` and `deactivate` are
-- inserted.
pub record Marks : Type 0 where
  pub start_call : ℕ
  pub start_ins : ℕ
  pub stop_call : ℕ
  pub stop_ins : ℕ
  pub start_ctr : ℕ
  pub stop_ctr : ℕ
  pub activates : List ℕ
  pub deactivates : List ℕ

abbrev pub no_marks : Marks
no_marks = record {
  start_call = 0;
  start_ins = 0;
  stop_call = 0;
  stop_ins = 0;
  start_ctr = 0;
  stop_ctr = 0;
  activates = [];
  deactivates = [];
}

module _ (undecorate : Text → Text) where
  -- The body of the loop over the symbols, and the loop.
  unfoldable pub see_symbol : Symbol → Marks → Marks
  see_symbol sym m =
      let m₁ =
        if strcmp_zero (undecorate sym.name) (bytes "_magic_pin_start")
        then record m { start_call = sym.address }
        else m in
      if strcmp_zero (undecorate sym.name) (bytes "_magic_pin_stop")
      then record m₁ { stop_call = sym.address }
      else m₁

  unfoldable pub see_symbols : List Symbol → Marks → Marks
  unfolding see_symbol
  see_symbols [] m = m
  see_symbols (sym ∷ rest) m = see_symbols rest (see_symbol sym m)

module _ (follow_calls : Bool) where
  -- A call of the start function, and one of the stop function.
  unfoldable pub see_start : Ins → Marks → Marks
  see_start ins m =
      if follow_calls
      then record m { start_ctr = m.start_ctr + 1; activates = m.activates ++ (ins.address ∷ []) }
      else record m { start_ctr = m.start_ctr + 1; start_ins = ins.address }

  unfoldable pub see_stop : Ins → Marks → Marks
  see_stop ins m =
      if follow_calls
      then record m { stop_ctr = m.stop_ctr + 1; deactivates = m.deactivates ++ (ins.address ∷ []) }
      else record m { stop_ctr = m.stop_ctr + 1; stop_ins = ins.address }

  -- The body of the loop over the instructions.
  unfoldable pub see_ins : Ins → Marks → Marks
  unfolding see_start see_stop
  see_ins ins m = option_case ins.target m λ target.
      let m₁ = if target == m.start_call then see_start ins m else m in
      if target == m₁.stop_call then see_stop ins m₁ else m₁

  unfoldable pub see_routine : List Ins → Marks → Marks
  unfolding see_ins
  see_routine [] m = m
  see_routine (ins ∷ rest) m = see_routine rest (see_ins ins m)

  unfoldable pub see_section : List (List Ins) → Marks → Marks
  unfolding see_routine
  see_section [] m = m
  see_section (rtn ∷ rest) m = see_section rest (see_routine rtn m)

  unfoldable pub see_sections : List (List (List Ins)) → Marks → Marks
  unfolding see_section
  see_sections [] m = m
  see_sections (sec ∷ rest) m = see_sections rest (see_section sec m)

-- The reasons to exit, or the marks.
pub data ImageLoaded : Type 0 where
  missing_addresses too_many_calls not_enough_calls : ImageLoaded
  marked : Marks → ImageLoaded

unfoldable pub image_load : (Text → Text) → Bool → Img → Marks → ImageLoaded
unfolding see_symbols see_sections
image_load undecorate follow_calls img m =
    if not img.is_main_executable
    then marked m
    else let m₁ = see_symbols undecorate img.symbols m in
      if m₁.start_call == 0 || m₁.stop_call == 0
      then missing_addresses
      else let m₂ =
          see_sections follow_calls img.sections (record m₁ { start_ctr = 0; stop_ctr = 0 }) in
        if ltb 1 m₂.start_ctr || ltb 1 m₂.stop_ctr
        then too_many_calls
        else if ltb m₂.start_ctr 1 || ltb m₂.stop_ctr 1
        then not_enough_calls
        else marked m₂

-- The callbacks that can be inserted in front of an instruction.
pub data Callback : Type 0 where
  mem_read mem_write mem_read_check mem_write_check : Callback

abbrev pub when : Bool → Callback → List Callback
when b f = if b then f ∷ [] else []

unfoldable pub instruction : Bool → Marks → Ins → List Callback
instruction follow_calls m ins =
    if follow_calls
    then when (ins.is_memory_read && ins.is_standard_memop) mem_read_check
      ++ when ins.is_memory_write mem_write_check
    else if ltb m.start_ins ins.address && ltb ins.address m.stop_ins
    then when (ins.is_memory_read && ins.is_standard_memop) mem_read
      ++ when ins.is_memory_write mem_write
    else []

-- An instruction that is executed, with the memory that it reads and writes.
pub record Executed : Type 0 where
  pub ins : Ins
  pub reads : AddrRange
  pub writes : AddrRange

-- `_pinMarker_active`, and the caches.
pub record Tool : Type 0 where
  pub active : Bool
  pub sim : Sim

unfoldable pub activate : Tool → Tool
activate t = record t { active = true }

unfoldable pub deactivate : Tool → Tool
deactivate t = record t { active = false }

module _ (calls : Ops) (first_level : ℕ) where
  -- The functions `MemRead` and `MemWrite`, and the four callbacks.
  unfoldable pub load_range : AddrRange → Tool → Result Tool
  load_range range t = do (_, s) ← calls.load t.sim first_level range; ok (record t { sim = s })

  unfoldable pub store_range : AddrRange → Tool → Result Tool
  store_range range t = do s ← calls.store t.sim first_level range false; ok (record t { sim = s })

  unfoldable pub callback : Executed → Callback → Tool → Result Tool
  unfolding load_range store_range
  callback x mem_read t = load_range x.reads t
  callback x mem_write t = store_range x.writes t
  callback x mem_read_check t = if t.active then load_range x.reads t else ok t
  callback x mem_write_check t = if t.active then store_range x.writes t else ok t

  unfoldable pub callbacks : Executed → List Callback → Tool → Result Tool
  unfolding callback
  callbacks x [] t = ok t
  callbacks x (f ∷ rest) t = do t' ← callback x f t; callbacks x rest t'

-- The output of `printStats` of the tool.
unfoldable pub print_stats : ℕ → List Cache → ℕ → Result (List Report)
print_stats zero cs p = fault out_of_fuel
print_stats (suc fuel) cs p = do
  c ← read cs p
  others ← option_case c.load_from (ok []) (λ q. print_stats fuel cs q)
  ok (report c ∷ others)

unfoldable pub fini : ℕ → List Cache → ℕ → Result (List Report)
unfolding print_stats
fini fuel cs first_level = print_stats fuel cs first_level

-- `main` up to the start of the program: it ends at once if Pin does not start, else the caches are read.
pub data Main : Type 0 where
  not_started : Main
  stopped : FileExit → Main
  started : List Cache → ℕ → Main

abbrev pub start : Loading (List Cache × ℕ) → Main
start (fails e) = stopped e
start (loaded (cs, p)) = started cs p

unfoldable pub main : (ℕ → ℕ → ℕ) → (ℕ → ℕ → ℕ) → Bool → Option Text → Result Main
main memory chars init_failed cache_file =
    if init_failed
    then ok not_started
    else (do r ← get_cache_sim_from_file memory chars cache_file; ok (start r))
