-- ===== src/Pin/Markers.antt =====
-- `ImageLoad` of the Pin tool of pintool/cachesim_itf.cpp against the list of the calls of the markers.
use mathlib.Core.Path.{ap₂}
use pycachesim.Base.{
  ℕ, ◌<◌, ◌≤◌, ◌≡◌, ◌≢◌, ◌⊎◌, inl, inr, refl, sym, ap, ◌∙◌, Bool, true, false, ◌||◌, Bool-cases,
  ==→eq, List, [], ◌∷◌, ◌++◌, arith, ◌==◌, ltb, if◌then◌else◌, length,
}
use pycachesim.CString.{Text, bytes, strcmp_zero}
use pycachesim.Pin.{
  Symbol, Ins, Img, Marks, no_marks, see_symbol, see_symbols, see_sections, ImageLoaded,
  missing_addresses, too_many_calls, not_enough_calls, marked, image_load,
}
use pycachesim.Pin.Search.{Seen, callers, last_of, program, see_sections-Seen}

-- The address of the last symbol whose name is undecorated to `text`, or the one before.
abbrev pub address_of : (Text → Text) → Text → ℕ → List Symbol → ℕ
address_of undecorate text before [] = before
address_of undecorate text before (sym ∷ rest) =
    address_of undecorate text
      (if strcmp_zero (undecorate sym.name) text then sym.address else before) rest

record SawSymbol (undecorate : Text → Text) (sym : Symbol) (m m' : Marks) : Type 0 where
  start : m'.start_call ≡ (
      if strcmp_zero (undecorate sym.name) (bytes "_magic_pin_start")
      then sym.address
      else m.start_call)
  stop : m'.stop_call ≡ (
      if strcmp_zero (undecorate sym.name) (bytes "_magic_pin_stop")
      then sym.address
      else m.stop_call)
  activates : m'.activates ≡ m.activates
  deactivates : m'.deactivates ≡ m.deactivates

see_symbol-SawSymbol :
    (undecorate : Text → Text) (sym : Symbol) (m : Marks)
    → SawSymbol undecorate sym m (see_symbol undecorate sym m)
unfolding see_symbol
see_symbol-SawSymbol undecorate sym m = record {
  start = ground arith;
  stop = ground arith;
  activates = ground arith;
  deactivates = ground arith;
}

record SawSymbols (undecorate : Text → Text) (symbols : List Symbol) (m m' : Marks) : Type 0 where
  start : m'.start_call ≡ address_of undecorate (bytes "_magic_pin_start") m.start_call symbols
  stop : m'.stop_call ≡ address_of undecorate (bytes "_magic_pin_stop") m.stop_call symbols
  activates : m'.activates ≡ m.activates
  deactivates : m'.deactivates ≡ m.deactivates

see_symbols-SawSymbols :
    (undecorate : Text → Text) (symbols : List Symbol) (m : Marks)
    → SawSymbols undecorate symbols m (see_symbols undecorate symbols m)
unfolding see_symbols
see_symbols-SawSymbols undecorate [] m = record {
  start = refl;
  stop = refl;
  activates = refl;
  deactivates = refl;
}
see_symbols-SawSymbols undecorate (sym ∷ rest) m =
    let one = see_symbol-SawSymbol undecorate sym m in
    let others = see_symbols-SawSymbols undecorate rest (see_symbol undecorate sym m) in
    record {
      start =
          others.start
          ∙ ap (λ a. address_of undecorate (bytes "_magic_pin_start") a rest) one.start;
      stop =
          others.stop ∙ ap (λ a. address_of undecorate (bytes "_magic_pin_stop") a rest) one.stop;
      activates = others.activates ∙ one.activates;
      deactivates = others.deactivates ∙ one.deactivates;
    }

-- What `ImageLoad` finds in the main executable: both markers, and the calls of each, exactly one.
pub data IsMarked (follow_calls : Bool) (start stop : ℕ) (instructions : List Ins)
    : ImageLoaded → Type 0 where
  no_symbol :
      (start ≡ 0) ⊎ (stop ≡ 0) → IsMarked follow_calls start stop instructions missing_addresses
  several :
      start ≢ 0
      → stop ≢ 0
      → (1 < length (callers start instructions)) ⊎ (1 < length (callers stop instructions))
      → IsMarked follow_calls start stop instructions too_many_calls
  not_called :
      start ≢ 0
      → stop ≢ 0
      → (callers start instructions ≡ []) ⊎ (callers stop instructions ≡ [])
      → length (callers start instructions) ≤ 1
      → length (callers stop instructions) ≤ 1
      → IsMarked follow_calls start stop instructions not_enough_calls
  one_region :
      {m : Marks} (a b : ℕ)
      → start ≢ 0
      → stop ≢ 0
      → callers start instructions ≡ a ∷ []
      → callers stop instructions ≡ b ∷ []
      → (follow_calls ≡ false → (m.start_ins ≡ a) × (m.stop_ins ≡ b))
      → (follow_calls ≡ true → (m.activates ≡ a ∷ []) × (m.deactivates ≡ b ∷ []))
      → IsMarked follow_calls start stop instructions (marked m)

single : (xs : List ℕ) → length xs ≡ 1 → (a : ℕ) × (xs ≡ a ∷ [])
single [] e = absurd (omega arith)
single (a ∷ []) e = (a, refl)
single (a ∷ b ∷ xs) e = absurd (omega arith)

none_in : (xs : List ℕ) → length xs < 1 → xs ≡ []
none_in [] h = refl
none_in (a ∷ xs) h = absurd (omega arith)

module _ (follow_calls : Bool) (instructions : List Ins) (m m' : Marks)
    (seen : Seen follow_calls m instructions m') (no_start : m.start_ctr ≡ 0)
    (no_stop : m.stop_ctr ≡ 0) (no_activates : m.activates ≡ [])
    (no_deactivates : m.deactivates ≡ []) (has_start : m.start_call ≢ 0)
    (has_stop : m.stop_call ≢ 0) where
  one_found :
      (a : ℕ) × (callers m.start_call instructions ≡ a ∷ [])
      → (b : ℕ) × (callers m.stop_call instructions ≡ b ∷ [])
      → IsMarked follow_calls m.start_call m.stop_call instructions (marked m')
  one_found (a, at) (b, at') =
      one_region a b has_start has_stop at at'
        (λ off. (
          seen.start_side.last off ∙ ap (last_of m.start_ins) at,
          seen.stop_side.last off ∙ ap (last_of m.stop_ins) at',
        ))
        (λ on. (
          seen.start_side.calls on ∙ ap₂ ◌++◌ no_activates at,
          seen.stop_side.calls on ∙ ap₂ ◌++◌ no_deactivates at',
        ))

  found_one :
      ltb 1 m'.start_ctr || ltb 1 m'.stop_ctr ≡ false
      → ltb m'.start_ctr 1 || ltb m'.stop_ctr 1 ≡ false
      → IsMarked follow_calls m.start_call m.stop_call instructions (marked m')
  found_one few enough =
      let count = seen.start_side.count in
      let count' = seen.stop_side.count in
      one_found (single (callers m.start_call instructions) (ground (arith, few, enough)))
        (single (callers m.stop_call instructions) (ground (arith, few, enough)))

  too_few :
      ltb 1 m'.start_ctr || ltb 1 m'.stop_ctr ≡ false
      → ltb m'.start_ctr 1 || ltb m'.stop_ctr 1 ≡ true
      → IsMarked follow_calls m.start_call m.stop_call instructions not_enough_calls
  too_few few missing =
      let count = seen.start_side.count in
      let count' = seen.stop_side.count in
      let le : length (callers m.start_call instructions) ≤ 1 = ground (arith, few) in
      let le' : length (callers m.stop_call instructions) ≤ 1 = ground (arith, few) in
      elim (Bool-cases (ltb m'.start_ctr 1)) [
        | inl here ↦ not_called has_start has_stop (inl (none_in _ (ground (arith, here)))) le le'
        | inr there ↦
            not_called has_start has_stop (inr (none_in _ (ground (arith, missing, there)))) le le'
      ]

  too_many :
      ltb 1 m'.start_ctr || ltb 1 m'.stop_ctr ≡ true
      → IsMarked follow_calls m.start_call m.stop_call instructions too_many_calls
  too_many many =
      let count = seen.start_side.count in
      let count' = seen.stop_side.count in
      elim (Bool-cases (ltb 1 m'.start_ctr)) [
        | inl here ↦ several has_start has_stop (inl (ground (arith, here)))
        | inr there ↦ several has_start has_stop (inr (ground (arith, many, there)))
      ]

  judged : IsMarked follow_calls m.start_call m.stop_call instructions (
      if ltb 1 m'.start_ctr || ltb 1 m'.stop_ctr
      then too_many_calls
      else if ltb m'.start_ctr 1 || ltb m'.stop_ctr 1
      then not_enough_calls
      else marked m')
  judged = elim (Bool-cases (ltb 1 m'.start_ctr || ltb 1 m'.stop_ctr)) [
    | inl many ↦ rw many (too_many many)
    | inr few ↦ rw few (elim (Bool-cases (ltb m'.start_ctr 1 || ltb m'.stop_ctr 1)) [
      | inl missing ↦ rw missing (too_few few missing)
      | inr enough ↦ rw enough (found_one few enough)
    ])
  ]

-- In the main executable `ImageLoad` exits for missing addresses just if the address of a marker is 0, as it is
-- when no symbol has its name. With both addresses it exits if a marker is called directly at more than
-- one place, or else if one is called nowhere; and else it has the address of the only call of each marker,
-- or a call of `activate` or `deactivate` is inserted there, if calls are followed.
pub image_load-IsMarked :
    (undecorate : Text → Text) (follow_calls : Bool) (img : Img)
    → img.is_main_executable ≡ true
    → IsMarked follow_calls
        (address_of undecorate (bytes "_magic_pin_start") 0 img.symbols)
        (address_of undecorate (bytes "_magic_pin_stop") 0 img.symbols)
        (program img)
        (image_load undecorate follow_calls img no_marks)
unfolding image_load
image_load-IsMarked undecorate follow_calls img is_main =
    let saw = see_symbols-SawSymbols undecorate img.symbols no_marks in
    let m₁ = see_symbols undecorate img.symbols no_marks in
    let m₂ : Marks = record m₁ { start_ctr = 0; stop_ctr = 0 } in
    rw (is_main, ← saw.start, ← saw.stop)
      (elim (Bool-cases (m₁.start_call == 0 || m₁.stop_call == 0)) [
        | inl missing ↦ rw missing (no_symbol (either missing))
        | inr there ↦ rw there (
            judged follow_calls (program img) m₂ (see_sections follow_calls img.sections m₂)
              (see_sections-Seen follow_calls img.sections m₂) refl refl saw.activates
              saw.deactivates (λ e. ground (arith, there)) (λ e. ground (arith, there)))
      ])
  where
    either : {a b : ℕ} → (a == 0 || b == 0) ≡ true → (a ≡ 0) ⊎ (b ≡ 0)
    either {a} {b} e = elim (Bool-cases (a == 0)) [
      | inl here ↦ inl (==→eq a 0 here)
      | inr there ↦ inr (ground (arith, e, there))
    ]
