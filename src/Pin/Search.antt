-- ===== src/Pin/Search.antt =====
-- The loops of `ImageLoad` of the Pin tool of pintool/cachesim_itf.cpp over the instructions of an image, against
-- the list of the direct calls of an address.
use mathlib.Core.List.{append-nil, append_assoc}
use pycachesim.Base.{
  ℕ, ◌+◌, ◌≡◌, refl, sym, ap, ◌∙◌, Bool, true, false, List, [], ◌∷◌, ◌++◌, arith, ◌==◌,
  if◌then◌else◌, length, map, length-append, option_case,
}
use pycachesim.Pin.{
  Ins, Img, Marks, see_start, see_stop, see_ins, see_routine, see_section, see_sections,
}

abbrev pub goes_to : ℕ → Ins → Bool
goes_to a ins = option_case ins.target false (λ target. target == a)

-- The addresses of the instructions that go to an address directly.
abbrev pub callers : ℕ → List Ins → List ℕ
callers a [] = []
callers a (ins ∷ rest) = if goes_to a ins then ins.address ∷ callers a rest else callers a rest

-- All instructions of an image.
abbrev pub flat : {A : Type 0} → List (List A) → List A
flat [] = []
flat (xs ∷ rest) = xs ++ flat rest

abbrev pub last_of : ℕ → List ℕ → ℕ
last_of a [] = a
last_of a (x ∷ xs) = last_of x xs

callers-append : (a : ℕ) (xs ys : List Ins) → callers a (xs ++ ys) ≡ callers a xs ++ callers a ys
callers-append a [] ys = refl
callers-append a (x ∷ xs) ys = ground (arith, callers-append a xs ys)

last_of-append : (a : ℕ) (xs ys : List ℕ) → last_of a (xs ++ ys) ≡ last_of (last_of a xs) ys
last_of-append a [] ys = refl
last_of-append a (x ∷ xs) ys = last_of-append x xs ys

-- What is kept of one marker: the counter, the address of the last call, and where calls are inserted.
pub record Side : Type 0 where
  pub ctr : ℕ
  pub ins : ℕ
  pub inserted : List ℕ

-- The calls `found` have been added.
pub record Adds (follow_calls : Bool) (found : List ℕ) (before after : Side) : Type 0 where
  pub count : after.ctr ≡ before.ctr + length found
  pub last : follow_calls ≡ false → after.ins ≡ last_of before.ins found
  pub calls : follow_calls ≡ true → after.inserted ≡ before.inserted ++ found

Adds-nil : (follow_calls : Bool) (b : Side) → Adds follow_calls [] b b
Adds-nil follow_calls b = record {
  count = omega arith;
  last = λ _. refl;
  calls = λ _. sym (append-nil b.inserted);
}

Adds-trans :
    (follow_calls : Bool) (xs ys : List ℕ) (b c d : Side)
    → Adds follow_calls xs b c
    → Adds follow_calls ys c d
    → Adds follow_calls (xs ++ ys) b d
Adds-trans follow_calls xs ys b c d s s' = record {
  count = omega (arith, s.count, s'.count, length-append xs ys);
  last =
      λ off. s'.last off ∙ ap (λ a. last_of a ys) (s.last off) ∙ sym (last_of-append b.ins xs ys);
  calls = λ on. s'.calls on ∙ ap (λ l. l ++ ys) (s.calls on) ∙ append_assoc b.inserted xs ys;
}

abbrev pub starts : Marks → Side
starts m = record { ctr = m.start_ctr; ins = m.start_ins; inserted = m.activates }

abbrev pub stops : Marks → Side
stops m = record { ctr = m.stop_ctr; ins = m.stop_ins; inserted = m.deactivates }

-- What the search leaves, with the two addresses that it compares with.
pub record Seen (follow_calls : Bool) (m : Marks) (instructions : List Ins) (m' : Marks)
    : Type 0 where
  pub start_call : m'.start_call ≡ m.start_call
  pub stop_call : m'.stop_call ≡ m.stop_call
  pub start_side : Adds follow_calls (callers m.start_call instructions) (starts m) (starts m')
  pub stop_side : Adds follow_calls (callers m.stop_call instructions) (stops m) (stops m')

Seen-nil : (follow_calls : Bool) (m : Marks) → Seen follow_calls m [] m
Seen-nil follow_calls m = record {
  start_call = refl;
  stop_call = refl;
  start_side = Adds-nil follow_calls (starts m);
  stop_side = Adds-nil follow_calls (stops m);
}

Seen-trans :
    (follow_calls : Bool) (m m' m'' : Marks) (xs ys : List Ins)
    → Seen follow_calls m xs m'
    → Seen follow_calls m' ys m''
    → Seen follow_calls m (xs ++ ys) m''
Seen-trans follow_calls m m' m'' xs ys s s' =
    let same : callers m'.start_call ys ≡ callers m.start_call ys =
      ap (λ a. callers a ys) s.start_call in
    let same' : callers m'.stop_call ys ≡ callers m.stop_call ys =
      ap (λ a. callers a ys) s.stop_call in
    record {
      start_call = s'.start_call ∙ s.start_call;
      stop_call = s'.stop_call ∙ s.stop_call;
      start_side =
          rw (callers-append m.start_call xs ys, ← same)
            (Adds-trans follow_calls (callers m.start_call xs) (callers m'.start_call ys) (starts m)
              (starts m') (starts m'') s.start_side s'.start_side);
      stop_side =
          rw (callers-append m.stop_call xs ys, ← same')
            (Adds-trans follow_calls (callers m.stop_call xs) (callers m'.stop_call ys) (stops m)
              (stops m') (stops m'') s.stop_side s'.stop_side);
    }

see_ins-Seen :
    (follow_calls : Bool) (m : Marks) (ins : Ins)
    → Seen follow_calls m (ins ∷ []) (see_ins follow_calls ins m)
unfolding see_ins see_start see_stop
see_ins-Seen true m ins = record {
  start_call = ground arith;
  stop_call = ground arith;
  start_side = record {
    count = ground arith;
    last = λ off. cc;
    calls = λ on. ground (arith, append-nil m.activates);
  };
  stop_side = record {
    count = ground arith;
    last = λ off. cc;
    calls = λ on. ground (arith, append-nil m.deactivates);
  };
}
see_ins-Seen false m ins = record {
  start_call = ground arith;
  stop_call = ground arith;
  start_side = record { count = ground arith; last = λ off. ground arith; calls = λ on. cc };
  stop_side = record { count = ground arith; last = λ off. ground arith; calls = λ on. cc };
}

see_routine-Seen :
    (follow_calls : Bool) (instructions : List Ins) (m : Marks)
    → Seen follow_calls m instructions (see_routine follow_calls instructions m)
unfolding see_routine
see_routine-Seen follow_calls [] m = Seen-nil follow_calls m
see_routine-Seen follow_calls (ins ∷ rest) m =
    let m' = see_ins follow_calls ins m in
    Seen-trans follow_calls m m' (see_routine follow_calls rest m') (ins ∷ []) rest
      (see_ins-Seen follow_calls m ins) (see_routine-Seen follow_calls rest m')

see_section-Seen :
    (follow_calls : Bool) (routines : List (List Ins)) (m : Marks)
    → Seen follow_calls m (flat routines) (see_section follow_calls routines m)
unfolding see_section
see_section-Seen follow_calls [] m = Seen-nil follow_calls m
see_section-Seen follow_calls (rtn ∷ rest) m =
    let m' = see_routine follow_calls rtn m in
    Seen-trans follow_calls m m' (see_section follow_calls rest m') rtn (flat rest)
      (see_routine-Seen follow_calls rtn m) (see_section-Seen follow_calls rest m')

abbrev pub program : Img → List Ins
program img = flat (map flat img.sections)

pub see_sections-Seen :
    (follow_calls : Bool) (sections : List (List (List Ins))) (m : Marks)
    → Seen follow_calls m (flat (map flat sections)) (see_sections follow_calls sections m)
unfolding see_sections
see_sections-Seen follow_calls [] m = Seen-nil follow_calls m
see_sections-Seen follow_calls (sec ∷ rest) m =
    let m' = see_section follow_calls sec m in
    Seen-trans follow_calls m m' (see_sections follow_calls rest m') (flat sec)
      (flat (map flat rest)) (see_section-Seen follow_calls sec m)
      (see_sections-Seen follow_calls rest m')
