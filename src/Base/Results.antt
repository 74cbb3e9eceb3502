-- ===== src/Base/Results.antt =====
-- Results that may be faults: what the C program must not do (a read outside an array, a null
-- pointer, a division by zero), and the end of the fuel.
use Prim.Native.Nat.{ℕ, ◌<◌}
use mathlib.Core.Path.{◌≡◌, refl, ap}
use mathlib.Core.Bool.{Bool, true, false}
use mathlib.Core.List.{List}
use mathlib.Core.Option.{Option, none, some}
use pycachesim.Base.Tests.{if◌then◌else◌}
use pycachesim.Base.Lists.{get_elem?, set, length, get_elem?_of_lt}

pub data Fault : Type 0 where
  out_of_bounds null_pointer division_by_zero out_of_fuel out_of_range uninitialized
        use_after_free :
      Fault

pub data Result {ℓ} (A : Type ℓ) : Type ℓ where
  ok : A → Result A
  fault : Fault → Result A

infixl 5 ◌>>=◌
abbrev pub ◌>>=◌ {ℓ κ} : {A : Type ℓ} {B : Type κ} → Result A → (A → Result B) → Result B
ok a >>= f = f a
fault e >>= f = fault e

-- `some a`, or the fault that its absence is.
abbrev pub require {ℓ} : {A : Type ℓ} → Fault → Option A → Result A
require e none = fault e
require e (some a) = ok a

-- A test of a pointer, or of another value that may be absent.
abbrev pub option_case {ℓ κ} : {A : Type ℓ} {B : Type κ} → Option A → B → (A → B) → B
option_case none n f = n
option_case (some a) n f = f a

-- A read and a write of an array element.
abbrev pub read {ℓ} : {A : Type ℓ} → List A → ℕ → Result A
read xs i = require out_of_bounds (get_elem? xs i)

abbrev pub write {ℓ} : {A : Type ℓ} → List A → ℕ → A → Result (List A)
write xs i a = do _ ← read xs i; ok (set xs i a)

-- A run that returns, with what then holds of its result.
pub data Returns {A : Type 0} (P : A → Type 0) : Result A → Type 0 where
  returns : {a : A} → P a → Returns P (ok a)

module _ {A : Type 0} {P : A → Type 0} where
  pub bind :
      {B : Type 0} {Q : B → Type 0} {m : Result A} {f : A → Result B}
      → Returns P m
      → ((a : A) → P a → Returns Q (f a))
      → Returns Q (m >>= f)
  bind (returns p) next = next _ p

  pub weaken : {Q : A → Type 0} {m : Result A} → Returns P m → ((a : A) → P a → Q a) → Returns Q m
  weaken (returns p) next = returns (next _ p)

  pub result : {m : Result A} → Returns P m → (a : A) × (m ≡ ok a) × P a
  result (returns {a} p) = (a, refl, p)

pub Returns_of_ok :
    {A : Type 0} {P : A → Type 0} {m : Result A} (a : A) → m ≡ ok a → P a → Returns P m
Returns_of_ok {P} {m} a e p = rw e (returns p)

pub read_of_lt :
    {A : Type 0} (xs : List A) (i : ℕ)
    → i < length xs
    → Returns (λ a. get_elem? xs i ≡ some a) (read xs i)
read_of_lt xs i h =
    let (a, e) = get_elem?_of_lt xs i h in
    Returns_of_ok {P = λ b. get_elem? xs i ≡ some b} a (ap (require out_of_bounds) e) e

pub write_of_lt :
    {A : Type 0} (xs : List A) (i : ℕ) (a : A) → i < length xs → write xs i a ≡ ok (set xs i a)
write_of_lt xs i a h = let (b, e) = get_elem?_of_lt xs i h in rw e

-- A branch returns if both of its sides do, each under its condition.
pub if-Returns :
    {A : Type 0} {P : A → Type 0} {x y : Result A} (b : Bool)
    → (b ≡ true → Returns P x)
    → (b ≡ false → Returns P y)
    → Returns P (if b then x else y)
if-Returns true h k = h refl
if-Returns false h k = k refl

pub option_case-Returns :
    {A B : Type 0} {P : B → Type 0} {n : Result B} {f : A → Result B} (o : Option A)
    → (o ≡ none → Returns P n)
    → ((a : A) → o ≡ some a → Returns P (f a))
    → Returns P (option_case o n f)
option_case-Returns none h k = h refl
option_case-Returns (some a) h k = k a refl

pub >>=-congr {ℓ κ} :
    {A : Type ℓ} {B : Type κ} (m : Result A) {f g : A → Result B}
    → ((a : A) → f a ≡ g a)
    → (m >>= f) ≡ (m >>= g)
>>=-congr (ok a) h = h a
>>=-congr (fault e) h = refl

-- Two facts about one run.
pub Returns-both :
    {A : Type 0} {P Q : A → Type 0} {m : Result A}
    → Returns P m
    → Returns Q m
    → Returns (λ a. P a × Q a) m
Returns-both {m = ok a} (returns p) (returns q) = returns (p, q)
Returns-both {m = fault e} p q = elim p [ ]
