-- ===== src/Lines/Endless.antt =====
-- When the loop over the tokens of a line in `get_cacheSim_from_file` of cachesim/backend.c ends.
use mathlib.Core.Path.{ap₂, subst}
use pycachesim.Base.{
  ℕ, zero, suc, ◌<◌, ◌≡◌, inl, inr, refl, sym, ap, ◌∙◌, Bool, true, false, Option, some, none, List,
  [], ◌∷◌, ◌++◌, arith, length, Result, ok, Fault, fault, out_of_bounds, out_of_fuel, ◌>>=◌,
  option_case,
}
use pycachesim.CString.{leading, Text, skip, upto, behind, strtok, token_of}
use pycachesim.CString.Cuts.{
  leading-skip, skipped, Cut, whole, cut, any-Cut, strtok_of, all_leading, saved_shorter,
}
use pycachesim.CString.Tokens.{AllOf, NoneOf, strtok-nothing, strtok-next, strtok-last}
use pycachesim.Lines.{pass, read_tokens, setting_of, ends_key, ends_value, ends_token}
use pycachesim.Settings.{Setting}

-- A token without a key, or with a key and no value.
pub data IsHalf : Text → Type 0 where
  no_key : {t : Text} → AllOf ends_key t → IsHalf t
  no_equals :
      (pre : Text) (c : ℕ) (cs : Text)
      → AllOf ends_key pre
      → NoneOf ends_key (c ∷ cs)
      → IsHalf (pre ++ (c ∷ cs))
  no_value :
      (pre : Text) (c : ℕ) (cs rest : Text)
      → AllOf ends_key pre
      → NoneOf ends_key (c ∷ cs)
      → AllOf ends_value rest
      → IsHalf (pre ++ ((c ∷ cs) ++ (b'=' ∷ rest)))

leading-AllOf :
    (is : ℕ → Bool) (pre : Text) (c : ℕ) (cs : Text)
    → AllOf is pre
    → is c ≡ false
    → leading is (pre ++ (c ∷ cs)) ≡ pre
unfolding leading
leading-AllOf is [] c cs all stop = rw stop refl
leading-AllOf is (d ∷ pre) c cs (here, all) stop =
    rw here (ap (◌∷◌ d) (leading-AllOf is pre c cs all stop))

-- A pass on such a token assigns nothing, and the token of the next pass is such a token again.
pass-IsHalf :
    (t saved : Text)
    → IsHalf t
    → (t' : Text) × (pass t saved ≡ ok (none, some t', saved)) × IsHalf t'
unfolding pass
pass-IsHalf t saved (no_key all) = (t, rw (strtok-nothing ends_key t all) refl, no_key all)
pass-IsHalf _ saved (no_equals pre c cs all none_of) = (
  pre ++ (c ∷ cs),
  rw
      (
        strtok-last ends_key pre c cs all none_of,
        strtok-nothing ends_value [] tt,
        leading-AllOf ends_key pre c cs all none_of.0,
      )
      refl,
  no_equals pre c cs all none_of,
)
pass-IsHalf _ saved (no_value pre c cs rest all none_of blank) = (
  pre ++ (c ∷ cs),
  rw
      (
        strtok-next ends_key pre c cs b'=' rest all none_of refl,
        strtok-nothing ends_value rest blank,
        leading-AllOf ends_key pre c (cs ++ (b'=' ∷ rest)) all none_of.0,
      )
      refl,
  no_equals pre c cs all none_of,
)

-- Once the loop has come to a token without a key or without a value it never ends: it is out of fuel
-- whatever the fuel.
pub read_tokens-IsHalf :
    (fuel : ℕ) (t saved : Text) → IsHalf t → read_tokens fuel (some t) saved ≡ fault out_of_fuel
unfolding read_tokens
read_tokens-IsHalf zero t saved half = refl
read_tokens-IsHalf (suc fuel) t saved half =
    let (t', e, half') = pass-IsHalf t saved half in
    rw (e, read_tokens-IsHalf fuel t' saved half') refl

-- What a pass meets: such a token; or a key and a value, and the loop goes on behind the next comma.
data Pass (t saved : Text) : Type 0 where
  half : IsHalf t → Pass t saved
  assigns :
      (key value : Text)
      → pass t saved ≡ (
          setting_of key value >>= λ s.
          option_case
            (strtok ends_token saved)
            (ok (some s, none, []))
            (λ (token', saved'). ok (some s, some token', saved')))
      → Pass t saved

is_equals : (d : ℕ) → ends_key d ≡ true → d ≡ b'='
is_equals d e = ground (arith, e)

module _ (t saved : Text) (c : ℕ) (cs : Text) (e : skip ends_key t ≡ c ∷ cs)
    (stop : ends_key c ≡ false) where
  -- The token in parts.
  in_parts : t ≡ leading ends_key t ++ (c ∷ cs)
  in_parts = (leading-skip ends_key t).1 ∙ ap (◌++◌ (leading ends_key t)) e

  upto_key : upto ends_key (c ∷ cs) ≡ c ∷ upto ends_key cs
  unfolding upto
  upto_key = rw stop refl

  found_key : strtok ends_key t ≡ some (upto ends_key (c ∷ cs), behind ends_key (c ∷ cs))
  unfolding token_of
  found_key = strtok_of ends_key t e

  with_value :
      (d : ℕ)
      → ends_key d ≡ true
      → NoneOf ends_key (upto ends_key (c ∷ cs))
      → c ∷ cs ≡ upto ends_key (c ∷ cs) ++ (d ∷ behind ends_key (c ∷ cs))
      → Pass t saved
  unfolding pass token_of
  with_value d delim none_of parts = elim (skipped ends_value (behind ends_key (c ∷ cs))) [
    | inl nil ↦ half (
        subst IsHalf
          (sym (
            in_parts
            ∙ ap (◌++◌ (leading ends_key t)) (
                parts
                ∙ ap₂ (λ k x. k ++ (x ∷ behind ends_key (c ∷ cs))) upto_key (is_equals d delim))))
          (no_value (leading ends_key t) c (upto ends_key cs) (behind ends_key (c ∷ cs))
            (leading-skip ends_key t).0 (subst (NoneOf ends_key) upto_key none_of)
            (all_leading ends_value (behind ends_key (c ∷ cs)) nil)))
    | inr (v, vs, at, go) ↦
        assigns (upto ends_key (c ∷ cs)) (upto ends_value (v ∷ vs))
          (rw (found_key, strtok_of ends_value (behind ends_key (c ∷ cs)) at) refl)
  ]

  with_key : Pass t saved
  with_key = from_cut (any-Cut ends_key (c ∷ cs))
    where
      from_cut : Cut ends_key (c ∷ cs) → Pass t saved
      from_cut (whole none_of nothing) = half (
          subst IsHalf (sym in_parts)
            (no_equals (leading ends_key t) c cs (leading-skip ends_key t).0 none_of))
      from_cut (cut d delim none_of parts) = with_value d delim none_of parts

meets-Pass : (t saved : Text) → Pass t saved
meets-Pass t saved = elim (skipped ends_key t) [
  | inl nil ↦ half (no_key (all_leading ends_key t nil))
  | inr (c, cs, e, stop) ↦ with_key t saved c cs e stop
]

abbrev fault_of : {A : Type 0} → Result A → Fault
fault_of (ok a) = out_of_bounds
fault_of (fault x) = x

-- The result of the other passes that a pass is put in front of.
bind-out_of_fuel :
    {A B : Type 0} (m : Result A) (f : A → B)
    → (m >>= λ a. ok (f a)) ≡ fault out_of_fuel
    → m ≡ fault out_of_fuel
bind-out_of_fuel (ok a) f e = cc
bind-out_of_fuel (fault x) f e = ap (λ r. fault (fault_of r)) e

-- A pass that assigns, in front of other passes.
abbrev then_others :
    Result Setting
    → Option (Text × Text)
    → (Option Text → Text → Result (List Setting))
    → Result (List Setting)
then_others m next others = do
  (s, token, saved) ←
      m >>= λ s. option_case next (ok (some s, none, [])) (λ (t, saved). ok (some s, some t, saved))
  rest ← others token saved
  ok (option_case s rest (λ x. x ∷ rest))

out_of_fuel_both :
    (m : Result Setting) (next : Option (Text × Text))
    (others others' : Option Text → Text → Result (List Setting))
    → ((saved : Text) → others none saved ≡ ok [])
    → ((t saved : Text)
        → next ≡ some (t, saved)
        → others (some t) saved ≡ fault out_of_fuel
        → others' (some t) saved ≡ fault out_of_fuel)
    → then_others m next others ≡ fault out_of_fuel
    → then_others m next others' ≡ fault out_of_fuel
out_of_fuel_both (fault x) next others others' ends imply e = e
out_of_fuel_both (ok s) none others others' ends imply e = let e' = rw (ends []) at e in cc
out_of_fuel_both (ok s) (some (t, saved)) others others' ends imply e =
    rw (imply t saved refl (bind-out_of_fuel (others (some t) saved) (λ rest. s ∷ rest) e)) refl

-- With one pass more than there are bytes saved, the loop over the tokens of a line is out of fuel only if
-- it never ends: then it is out of fuel whatever the fuel.
pub read_tokens-enough :
    (fuel : ℕ) (t saved : Text)
    → length saved < fuel
    → read_tokens fuel (some t) saved ≡ fault out_of_fuel
    → (more : ℕ) → read_tokens more (some t) saved ≡ fault out_of_fuel
unfolding read_tokens
read_tokens-enough zero t saved h e more = absurd (omega arith)
read_tokens-enough (suc fuel) t saved h e zero = refl
read_tokens-enough (suc fuel) t saved h e (suc more) =
    go (λ t' saved' h' e'. read_tokens-enough fuel t' saved' h' e' more) (meets-Pass t saved)
  where
    go :
        ((t' saved' : Text)
          → length saved' < fuel
          → read_tokens fuel (some t') saved' ≡ fault out_of_fuel
          → read_tokens more (some t') saved' ≡ fault out_of_fuel)
        → Pass t saved
        → read_tokens (suc more) (some t) saved ≡ fault out_of_fuel
    go again (half is_half) = read_tokens-IsHalf (suc more) t saved is_half
    go again (assigns key value passes) =
        let e' = rw passes at e in
        rw passes (
          out_of_fuel_both (setting_of key value) (strtok ends_token saved) (read_tokens fuel)
            (read_tokens more) (λ saved'. refl)
            (λ t' saved' next e''.
              let less = saved_shorter ends_token saved t' saved' next in
              again t' saved' (omega arith) e'')
            e')
