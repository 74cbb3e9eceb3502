-- ===== src/Init/Fresh.antt =====
-- The memory that `Cache_init` of cachesim/backend.c allocates: the entries and the bits.
use pycachesim.Base.{
  ℕ, zero, suc, ◌+◌, ◌*◌, ◌≤◌, ◌<◌, ◌≡◌, refl, ap, ◌∙◌, Bool, true, false, ◌&&◌, not, Option, none,
  some, List, arith, ltb, if◌then◌else◌, length, get_elem?, ok, ◌>>=◌, Returns, returns, bind,
  weaken,
}
use pycachesim.Bits.{bitnslots, bittest}
use pycachesim.Bits.Laws.{IsChars, bitclear-IsUpdate}
use pycachesim.Cache.{Entry}
use pycachesim.Init.{fresh_entries, fresh_chars, clear_bits, new_bits}

module _ (memory : ℕ → ℕ) where
  pub length-fresh_entries : (n i : ℕ) → length (fresh_entries memory n i) ≡ n
  unfolding fresh_entries
  length-fresh_entries zero i = refl
  length-fresh_entries (suc n) i = ap suc (length-fresh_entries n (i + 1))

  pub fresh_entries-invalid :
      (n i k : ℕ) (e : Entry) → get_elem? (fresh_entries memory n i) k ≡ some e → e.invalid ≡ true
  unfolding fresh_entries
  fresh_entries-invalid zero i k e at = cc
  fresh_entries-invalid (suc n) i zero e at = ground (arith, at)
  fresh_entries-invalid (suc n) i (suc k) e at = fresh_entries-invalid n (i + 1) k e at

  pub length-fresh_chars : (n i : ℕ) → length (fresh_chars memory n i) ≡ n
  unfolding fresh_chars
  length-fresh_chars zero i = refl
  length-fresh_chars (suc n) i = ap suc (length-fresh_chars n (i + 1))

  fresh_chars-IsChars : ((i : ℕ) → memory i < 256) → (n i : ℕ) → IsChars (fresh_chars memory n i)
  unfolding fresh_chars
  fresh_chars-IsChars h zero i k x at = cc
  fresh_chars-IsChars h (suc n) i zero x at = let lt = h i in ground (arith, at)
  fresh_chars-IsChars h (suc n) i (suc k) x at = fresh_chars-IsChars h n (i + 1) k x at

-- `a'` is `a` with the bits from `i` to `i + n - 1` clear.
pub record IsCleared (a : List ℕ) (i n : ℕ) (a' : List ℕ) : Type 0 where
  pub chars : IsChars a'
  pub size : length a' ≡ length a
  pub bits :
      (c : ℕ) → bittest a' c ≡ (if ltb c (i + n) && not (ltb c i) then ok false else bittest a c)

clear_bits-IsCleared :
    (n i : ℕ) (a : List ℕ)
    → IsChars a
    → i + n ≤ 8 * length a
    → Returns (IsCleared a i n) (clear_bits n i a)
unfolding clear_bits
clear_bits-IsCleared zero i a chars h =
    returns (record { chars = chars; size = refl; bits = λ c. ground arith })
clear_bits-IsCleared (suc n) i a chars h = bind (bitclear-IsUpdate a i chars (omega arith)) (λ a₁ u.
    let size = u.size in
    weaken (clear_bits-IsCleared n (i + 1) a₁ u.chars (omega arith)) (λ a' k. record {
      chars = k.chars;
      size = k.size ∙ u.size;
      bits = λ c. ground (arith, k.bits c, u.bits c);
    }))

-- Of the memory for `n` bits the loop clears as many bits as there are chars, from the first on; the
-- other bits are those that the memory held.
pub new_bits-IsCleared :
    (chars : ℕ → ℕ) (n : ℕ)
    → ((i : ℕ) → chars i < 256)
    → Returns
        (λ a.
          (length a ≡ bitnslots n)
          × IsCleared (fresh_chars chars (bitnslots n) 0) 0 (bitnslots n) a)
        (new_bits chars n)
unfolding new_bits
new_bits-IsCleared chars n h =
    let size = length-fresh_chars chars (bitnslots n) 0 in
    weaken
      (clear_bits-IsCleared (bitnslots n) 0 (fresh_chars chars (bitnslots n) 0)
        (fresh_chars-IsChars chars h (bitnslots n) 0) (omega arith))
      (λ a k. (k.size ∙ size, k))

-- A bit field of at least `n` bits if it is needed, and else NULL.
pub record HasBits (needed : Bool) (n : ℕ) (field : Option (List ℕ)) : Type 0 where
  pub there : needed ≡ true → (a : List ℕ) × (field ≡ some a) × IsChars a × (n ≤ 8 * length a)
  pub absent : needed ≡ false → field ≡ none

pub field-HasBits :
    (chars : ℕ → ℕ) (needed : Bool) (n : ℕ)
    → ((i : ℕ) → chars i < 256)
    → Returns
        (HasBits needed n)
        (if needed then (do a ← new_bits chars n; ok (some a)) else ok none)
field-HasBits chars true n are_chars = bind (new_bits-IsCleared chars n are_chars) (λ a (size, k).
    returns (record { there = λ on. (a, refl, k.chars, omega arith); absent = λ off. cc }))
field-HasBits chars false n are_chars =
    returns (record { there = λ on. absurd_bits on; absent = λ off. refl })
  where
    absurd_bits : {P : Type 0} → false ≡ true → P
    absurd_bits e = cc
