-- ===== src/Api/Accesses.antt =====
-- `Cache_loadstore` of cachesim/backend.c next to a description of it as a sequence of accesses.
use pycachesim.Base.{
  ℕ, ◌≡◌, refl, sym, ap, ◌∙◌, false, Option, none, some, List, [], ◌∷◌, ◌++◌, Result, ok, fault,
  ◌>>=◌, option_case, >>=-congr,
}
use pycachesim.Api.{
  Error, no_sequence, wrong_length, no_load_sequence, no_store_sequence, load_not_iterable,
  store_not_iterable, Addrs, is_none, no_addrs, no_iterator, addrs, Item, no_item, odd_item, pair,
  load_all, store_all, load_part, store_part, loadstore_item, loadstore_items, loadstore,
}
use pycachesim.Hierarchy.{Sim, Ops}

-- One access to a cache.
pub data Access : Type 0 where
  load_at : ℕ → Access
  store_at : ℕ → Access

abbrev pub loads_at : List ℕ → List Access
loads_at [] = []
loads_at (a ∷ rest) = load_at a ∷ loads_at rest

abbrev pub stores_at : List ℕ → List Access
stores_at [] = []
stores_at (a ∷ rest) = store_at a ∷ stores_at rest

-- The error of an item, and the accesses that are made for it.
abbrev pub store_error : Addrs → Option Error
store_error no_addrs = some no_store_sequence
store_error no_iterator = some store_not_iterable
store_error is_none = none
store_error (addrs a) = none

abbrev pub item_error : Item → Option Error
item_error no_item = some no_sequence
item_error odd_item = some wrong_length
item_error (pair no_addrs stores) = some no_load_sequence
item_error (pair no_iterator stores) = some load_not_iterable
item_error (pair is_none stores) = store_error stores
item_error (pair (addrs a) stores) = store_error stores

abbrev pub store_accesses : Addrs → List Access
store_accesses (addrs a) = stores_at a
store_accesses is_none = []
store_accesses no_addrs = []
store_accesses no_iterator = []

abbrev pub item_accesses : Item → List Access
item_accesses no_item = []
item_accesses odd_item = []
item_accesses (pair no_addrs stores) = []
item_accesses (pair no_iterator stores) = []
item_accesses (pair is_none stores) = store_accesses stores
item_accesses (pair (addrs a) stores) = loads_at a ++ store_accesses stores

-- The first error of a list of items, and the accesses up to it.
abbrev pub first_error : List Item → Option Error
first_error [] = none
first_error (item ∷ rest) = option_case (item_error item) (first_error rest) some

abbrev pub accesses : List Item → List Access
accesses [] = []
accesses (item ∷ rest) =
    option_case (item_error item) (item_accesses item ++ accesses rest) (λ _. item_accesses item)

module _ (calls : Ops) (p length : ℕ) where
  -- The accesses in order, each of `length` bytes.
  abbrev pub run_accesses : Sim → List Access → Result Sim
  run_accesses s [] = ok s
  run_accesses s (load_at a ∷ rest) = do
    (_, s') ← calls.load s p (record { addr = a; length = length })
    run_accesses s' rest
  run_accesses s (store_at a ∷ rest) = do
    s' ← calls.store s p (record { addr = a; length = length }) false
    run_accesses s' rest

  abbrev raise : Option Error → Sim → Result (Option Error × Sim)
  raise e t = ok (e, t)

  >>=-assoc :
      {A B C : Type 0} (m : Result A) (f : A → Result B) (g : B → Result C)
      → (m >>= f >>= g) ≡ (m >>= λ a. f a >>= g)
  >>=-assoc (ok a) f g = refl
  >>=-assoc (fault e) f g = refl

  >>=-ok : {A : Type 0} (m : Result A) → (m >>= λ a. ok a) ≡ m
  >>=-ok (ok a) = refl
  >>=-ok (fault e) = refl

  run-append :
      (s : Sim) (xs ys : List Access)
      → run_accesses s (xs ++ ys) ≡ (run_accesses s xs >>= λ t. run_accesses t ys)
  run-append s [] ys = refl
  run-append s (load_at a ∷ rest) ys =
      >>=-congr (calls.load s p (record { addr = a; length = length }))
        (λ r. run-append r.1 rest ys)
      ∙ sym (
          >>=-assoc (calls.load s p (record { addr = a; length = length }))
            (λ r. run_accesses r.1 rest) (λ t. run_accesses t ys))
  run-append s (store_at a ∷ rest) ys =
      >>=-congr (calls.store s p (record { addr = a; length = length }) false)
        (λ t. run-append t rest ys)
      ∙ sym (
          >>=-assoc (calls.store s p (record { addr = a; length = length }) false)
            (λ t. run_accesses t rest) (λ t. run_accesses t ys))

  load_all-run :
      (s : Sim) (xs : List ℕ) → load_all calls p length s xs ≡ run_accesses s (loads_at xs)
  unfolding load_all
  load_all-run s [] = refl
  load_all-run s (a ∷ rest) =
      >>=-congr (calls.load s p (record { addr = a; length = length })) (λ r. load_all-run r.1 rest)

  store_all-run :
      (s : Sim) (xs : List ℕ) → store_all calls p length s xs ≡ run_accesses s (stores_at xs)
  unfolding store_all
  store_all-run s [] = refl
  store_all-run s (a ∷ rest) =
      >>=-congr (calls.store s p (record { addr = a; length = length }) false)
        (λ t. store_all-run t rest)

  store_part-run :
      (s : Sim) (stores : Addrs)
      → store_part calls p length s stores
        ≡ (run_accesses s (store_accesses stores) >>= λ t. ok (store_error stores, t))
  unfolding store_part
  store_part-run s is_none = refl
  store_part-run s no_addrs = refl
  store_part-run s no_iterator = refl
  store_part-run s (addrs a) = ap (λ m. m >>= λ t. ok (none, t)) (store_all-run s a)

  loadstore_item-run :
      (s : Sim) (item : Item)
      → loadstore_item calls p length s item
        ≡ (run_accesses s (item_accesses item) >>= λ t. ok (item_error item, t))
  unfolding loadstore_item load_part
  loadstore_item-run s no_item = refl
  loadstore_item-run s odd_item = refl
  loadstore_item-run s (pair no_addrs stores) = refl
  loadstore_item-run s (pair no_iterator stores) = refl
  loadstore_item-run s (pair is_none stores) = store_part-run s stores
  loadstore_item-run s (pair (addrs a) stores) =
      ap (λ m. m >>= raise none >>= next_part) (load_all-run s a)
      ∙ >>=-assoc (run_accesses s (loads_at a)) (raise none) next_part
      ∙ >>=-congr (run_accesses s (loads_at a)) (λ t. store_part-run t stores)
      ∙ sym (>>=-assoc (run_accesses s (loads_at a)) store_run (raise (store_error stores)))
      ∙ sym (
          ap (λ m. m >>= raise (store_error stores))
            (run-append s (loads_at a) (store_accesses stores)))
    where
      store_run : Sim → Result Sim
      store_run t = run_accesses t (store_accesses stores)

      next_part : Option Error × Sim → Result (Option Error × Sim)
      next_part (e, t) = option_case e (store_part calls p length t stores) (λ e'. ok (some e', t))

  loadstore_items-run :
      (s : Sim) (items : List Item)
      → loadstore_items calls p length s items
        ≡ (run_accesses s (accesses items) >>= raise (first_error items))
  unfolding loadstore_items
  loadstore_items-run s [] = refl
  loadstore_items-run s (item ∷ rest) =
      ap (λ m. m >>= next_item) (loadstore_item-run s item)
      ∙ >>=-assoc (run_accesses s (item_accesses item)) (raise (item_error item)) next_item
      ∙ by_error (item_error item) (λ t. loadstore_items-run t rest)
    where
      next_item : Option Error × Sim → Result (Option Error × Sim)
      next_item (e, t) =
          option_case e (loadstore_items calls p length t rest) (λ e'. ok (some e', t))

      rest_run : Sim → Result Sim
      rest_run t = run_accesses t (accesses rest)

      by_error :
          (e : Option Error)
          → ((t : Sim)
              → loadstore_items calls p length t rest
                ≡ (run_accesses t (accesses rest) >>= raise (first_error rest)))
          → (run_accesses s (item_accesses item) >>= λ t. next_item (e, t)) ≡ (
              run_accesses s
                (option_case e (item_accesses item ++ accesses rest) (λ _. item_accesses item))
              >>= raise (option_case e (first_error rest) some))
      by_error none ih =
          >>=-congr (run_accesses s (item_accesses item)) ih
          ∙ sym
              (>>=-assoc (run_accesses s (item_accesses item)) rest_run (raise (first_error rest)))
          ∙ sym (
              ap (λ m. m >>= raise (first_error rest))
                (run-append s (item_accesses item) (accesses rest)))
      by_error (some e) ih = refl

  -- On every hierarchy, `Cache_loadstore` makes the accesses of its items up to the first malformed one,
  -- in their order, and raises the error of that item; if a call faults, so does it.
  pub loadstore-run :
      (s : Sim) (items : List Item)
      → loadstore calls p length s (some items)
        ≡ (run_accesses s (accesses items) >>= λ t. ok (first_error items, t))
  unfolding loadstore
  loadstore-run s items = loadstore_items-run s items
