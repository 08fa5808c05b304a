-- ===== src/Hash/Tests.antt =====
-- The table of src/utils/hash.c with the items 5 and 6.
use nanomsg_copy.Prelude.{
  ℕ, zero, suc, ◌%◌, ◌&&◌, has, Distinct, false, arith, ◌≡◌, refl, none, some, [], ◌∷◌, update,
  returned, ◌==◌, if◌then◌else◌,
}
use nanomsg_copy.Hash.{Hash, insert, get, init, hash_key, mixed, remove, slot, listed}
use nanomsg_copy.Hash.Lookup.{IsHash, init-IsHash}
use nanomsg_copy.Hash.Removal.{IsSimple, get-remove}
use nanomsg_copy.Hash.Change.{get-insert}

abbrev keys : ℕ → ℕ
keys x = 0

empty_get : (key : ℕ) → get key init keys ≡ none
unfolding get init hash_key
empty_get key = refl

get-insert_example :
    (self' : Hash) × (insert 100 5 init keys ≡ returned (self', update keys 5 100))
    × IsHash self' (update keys 5 100)
    × ((k : ℕ) → get k self' (update keys 5 100) ≡ (if k == 100 then some 5 else get k init keys))
unfolding init
get-insert_example = get-insert 100 5 init keys (init-IsHash keys) refl (empty_get 100)

-- All keys are in the first slot.
one_slot : hash_key 100 ≡ hash_key 101
unfolding hash_key
one_slot = refl

-- What nn_hash_key has computed when it returns 0.
lost : mixed 100 ≡ 1938693194
unfolding mixed
lost = refl

abbrev two : Hash
two = record { slots = 2; items = 2; array = (5 ∷ 6 ∷ []) ∷ [] ∷ [] }

removed :
    remove 6 two (update (update keys 5 100) 6 101)
    ≡ returned (record { slots = 2; items = 1; array = (5 ∷ []) ∷ [] ∷ [] })
unfolding remove hash_key
removed = refl

abbrev two_keys : ℕ → ℕ
two_keys = update (update keys 5 100) 6 101

two-placed :
    (x i : ℕ) → has x (slot i two.array) ≡ (listed x two.array && i == hash_key (two_keys x) % 2)
unfolding hash_key
two-placed x zero = ground arith
two-placed x (suc zero) = ground arith
two-placed x (suc (suc i)) = ground arith

two-IsHash : IsHash two two_keys
two-IsHash = record {
  positive = omega arith;
  sized = refl;
  placed = two-placed;
  unique = λ x y l m e. ground (arith, l, m, e);
}

two-distinct : (i : ℕ) → Distinct (slot i two.array)
two-distinct zero = (refl, (refl, tt))
two-distinct (suc zero) = tt
two-distinct (suc (suc i)) = tt

get-remove_example :
    (self' : Hash) × (remove 5 two two_keys ≡ returned self')
    × IsHash self' two_keys
    × IsSimple self'
    × (listed 5 self'.array ≡ false)
    × ((k : ℕ) → get k self' two_keys ≡ (if k == 100 then none else get k two two_keys))
get-remove_example = get-remove 5 two two_keys two-IsHash (record { distinct = two-distinct }) refl
