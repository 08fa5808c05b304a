-- ===== src/Hash.antt =====
-- src/utils/hash.c and hash.h: a table of items by 32-bit keys. An item is a number, a slot's list is the
-- sequence of its items, and the member `key` of all items is a function. nn_alloc gives memory.
pub mod Slots
pub mod Lookup
pub mod Change
pub mod Removal
mod Tests
use Prim.Native.Nat.{bit_xor}
use nanomsg_copy.Prelude.{
  ℕ, zero, suc, ◌+◌, ◌-◌, ◌*◌, ◌/◌, ◌%◌, ◌^◌, Bool, true, false, not, ◌&&◌, ◌||◌, Option, none,
  some, List, [], ◌∷◌, ◌++◌, has, erase, set, get_or, replicate, update, Outcome, returned, ◌>>=◌,
  ◌>>◌, assert, if◌then◌else◌, ◌==◌, ltb,
}

pub record Hash : Type 0 where
  pub slots : ℕ
  pub items : ℕ
  pub array : List (List ℕ)

-- The statements of nn_hash_key in front of its return.
pub mixed : ℕ → ℕ
mixed key =
    let a = bit_xor (bit_xor key 61) (key / 2 ^ 16) in
    let b = (a + a * 2 ^ 3 % 2 ^ 32) % 2 ^ 32 in
    let c = bit_xor b (b / 2 ^ 4) in let d = c * 668265261 % 2 ^ 32 in bit_xor d (d / 2 ^ 15)

-- nn_hash_key, which returns 0 for every key.
pub hash_key : ℕ → ℕ
hash_key key = let result = mixed key in 0

-- NN_HASH_INITIAL_SLOTS
abbrev initial_slots : ℕ
initial_slots = 32

pub init : Hash
init = record { slots = initial_slots; items = 0; array = replicate initial_slots [] }

abbrev all_empty : List (List ℕ) → Bool
all_empty [] = true
all_empty ([] ∷ ls) = all_empty ls
all_empty ((x ∷ xs) ∷ ls) = false

pub term : Hash → Outcome (Unit {0})
term self = assert (all_empty self.array)

-- The list of a slot. Every index is a remainder by the number of slots.
abbrev pub slot : ℕ → List (List ℕ) → List ℕ
slot i array = get_or array i []

-- The item is in one of the lists.
abbrev pub listed : ℕ → List (List ℕ) → Bool
listed x [] = false
listed x (xs ∷ ls) = has x xs || listed x ls

-- nn_list_insert at the end of the list of a slot.
abbrev pub push_slot : ℕ → ℕ → List (List ℕ) → List (List ℕ)
push_slot i x array = set array i (slot i array ++ x ∷ [])

-- The inner loop of nn_hash_rehash, for one of the old lists, and the outer one.
pub move_items : (ℕ → ℕ) → ℕ → List ℕ → List (List ℕ) → List (List ℕ)
move_items keys slots [] array = array
move_items keys slots (x ∷ xs) array =
    move_items keys slots xs (push_slot (hash_key (keys x) % slots) x array)

pub move_all : (ℕ → ℕ) → ℕ → List (List ℕ) → List (List ℕ) → List (List ℕ)
move_all keys slots [] array = array
move_all keys slots (xs ∷ ls) array = move_all keys slots ls (move_items keys slots xs array)

-- nn_hash_rehash; the number of slots is below 2^31.
pub rehash : (ℕ → ℕ) → Hash → Hash
rehash keys self = record self {
  slots = self.slots * 2;
  array = move_all keys (self.slots * 2) self.array (replicate (self.slots * 2) []);
}

abbrev pub find_key : (ℕ → ℕ) → ℕ → List ℕ → Option ℕ
find_key keys key [] = none
find_key keys key (x ∷ xs) = if keys x == key then some x else find_key keys key xs

abbrev pub is_none : Option ℕ → Bool
is_none none = true
is_none (some x) = false

-- nn_hash_insert. An item that is in a list must not be inserted again.
pub insert : ℕ → ℕ → Hash → (ℕ → ℕ) → Outcome (Hash × (ℕ → ℕ))
insert key item self keys = do
  let i = hash_key key % self.slots
  assert (is_none (find_key keys key (slot i self.array)))
  assert (not (listed item self.array))
  let keys' = update keys item key
  let self' : Hash = record self {
    items = (self.items + 1) % 2 ^ 32;
    array = push_slot i item self.array;
  }
  (if ltb self.slots (self'.items * 2 % 2 ^ 32) && ltb self.slots (2 ^ 31)
      then returned (rehash keys' self', keys')
      else returned (self', keys'))

-- nn_hash_erase. To erase an item from a list that it is not in breaks the list that it is in.
pub remove : ℕ → Hash → (ℕ → ℕ) → Outcome Hash
remove item self keys = do
  let i = hash_key (keys item) % self.slots
  assert (listed item self.array)
  (if has item (slot i self.array)
      then returned (record self {
        items = (self.items + 2 ^ 32 - 1) % 2 ^ 32;
        array = set self.array i (erase item (slot i self.array));
      })
      else Outcome.undefined)

-- nn_hash_get
pub get : ℕ → Hash → (ℕ → ℕ) → Option ℕ
get key self keys = find_key keys key (slot (hash_key key % self.slots) self.array)

-- nn_hash_item_term
pub item_term : ℕ → Hash → Outcome (Unit {0})
item_term item self = assert (not (listed item self.array))
