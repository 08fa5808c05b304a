-- ===== src/Hash/Change.antt =====
-- nn_hash_insert and nn_hash_rehash of src/utils/hash.c.
use nanomsg_copy.Prelude.{
  ℕ, ◌+◌, ◌*◌, ◌%◌, ◌^◌, ◌<◌, ◌≡◌, ◌≢◌, inl, inr, refl, sym, ap, ◌∙◌, true, false, Bool-cases, ◌&&◌,
  ◌||◌, none, some, List, [], has, length, length-replicate, replicate, ◌==◌, ltb, if◌then◌else◌,
  arith, update, update_self, update_ne, Outcome, returned,
}
use native.Mathlib.Nat.{mod-lt}
use nanomsg_copy.Hash.{Hash, hash_key, slot, listed, push_slot, rehash, insert, get}
use nanomsg_copy.Hash.Slots.{
  slot-push, listed-push, length-push, length-move_all, slot-move_all, listed-move_all,
  slot-replicate, listed-replicate,
}
use nanomsg_copy.Hash.Lookup.{IsHash, get-cases, get-some, get-none}

rehash-listed :
    (keys : ℕ → ℕ) (self : Hash) (x : ℕ)
    → IsHash self keys
    → listed x (rehash keys self).array ≡ listed x self.array
unfolding rehash
rehash-listed keys self x h =
    let n = self.slots * 2 in
    listed-move_all keys n (omega (arith, h.positive)) self.array (replicate n []) x
      (length-replicate n [])
    ∙ rw (listed-replicate x n) refl

-- nn_hash_rehash keeps the items, and puts each into the slot of its key.
pub rehash-IsHash : (keys : ℕ → ℕ) (self : Hash) → IsHash self keys → IsHash (rehash keys self) keys
unfolding rehash
rehash-IsHash keys self h =
    let n = self.slots * 2 in
    let positive : 0 < n = omega (arith, h.positive) in
    record {
      positive = positive;
      sized = length-move_all keys n positive self.array (replicate n []) ∙ length-replicate n [];
      placed = λ x i.
          slot-move_all keys n positive self.array (replicate n []) x i (length-replicate n [])
          ∙ rw (slot-replicate n i, rehash-listed keys self x h) refl;
      unique = λ x y l m e.
          h.unique x y (sym (rehash-listed keys self x h) ∙ l)
            (sym (rehash-listed keys self y h) ∙ m) e;
    }

none-ne-some : (x : ℕ) → none ≢ some x
none-ne-some x e = cc

-- The table behind the first half of nn_hash_insert.
abbrev with_item : ℕ → ℕ → Hash → Hash
with_item key item self = record self {
  items = (self.items + 1) % 2 ^ 32;
  array = push_slot (hash_key key % self.slots) item self.array;
}

placed_item :
    (key item : ℕ) (self : Hash) (keys : ℕ → ℕ)
    → IsHash self keys
    → listed item self.array ≡ false
    → hash_key key % self.slots < length self.array
    → (j : ℕ)
    → has item (slot j (with_item key item self).array) ≡ (
        listed item (with_item key item self).array
        && j == hash_key (update keys item key item) % self.slots)
placed_item key item self keys h new inside j =
    let i = hash_key key % self.slots in
    ground (
      arith,
      ap (λ (q : ℕ). hash_key q % self.slots) (update_self keys item key),
      slot-push i item self.array item j inside,
      listed-push i item self.array item inside,
      h.placed item j,
      new,
    )

get-apart :
    (key : ℕ) (self : Hash) (keys : ℕ → ℕ)
    → IsHash self keys
    → get key self keys ≡ none
    → (x : ℕ) → listed x self.array ≡ true
    → keys x ≢ key
get-apart key self keys h free = elim (get-cases key self keys h) [
  | inl (f, apart) ↦ apart
  | inr (x, f, l, k) ↦ absurd (none-ne-some x (sym free ∙ f))
]

with_item_unique :
    (key item : ℕ) (self : Hash) (keys : ℕ → ℕ)
    → IsHash self keys
    → get key self keys ≡ none
    → hash_key key % self.slots < length self.array
    → (x y : ℕ) → listed x (with_item key item self).array ≡ true
    → listed y (with_item key item self).array ≡ true
    → update keys item key x ≡ update keys item key y
    → x ≡ y
with_item_unique key item self keys h free inside x y l m e =
    let i = hash_key key % self.slots in
    ground (
      arith,
      l,
      m,
      e,
      listed-push i item self.array x inside,
      listed-push i item self.array y inside,
      get-apart key self keys h free x,
      get-apart key self keys h free y,
      h.unique x y,
    )

with_item-IsHash :
    (key item : ℕ) (self : Hash) (keys : ℕ → ℕ)
    → IsHash self keys
    → listed item self.array ≡ false
    → get key self keys ≡ none
    → IsHash (with_item key item self) (update keys item key)
with_item-IsHash key item self keys h new free =
    let i = hash_key key % self.slots in
    let inside : i < length self.array = rw h.sized (mod-lt (hash_key key) h.positive) in
    record {
      positive = h.positive;
      sized = length-push i item self.array ∙ h.sized;
      placed = λ x j. elim (Bool-cases (x == item)) [
        | inl e ↦
            let same : x ≡ item = ground (arith, e) in
            rw same (placed_item key item self keys h new inside j)
        | inr e ↦
            let ne : item ≢ x = ground (arith, e) in
            let index = ap (λ (q : ℕ). hash_key q % self.slots) (update_ne keys item key x ne) in
            ground (
              arith,
              e,
              index,
              slot-push i item self.array x j inside,
              listed-push i item self.array x inside,
              h.placed x j,
            )
      ];
      unique = with_item_unique key item self keys h free inside;
    }

listed-ne :
    (a b : ℕ) (array : List (List ℕ)) → listed a array ≡ false → listed b array ≡ true → a ≢ b
listed-ne a b array h k e = cc (ap (λ p. listed p array) e, h, k)

-- What nn_hash_get gives in a table that has one more item.
get-more :
    (k key item : ℕ) (self more : Hash) (keys : ℕ → ℕ)
    → IsHash self keys
    → IsHash more (update keys item key)
    → listed item self.array ≡ false
    → ((x : ℕ) → listed x more.array ≡ (listed x self.array || x == item))
    → get k more (update keys item key) ≡ (if k == key then some item else get k self keys)
get-more k key item self more keys h h' new all =
    let keys' = update keys item key in
    elim (Bool-cases (k == key)) [
      | inl e ↦
          let same : keys' item ≡ k = ground (arith, e, update_self keys item key) in
          rw e (
            rw (← ap (λ (q : ℕ). get q more keys') same)
              (get-some item more keys' h' (ground (arith, all item))))
      | inr e ↦ elim (get-cases k self keys h) [
        | inl (f, apart) ↦
            rw (e, f) (get-none k more keys' h' (λ x l. ground (arith, e, all x, l, apart x)))
        | inr (x, f, l, m) ↦
            let ne : item ≢ x = ground (arith, l, new, listed-ne item x self.array new l) in
            let same : keys' x ≡ k = update_ne keys item key x ne ∙ m in
            rw (e, f)
              (rw (← ap (λ (q : ℕ). get q more keys') same)
                (get-some x more keys' h' (ground (arith, all x, l))))
      ]
    ]

insert-steps :
    (key item : ℕ) (self : Hash) (keys : ℕ → ℕ)
    → get key self keys ≡ none
    → listed item self.array ≡ false
    → insert key item self keys ≡ (
        let self1 = with_item key item self in
        if ltb self.slots (self1.items * 2 % 2 ^ 32) && ltb self.slots (2 ^ 31)
        then returned (rehash (update keys item key) self1, update keys item key)
        else returned (self1, update keys item key))
unfolding insert get
insert-steps key item self keys f new = rw (f, new) refl

-- nn_hash_insert of an item that is in no list, under a key that the table does not have, returns: each
-- item still lies in the slot of its key and no two have one key, whether or not the table is rehashed,
-- and nn_hash_get gives the new item for its key and for every other key what it gave before.
pub get-insert :
    (key item : ℕ) (self : Hash) (keys : ℕ → ℕ)
    → IsHash self keys
    → listed item self.array ≡ false
    → get key self keys ≡ none
    → (self' : Hash) × (insert key item self keys ≡ returned (self', update keys item key))
      × IsHash self' (update keys item key)
      × ((k : ℕ)
          → get k self' (update keys item key) ≡ (if k == key then some item else get k self keys))
get-insert key item self keys h new f =
    let self1 = with_item key item self in
    let keys' = update keys item key in
    let h1 = with_item-IsHash key item self keys h new f in
    let inside : hash_key key % self.slots < length self.array =
      rw h.sized (mod-lt (hash_key key) h.positive) in
    let all = λ (x : ℕ). listed-push (hash_key key % self.slots) item self.array x inside in
    let call = insert-steps key item self keys f new in
    elim (Bool-cases (ltb self.slots (self1.items * 2 % 2 ^ 32) && ltb self.slots (2 ^ 31))) [
      | inl e ↦ (
        rehash keys' self1,
        call ∙ rw e refl,
        rehash-IsHash keys' self1 h1,
        λ k.
            get-more k key item self (rehash keys' self1) keys h (rehash-IsHash keys' self1 h1) new
              (λ x. rehash-listed keys' self1 x h1 ∙ all x),
      )
      | inr e ↦ (self1, call ∙ rw e refl, h1, λ k. get-more k key item self self1 keys h h1 new all)
    ]

-- nn_hash_insert under a key that the table has aborts.
pub insert-duplicate :
    (key item x : ℕ) (self : Hash) (keys : ℕ → ℕ)
    → get key self keys ≡ some x
    → insert key item self keys ≡ Outcome.abort
unfolding insert get
insert-duplicate key item x self keys f = rw f refl
