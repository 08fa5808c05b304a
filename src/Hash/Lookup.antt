-- ===== src/Hash/Lookup.antt =====
-- nn_hash_get of src/utils/hash.c, as a function of the items in the table and their keys alone.
use nanomsg_copy.Prelude.{
  ℕ, ◌%◌, ◌<◌, ◌≡◌, ◌≢◌, ◌⊎◌, inl, inr, refl, sym, ap, ◌∙◌, true, false, Bool-cases, ◌&&◌, none,
  some, List, [], ◌∷◌, has, length, length-replicate, ◌==◌, arith,
}
use nanomsg_copy.Hash.{Hash, hash_key, slot, listed, find_key, get, init}
use nanomsg_copy.Hash.Slots.{slot-replicate, listed-replicate}

-- Each item lies in the slot of its key, and no two have the same key.
pub record IsHash (self : Hash) (keys : ℕ → ℕ) : Type 0 where
  pub positive : 0 < self.slots
  pub sized : length self.array ≡ self.slots
  pub placed :
      (x i : ℕ)
      → has x (slot i self.array) ≡ (listed x self.array && i == hash_key (keys x) % self.slots)
  pub unique :
      (x y : ℕ) → listed x self.array ≡ true → listed y self.array ≡ true → keys x ≡ keys y → x ≡ y

find_key-cases :
    (keys : ℕ → ℕ) (key : ℕ) (xs : List ℕ)
    → ((find_key keys key xs ≡ none) × ((x : ℕ) → has x xs ≡ true → keys x ≢ key))
      ⊎ ((x : ℕ) × (find_key keys key xs ≡ some x) × (has x xs ≡ true) × (keys x ≡ key))
find_key-cases keys key [] = inl (refl, λ x h. cc)
find_key-cases keys key (x ∷ xs) = elim (Bool-cases (keys x == key)) [
  | inl e ↦ inr (x, rw e refl, ground arith, ground (arith, e))
  | inr e ↦ elim (find_key-cases keys key xs) [
    | inl (f, apart) ↦ inl (
      rw (e, f) refl,
      λ y h. elim (Bool-cases (x == y)) [
        | inl s ↦
            let same : x ≡ y = ground (arith, s) in
            let ne : keys x ≢ key = ground (arith, e) in rw (← ap keys same) ne
        | inr s ↦ apart y (ground (arith, h, s))
      ],
    )
    | inr (y, f, h, k) ↦ inr (y, rw (e, f) refl, ground (arith, h), k)
  ]
]

-- What nn_hash_get gives.
pub get-cases :
    (key : ℕ) (self : Hash) (keys : ℕ → ℕ)
    → IsHash self keys
    → ((get key self keys ≡ none) × ((x : ℕ) → listed x self.array ≡ true → keys x ≢ key))
      ⊎ ((x : ℕ) × (get key self keys ≡ some x) × (listed x self.array ≡ true) × (keys x ≡ key))
unfolding get
get-cases key self keys h =
    let i = hash_key key % self.slots in
    elim (find_key-cases keys key (slot i self.array)) [
      | inl (f, apart) ↦ inl (
        f,
        λ x l k.
            let same : hash_key (keys x) % self.slots ≡ i =
              ap (λ (q : ℕ). hash_key q % self.slots) k in
            apart x (ground (arith, h.placed x i, l, same)) k,
      )
      | inr (x, f, l, k) ↦ inr (x, f, ground (arith, h.placed x i, l), k)
    ]

-- The item with the key is found.
pub get-some :
    (x : ℕ) (self : Hash) (keys : ℕ → ℕ)
    → IsHash self keys
    → listed x self.array ≡ true
    → get (keys x) self keys ≡ some x
get-some x self keys h l = elim (get-cases (keys x) self keys h) [
  | inl (f, apart) ↦ absurd (apart x l refl)
  | inr (y, f, m, k) ↦ f ∙ ap some (h.unique y x m l k)
]

pub get-none :
    (key : ℕ) (self : Hash) (keys : ℕ → ℕ)
    → IsHash self keys
    → ((x : ℕ) → listed x self.array ≡ true → keys x ≢ key)
    → get key self keys ≡ none
get-none key self keys h apart = elim (get-cases key self keys h) [
  | inl (f, apart') ↦ f
  | inr (y, f, m, k) ↦ absurd (apart y m k)
]

false-ne-true : false ≢ true
false-ne-true e = cc

-- A table as nn_hash_init leaves it.
pub init-IsHash : (keys : ℕ → ℕ) → IsHash init keys
unfolding init
init-IsHash keys = record {
  positive = omega arith;
  sized = length-replicate {A = List ℕ} 32 [];
  placed = λ x i. rw (slot-replicate 32 i, listed-replicate x 32) refl;
  unique = λ x y l m e. absurd (false-ne-true (sym (listed-replicate x 32) ∙ l));
}
