-- ===== src/Hash/Removal.antt =====
-- nn_hash_erase of src/utils/hash.c.
use nanomsg_copy.Prelude.{
  ℕ, zero, suc, ◌+◌, ◌-◌, ◌%◌, ◌^◌, ◌<◌, ◌≡◌, ◌≢◌, inl, inr, refl, sym, ap, ◌∙◌, true, false,
  Bool-cases, none, List, [], ◌∷◌, has, erase, has-erase_self, Distinct, Distinct-erase, length,
  length-set, set, ◌==◌, if◌then◌else◌, arith, returned,
}
use native.Mathlib.Nat.{mod-lt}
use nanomsg_copy.Hash.{Hash, hash_key, slot, listed, remove, get}
use nanomsg_copy.Hash.Lookup.{IsHash, get-cases, get-some, get-none}

has-erase_other : (a b : ℕ) (xs : List ℕ) → (b == a) ≡ false → has b (erase a xs) ≡ has b xs
has-erase_other a b [] h = refl
has-erase_other a b (x ∷ xs) h = ground (arith, h, has-erase_other a b xs h)

slot-set_self :
    (i : ℕ) (ys : List ℕ) (array : List (List ℕ)) → i < length array → slot i (set array i ys) ≡ ys
slot-set_self i ys [] h = absurd (omega arith)
slot-set_self zero ys (xs ∷ ls) h = refl
slot-set_self (suc i) ys (xs ∷ ls) h = slot-set_self i ys ls (omega arith)

slot-set_other :
    (i j : ℕ) (ys : List ℕ) (array : List (List ℕ))
    → (j == i) ≡ false
    → slot j (set array i ys) ≡ slot j array
slot-set_other i j ys [] h = refl
slot-set_other zero zero ys (xs ∷ ls) h = ground (arith, h)
slot-set_other zero (suc j) ys (xs ∷ ls) h = refl
slot-set_other (suc i) zero ys (xs ∷ ls) h = refl
slot-set_other (suc i) (suc j) ys (xs ∷ ls) h = slot-set_other i j ys ls (ground (arith, h))

-- The lists without the item in one of them.
abbrev pub without : ℕ → ℕ → List (List ℕ) → List (List ℕ)
without item i array = set array i (erase item (slot i array))

listed-without :
    (item i y : ℕ) (array : List (List ℕ))
    → (y == item) ≡ false
    → listed y (without item i array) ≡ listed y array
listed-without item i y [] h = refl
listed-without item zero y (xs ∷ ls) h = ground (arith, has-erase_other item y xs h)
listed-without item (suc i) y (xs ∷ ls) h = ground (arith, listed-without item i y ls h)

listed_nowhere :
    (y : ℕ) (array : List (List ℕ))
    → ((j : ℕ) → has y (slot j array) ≡ false)
    → listed y array ≡ false
listed_nowhere y [] h = refl
listed_nowhere y (xs ∷ ls) h = ground (arith, h 0, listed_nowhere y ls (λ j. h (suc j)))

-- No list has an item twice.
pub record IsSimple (self : Hash) : Type 0 where
  pub distinct : (i : ℕ) → Distinct (slot i self.array)

module _ (item : ℕ) (self : Hash) (keys : ℕ → ℕ) (h : IsHash self keys) (s : IsSimple self)
    (l : listed item self.array ≡ true) where
  abbrev home : ℕ
  home = hash_key (keys item) % self.slots

  abbrev rest : Hash
  rest = record self {
    items = (self.items + 2 ^ 32 - 1) % 2 ^ 32;
    array = without item home self.array;
  }

  home_inside : home < length self.array
  home_inside = rw h.sized (mod-lt (hash_key (keys item)) h.positive)

  remove-rest : remove item self keys ≡ returned rest
  unfolding remove
  remove-rest = ground (arith, l, h.placed item home)

  gone : (j : ℕ) → has item (slot j (without item home self.array)) ≡ false
  gone j = elim (Bool-cases (j == home)) [
    | inl e ↦
        let same : j ≡ home = ground (arith, e) in
        rw (same, slot-set_self home (erase item (slot home self.array)) self.array home_inside)
          (has-erase_self item (slot home self.array) (s.distinct home))
    | inr e ↦
        rw (slot-set_other home j (erase item (slot home self.array)) self.array e)
          (ground (arith, h.placed item j, e))
  ]

  gone_from_all : listed item (without item home self.array) ≡ false
  gone_from_all = listed_nowhere item (without item home self.array) gone

  kept :
      (y j : ℕ)
      → (y == item) ≡ false
      → has y (slot j (without item home self.array)) ≡ has y (slot j self.array)
  kept y j n = elim (Bool-cases (j == home)) [
    | inl e ↦
        let same : j ≡ home = ground (arith, e) in
        rw (same, slot-set_self home (erase item (slot home self.array)) self.array home_inside)
          (has-erase_other item y (slot home self.array) n)
    | inr e ↦ ap (has y) (slot-set_other home j (erase item (slot home self.array)) self.array e)
  ]

  listed_before :
      (y : ℕ) → listed y (without item home self.array) ≡ true → listed y self.array ≡ true
  listed_before y m = elim (Bool-cases (y == item)) [
    | inl e ↦ let same : y ≡ item = ground (arith, e) in rw same l
    | inr e ↦ sym (listed-without item home y self.array e) ∙ m
  ]

  rest-IsHash : IsHash rest keys
  rest-IsHash = record {
    positive = h.positive;
    sized = length-set self.array home (erase item (slot home self.array)) ∙ h.sized;
    placed = λ y j. elim (Bool-cases (y == item)) [
      | inl e ↦ let same : y ≡ item = ground (arith, e) in rw (same, gone j, gone_from_all) refl
      | inr e ↦ rw (kept y j e, listed-without item home y self.array e) (h.placed y j)
    ];
    unique = λ x y a b e. h.unique x y (listed_before x a) (listed_before y b) e;
  }

  rest-IsSimple : IsSimple rest
  rest-IsSimple = record {
    distinct = λ j. elim (Bool-cases (j == home)) [
      | inl e ↦
          let same : j ≡ home = ground (arith, e) in
          rw (same, slot-set_self home (erase item (slot home self.array)) self.array home_inside)
            (Distinct-erase item (slot home self.array) (s.distinct home))
      | inr e ↦
          rw (slot-set_other home j (erase item (slot home self.array)) self.array e) (s.distinct j)
    ];
  }

  still_there : (x : ℕ) → listed x rest.array ≡ true → keys x ≢ keys item
  still_there x m q =
      let same : x ≡ item = h.unique x item (listed_before x m) l q in
      cc (ap (λ p. listed p rest.array) same, m, gone_from_all)

  other_item : (x k : ℕ) → keys x ≡ k → (k == keys item) ≡ false → (x == item) ≡ false
  other_item x k q e = elim (Bool-cases (x == item)) [
    | inl t ↦
        let same : x ≡ item = ground (arith, t) in absurd (ground (arith, e, sym q ∙ ap keys same))
    | inr t ↦ t
  ]

  get-rest : (k : ℕ) → get k rest keys ≡ (if k == keys item then none else get k self keys)
  get-rest k = elim (Bool-cases (k == keys item)) [
    | inl e ↦
        rw e (get-none k rest keys rest-IsHash (λ x m q. still_there x m (q ∙ ground (arith, e))))
    | inr e ↦ rw e (elim (get-cases k self keys h) [
      | inl (f, apart) ↦
          rw f (get-none k rest keys rest-IsHash (λ x m. apart x (listed_before x m)))
      | inr (x, f, m, q) ↦ rw f (
          ap (λ p. get p rest keys) (sym q)
          ∙ get-some x rest keys rest-IsHash
              (listed-without item home x self.array (other_item x k q e) ∙ m))
    ])
  ]

-- On a table in which each item lies in the slot of its key, no two have one key and no list has an item twice:
-- nn_hash_erase of an item of the table returns a table with the same properties. nn_hash_get gives nothing for
-- the key of the item, and for every other key what it gave before.
pub get-remove :
    (item : ℕ) (self : Hash) (keys : ℕ → ℕ)
    → IsHash self keys
    → IsSimple self
    → listed item self.array ≡ true
    → (self' : Hash) × (remove item self keys ≡ returned self')
      × IsHash self' keys
      × IsSimple self'
      × (listed item self'.array ≡ false)
      × ((k : ℕ) → get k self' keys ≡ (if k == keys item then none else get k self keys))
get-remove item self keys h s l = (
  rest item self keys h s l,
  remove-rest item self keys h s l,
  rest-IsHash item self keys h s l,
  rest-IsSimple item self keys h s l,
  gone_from_all item self keys h s l,
  get-rest item self keys h s l,
)
