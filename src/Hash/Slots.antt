-- ===== src/Hash/Slots.antt =====
-- The slots of src/utils/hash.c: which items are in which list after a change.
use nanomsg_copy.Prelude.{
  ℕ, zero, suc, ◌%◌, ◌<◌, ◌≡◌, refl, ap, ◌∙◌, false, Bool-cases, inl, inr, ◌&&◌, ◌||◌, List, [],
  ◌∷◌, ◌++◌, has, has-append, length, replicate, length-set, ◌==◌, arith,
}
use native.Mathlib.Nat.{mod-lt}
use nanomsg_copy.Hash.{hash_key, slot, listed, push_slot, move_items, move_all}

pub slot-push :
    (i x : ℕ) (array : List (List ℕ)) (y j : ℕ)
    → i < length array
    → has y (slot j (push_slot i x array)) ≡ (has y (slot j array) || (y == x && j == i))
slot-push i x [] y j h = absurd (omega arith)
slot-push zero x (xs ∷ ls) y zero h = ground (arith, has-append y xs (x ∷ []))
slot-push zero x (xs ∷ ls) y (suc j) h = ground arith
slot-push (suc i) x (xs ∷ ls) y zero h = ground arith
slot-push (suc i) x (xs ∷ ls) y (suc j) h = ground (arith, slot-push i x ls y j (omega arith))

pub listed-push :
    (i x : ℕ) (array : List (List ℕ)) (y : ℕ)
    → i < length array
    → listed y (push_slot i x array) ≡ (listed y array || y == x)
listed-push i x [] y h = absurd (omega arith)
listed-push zero x (xs ∷ ls) y h = ground (arith, has-append y xs (x ∷ []))
listed-push (suc i) x (xs ∷ ls) y h = ground (arith, listed-push i x ls y (omega arith))

pub length-push : (i x : ℕ) (array : List (List ℕ)) → length (push_slot i x array) ≡ length array
length-push i x array = length-set array i (slot i array ++ x ∷ [])

module _ (keys : ℕ → ℕ) (slots : ℕ) (positive : 0 < slots) where
  abbrev index_of : ℕ → ℕ
  index_of x = hash_key (keys x) % slots

  pub length-move_items :
      (xs : List ℕ) (array : List (List ℕ)) → length (move_items keys slots xs array) ≡ length array
  unfolding move_items
  length-move_items [] array = refl
  length-move_items (x ∷ xs) array =
      length-move_items xs (push_slot (index_of x) x array) ∙ length-push (index_of x) x array

  pub slot-move_items :
      (xs : List ℕ) (array : List (List ℕ)) (y j : ℕ)
      → length array ≡ slots
      → has y (slot j (move_items keys slots xs array))
        ≡ (has y (slot j array) || (has y xs && j == index_of y))
  unfolding move_items
  slot-move_items [] array y j h = ground arith
  slot-move_items (x ∷ xs) array y j h =
      let pushed = push_slot (index_of x) x array in
      let inside : index_of x < length array = rw h (mod-lt (hash_key (keys x)) positive) in
      slot-move_items xs pushed y j (length-push (index_of x) x array ∙ h)
      ∙ elim (Bool-cases (y == x)) [
        | inl e ↦
            let same : y ≡ x = ground (arith, e) in
            ground (arith, same, ap index_of same, slot-push (index_of x) x array y j inside)
        | inr e ↦ ground (arith, e, slot-push (index_of x) x array y j inside)
      ]

  pub listed-move_items :
      (xs : List ℕ) (array : List (List ℕ)) (y : ℕ)
      → length array ≡ slots
      → listed y (move_items keys slots xs array) ≡ (listed y array || has y xs)
  unfolding move_items
  listed-move_items [] array y h = ground arith
  listed-move_items (x ∷ xs) array y h =
      let pushed = push_slot (index_of x) x array in
      let inside : index_of x < length array = rw h (mod-lt (hash_key (keys x)) positive) in
      listed-move_items xs pushed y (length-push (index_of x) x array ∙ h)
      ∙ ground (arith, listed-push (index_of x) x array y inside)

  pub length-move_all :
      (ls array : List (List ℕ)) → length (move_all keys slots ls array) ≡ length array
  unfolding move_all
  length-move_all [] array = refl
  length-move_all (xs ∷ ls) array =
      length-move_all ls (move_items keys slots xs array) ∙ length-move_items xs array

  pub slot-move_all :
      (ls array : List (List ℕ)) (y j : ℕ)
      → length array ≡ slots
      → has y (slot j (move_all keys slots ls array))
        ≡ (has y (slot j array) || (listed y ls && j == index_of y))
  unfolding move_all
  slot-move_all [] array y j h = ground arith
  slot-move_all (xs ∷ ls) array y j h =
      slot-move_all ls (move_items keys slots xs array) y j (length-move_items xs array ∙ h)
      ∙ ground (arith, slot-move_items xs array y j h)

  pub listed-move_all :
      (ls array : List (List ℕ)) (y : ℕ)
      → length array ≡ slots
      → listed y (move_all keys slots ls array) ≡ (listed y array || listed y ls)
  unfolding move_all
  listed-move_all [] array y h = ground arith
  listed-move_all (xs ∷ ls) array y h =
      listed-move_all ls (move_items keys slots xs array) y (length-move_items xs array ∙ h)
      ∙ ground (arith, listed-move_items xs array y h)

pub slot-replicate : (n j : ℕ) → slot j (replicate n []) ≡ []
slot-replicate zero j = refl
slot-replicate (suc n) zero = refl
slot-replicate (suc n) (suc j) = slot-replicate n j

pub listed-replicate : (y n : ℕ) → listed y (replicate n []) ≡ false
listed-replicate y zero = refl
listed-replicate y (suc n) = listed-replicate y n
