-- ===== src/Prelude/Lists.antt =====
-- Lists measured and indexed by native numbers, under the library's names.
use Prim.Native.Nat.{ℕ, zero, suc, ◌+◌, ◌-◌, ◌<◌, min, compare, Ordering}
use mathlib.Core.Bool.{Bool, true, false, ◌||◌}
use mathlib.Core.Path.{◌≡◌, refl, ap}
use mathlib.Core.Logic.{◌≢◌}
use mathlib.Core.List.{List, [], ◌∷◌, ◌++◌, map}
use mathlib.Core.Option.{Option, none, some}
use native.Mathlib.Omega.{arith}

module _ {ℓ} {A : Type ℓ} where
  abbrev pub length : List A → ℕ
  length [] = 0
  length (x ∷ xs) = suc (length xs)

  abbrev pub get_elem? : List A → ℕ → Option A
  get_elem? [] i = none
  get_elem? (x ∷ xs) zero = some x
  get_elem? (x ∷ xs) (suc i) = get_elem? xs i

  -- A write out of bounds changes nothing.
  abbrev pub set : List A → ℕ → A → List A
  set [] i v = []
  set (x ∷ xs) zero v = v ∷ xs
  set (x ∷ xs) (suc i) v = x ∷ set xs i v

  pub length-append : (xs ys : List A) → length (xs ++ ys) ≡ length xs + length ys
  length-append [] ys = omega arith
  length-append (x ∷ xs) ys = omega (arith, length-append xs ys)

module _ {ℓ} {A : Type ℓ} where
  pub length-set : (xs : List A) (i : ℕ) (v : A) → length (set xs i v) ≡ length xs
  length-set [] i v = refl
  length-set (x ∷ xs) zero v = refl
  length-set (x ∷ xs) (suc i) v = ap suc (length-set xs i v)

  pub get_elem?-set_self :
      (xs : List A) (i : ℕ) (v : A) → i < length xs → get_elem? (set xs i v) i ≡ some v
  get_elem?-set_self [] i v h = elim h [ ]
  get_elem?-set_self (x ∷ xs) zero v h = refl
  get_elem?-set_self (x ∷ xs) (suc i) v h = get_elem?-set_self xs i v (omega arith)

  pub get_elem?-set_ne :
      (xs : List A) {i j : ℕ} (v : A) → i ≢ j → get_elem? (set xs i v) j ≡ get_elem? xs j
  get_elem?-set_ne [] v h = refl
  get_elem?-set_ne (x ∷ xs) {i = zero} {j = zero} v h = absurd (h refl)
  get_elem?-set_ne (x ∷ xs) {i = zero} {j = suc j} v h = refl
  get_elem?-set_ne (x ∷ xs) {i = suc i} {j = zero} v h = refl
  get_elem?-set_ne (x ∷ xs) {i = suc i} {j = suc j} v h = get_elem?-set_ne xs v (λ e. h (ap suc e))

module _ {ℓ} {A : Type ℓ} where
  abbrev pub get_or : List A → ℕ → A → A
  get_or [] i d = d
  get_or (x ∷ xs) zero d = x
  get_or (x ∷ xs) (suc i) d = get_or xs i d

  abbrev pub take : ℕ → List A → List A
  take zero xs = []
  take (suc n) [] = []
  take (suc n) (x ∷ xs) = x ∷ take n xs

  abbrev pub drop : ℕ → List A → List A
  drop zero xs = xs
  drop (suc n) [] = []
  drop (suc n) (x ∷ xs) = drop n xs

  abbrev pub replicate : ℕ → A → List A
  replicate zero a = []
  replicate (suc n) a = a ∷ replicate n a

  pub take-append-drop : (n : ℕ) (xs : List A) → take n xs ++ drop n xs ≡ xs
  take-append-drop zero xs = refl
  take-append-drop (suc n) [] = refl
  take-append-drop (suc n) (x ∷ xs) = rw (take-append-drop n xs)

  pub length-take : (n : ℕ) (xs : List A) → length (take n xs) ≡ min n (length xs)
  length-take zero xs = omega arith
  length-take (suc n) [] = omega arith
  length-take (suc n) (x ∷ xs) = omega (arith, length-take n xs)

  pub length-drop : (n : ℕ) (xs : List A) → length (drop n xs) ≡ length xs - n
  length-drop zero xs = omega arith
  length-drop (suc n) [] = omega arith
  length-drop (suc n) (x ∷ xs) = omega (arith, length-drop n xs)

  pub length-replicate : (n : ℕ) (a : A) → length (replicate n a) ≡ n
  length-replicate zero a = refl
  length-replicate (suc n) a = ap suc (length-replicate n a)

  pub length-map {κ} : {B : Type κ} (xs : List A) (f : A → B) → length (map f xs) ≡ length xs
  length-map [] f = refl
  length-map (x ∷ xs) f = ap suc (length-map xs f)

-- A field of the objects in memory, by address, after `p->field = v`.
abbrev pub update {ℓ} : {A : Type ℓ} → (ℕ → A) → ℕ → A → ℕ → A
update f p v q = elim (compare p q) [ Ordering.eq ↦ v | _ ↦ f q ]

pub update_self {ℓ} : {A : Type ℓ} (f : ℕ → A) (p : ℕ) (v : A) → update f p v p ≡ v
update_self f p v = ground arith

pub update_ne {ℓ} : {A : Type ℓ} (f : ℕ → A) (p : ℕ) (v : A) (q : ℕ) → p ≢ q → update f p v q ≡ f q
update_ne f p v q h = ground arith

-- Lists of addresses.
abbrev pub has : ℕ → List ℕ → Bool
has a [] = false
has a (x ∷ xs) = elim (compare x a) [ Ordering.eq ↦ true | _ ↦ has a xs ]

abbrev pub Distinct : List ℕ → Type 0
Distinct [] = Unit
Distinct (x ∷ xs) = (has x xs ≡ false) × Distinct xs

abbrev pub first : List ℕ → Option ℕ
first [] = none
first (x ∷ xs) = some x

abbrev pub last : List ℕ → Option ℕ
last [] = none
last (x ∷ []) = some x
last (x ∷ y ∷ ys) = last (y ∷ ys)

abbrev pub erase : ℕ → List ℕ → List ℕ
erase a [] = []
erase a (x ∷ xs) = elim (compare x a) [ Ordering.eq ↦ xs | _ ↦ x ∷ erase a xs ]

pub has-last : (xs : List ℕ) (t : ℕ) → last xs ≡ some t → has t xs ≡ true
has-last [] t e = cc
has-last (x ∷ []) t e = ground arith
has-last (x ∷ y ∷ ys) t e = ground (arith, has-last (y ∷ ys) t e)

pub has-append : (p : ℕ) (ps qs : List ℕ) → has p (ps ++ qs) ≡ (has p ps || has p qs)
has-append p [] qs = refl
has-append p (q ∷ ps) qs = ground (arith, has-append p ps qs)

pub last-append_one : (xs : List ℕ) (a : ℕ) → last (xs ++ a ∷ []) ≡ some a
last-append_one [] a = refl
last-append_one (x ∷ []) a = refl
last-append_one (x ∷ y ∷ ys) a = last-append_one (y ∷ ys) a

pub Distinct-append_one :
    (xs : List ℕ) (a : ℕ) → Distinct xs → has a xs ≡ false → Distinct (xs ++ a ∷ [])
Distinct-append_one [] a d h = (refl, tt)
Distinct-append_one (x ∷ xs) a d h =
    (ground (arith, has-append x xs (a ∷ [])), Distinct-append_one xs a d.1 (ground arith))

pub has-erase_ne : (a b : ℕ) (xs : List ℕ) → has b xs ≡ false → has b (erase a xs) ≡ false
has-erase_ne a b [] h = refl
has-erase_ne a b (x ∷ xs) h = ground (arith, has-erase_ne a b xs)

pub Distinct-erase : (a : ℕ) (xs : List ℕ) → Distinct xs → Distinct (erase a xs)
Distinct-erase a [] d = tt
Distinct-erase a (x ∷ xs) d = ground (arith, has-erase_ne a x xs, Distinct-erase a xs d.1)

pub has-erase_self : (a : ℕ) (xs : List ℕ) → Distinct xs → has a (erase a xs) ≡ false
has-erase_self a [] d = refl
has-erase_self a (x ∷ xs) d = ground (arith, has-erase_self a xs d.1)

pub has-ne : (a b : ℕ) (xs : List ℕ) → has a xs ≡ true → has b xs ≡ false → a ≢ b
has-ne a b xs h k e = cc (ap (λ p. has p xs) e)

pub last-some : (x : ℕ) (xs : List ℕ) → (t : ℕ) × (last (x ∷ xs) ≡ some t)
last-some x [] = (x, refl)
last-some x (y ∷ ys) = last-some y ys
