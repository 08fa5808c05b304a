-- ===== src/Timerset/Order.antt =====
-- Handles in the order in which they expire, for src/aio/timerset.c.
use nanomsg_copy.Prelude.{
  ℕ, zero, suc, ◌≡◌, ◌≢◌, ◌⊎◌, ◌≤◌, refl, true, false, Bool-cases, inl, inr, Option, none, some,
  List, [], ◌∷◌, ◌++◌, has, length, Distinct, update, update_ne, arith, ltb, returned,
}
use nanomsg_copy.LinkedList.{is_null, same}
use nanomsg_copy.LinkedList.Segment.{first_or, Seg, IsList}
use nanomsg_copy.Timerset.{Timerset, Hndls, scan}

-- No handle of `xs` expires before `n`.
abbrev pub AtLeast : (ℕ → ℕ) → ℕ → List ℕ → Type 0
AtLeast t n [] = Unit
AtLeast t n (x ∷ xs) = (n ≤ t x) × AtLeast t n xs

abbrev pub Sorted : (ℕ → ℕ) → List ℕ → Type 0
Sorted t [] = Unit
Sorted t (x ∷ xs) = AtLeast t (t x) xs × Sorted t xs

-- The handles that do not expire after `d`, and the rest.
unfoldable pub earlier : (ℕ → ℕ) → ℕ → List ℕ → List ℕ
earlier t d [] = []
earlier t d (x ∷ xs) = elim (ltb d (t x)) [ true ↦ [] | false ↦ x ∷ earlier t d xs ]

unfoldable pub later : (ℕ → ℕ) → ℕ → List ℕ → List ℕ
later t d [] = []
later t d (x ∷ xs) = elim (ltb d (t x)) [ true ↦ x ∷ xs | false ↦ later t d xs ]

pub record IsTimerset (xs : List ℕ) (self : Timerset) (hndls : Hndls) : Type 0 where
  pub list : IsList xs self.timeouts hndls.list
  pub sorted : Sorted hndls.timeout xs

pub earlier_nil : (t : ℕ → ℕ) (d : ℕ) → earlier t d [] ≡ []
unfolding earlier
earlier_nil t d = refl

pub later_nil : (t : ℕ → ℕ) (d : ℕ) → later t d [] ≡ []
unfolding later
later_nil t d = refl

pub split :
    (t : ℕ → ℕ) (d x : ℕ) (xs : List ℕ)
    → ((ltb d (t x) ≡ true) × (earlier t d (x ∷ xs) ≡ []) × (later t d (x ∷ xs) ≡ x ∷ xs))
      ⊎ ((ltb d (t x) ≡ false)
          × (earlier t d (x ∷ xs) ≡ x ∷ earlier t d xs)
          × (later t d (x ∷ xs) ≡ later t d xs))
unfolding earlier later
split t d x xs = elim (Bool-cases (ltb d (t x))) [
  | inl e ↦ inl (e, ground (arith, e), ground (arith, e))
  | inr e ↦ inr (e, ground (arith, e), ground (arith, e))
]

pub earlier-later : (t : ℕ → ℕ) (d : ℕ) (xs : List ℕ) → earlier t d xs ++ later t d xs ≡ xs
earlier-later t d [] = rw (earlier_nil t d, later_nil t d) refl
earlier-later t d (x ∷ xs) = elim (split t d x xs) [
  | inl (e, u, v) ↦ rw (u, v) refl
  | inr (e, u, v) ↦ rw (u, v, earlier-later t d xs) refl
]

pub AtLeast-weaken : (t : ℕ → ℕ) (n m : ℕ) (xs : List ℕ) → m ≤ n → AtLeast t n xs → AtLeast t m xs
AtLeast-weaken t n m [] h a = tt
AtLeast-weaken t n m (x ∷ xs) h a = (omega (arith, a.0), AtLeast-weaken t n m xs h a.1)

AtLeast-insert :
    (t : ℕ → ℕ) (d n h : ℕ) (xs : List ℕ)
    → n ≤ t h
    → AtLeast t n xs
    → AtLeast t n (earlier t d xs ++ h ∷ later t d xs)
AtLeast-insert t d n h [] k a = rw (earlier_nil t d, later_nil t d) (k, tt)
AtLeast-insert t d n h (x ∷ xs) k a = elim (split t d x xs) [
  | inl (e, u, v) ↦ rw (u, v) (k, a)
  | inr (e, u, v) ↦ rw (u, v) (a.0, AtLeast-insert t d n h xs k a.1)
]

pub Sorted-insert :
    (t : ℕ → ℕ) (h : ℕ) (xs : List ℕ)
    → Sorted t xs
    → Sorted t (earlier t (t h) xs ++ h ∷ later t (t h) xs)
Sorted-insert t h [] s = rw (earlier_nil t (t h), later_nil t (t h)) (tt, tt)
Sorted-insert t h (x ∷ xs) s = elim (split t (t h) x xs) [
  | inl (e, u, v) ↦
      let le : t h ≤ t x = ground (arith, e) in
      rw (u, v) ((le, AtLeast-weaken t (t x) (t h) xs le s.0), s)
  | inr (e, u, v) ↦
      rw (u, v)
        (AtLeast-insert t (t h) (t x) h xs (ground (arith, e)) s.0, Sorted-insert t h xs s.1)
]

-- The time of another handle does not matter.
AtLeast-update :
    (t : ℕ → ℕ) (h d n : ℕ) (xs : List ℕ)
    → has h xs ≡ false
    → AtLeast t n xs
    → AtLeast (update t h d) n xs
AtLeast-update t h d n [] k a = tt
AtLeast-update t h d n (x ∷ xs) k a =
    (ground (arith, k, a.0), AtLeast-update t h d n xs (ground (arith, k)) a.1)

pub Sorted-update :
    (t : ℕ → ℕ) (h d : ℕ) (xs : List ℕ) → has h xs ≡ false → Sorted t xs → Sorted (update t h d) xs
Sorted-update t h d [] k s = tt
Sorted-update t h d (x ∷ xs) k s =
    let ne : h ≢ x = ground (arith, k) in
    let rest : has h xs ≡ false = ground (arith, k) in
    (
      rw (update_ne t h d x ne) (AtLeast-update t h d (t x) xs rest s.0),
      Sorted-update t h d xs rest s.1,
    )

-- The loop of nn_timerset_add finds the first handle that expires later.
pub scan-lem :
    (fuel d : ℕ) (hndls : Hndls) (b : Option ℕ) (xs : List ℕ)
    → length xs ≤ fuel
    → Seg hndls.list b xs none
    → scan fuel d (first_or xs none) hndls ≡ returned (first_or (later hndls.timeout d xs) none)
unfolding scan
scan-lem fuel d hndls b [] h s = rw (later_nil hndls.timeout d) refl
scan-lem (suc fuel) d hndls b (x ∷ xs) h (p, n, s) = elim (split hndls.timeout d x xs) [
  | inl (e, u, v) ↦ ground (arith, e, v)
  | inr (e, u, v) ↦ ground (arith, e, n, v, scan-lem fuel d hndls (some x) xs (omega arith) s)
]
scan-lem zero d hndls b (x ∷ xs) h s = absurd (omega arith)

later-first_ne :
    (t : ℕ → ℕ) (d x : ℕ) (xs : List ℕ)
    → has x xs ≡ false
    → same (some x) (first_or (later t d xs) none) ≡ false
later-first_ne t d x [] h = rw (later_nil t d) refl
later-first_ne t d x (y ∷ ys) h = elim (split t d y ys) [
  | inl (e, u, v) ↦ rw v (ground (arith, h))
  | inr (e, u, v) ↦ rw v (later-first_ne t d x ys (ground (arith, h)))
]

-- The new handle becomes the first one where no handle expires before it.
pub first-later :
    (t : ℕ → ℕ) (d : ℕ) (xs : List ℕ)
    → Distinct xs
    → same (first_or xs none) (first_or (later t d xs) none)
      ≡ is_null (first_or (earlier t d xs) none)
first-later t d [] k = rw (later_nil t d, earlier_nil t d) refl
first-later t d (x ∷ xs) k = elim (split t d x xs) [
  | inl (e, u, v) ↦ rw (u, v) (ground arith)
  | inr (e, u, v) ↦ rw (u, v) (later-first_ne t d x xs k.0)
]
