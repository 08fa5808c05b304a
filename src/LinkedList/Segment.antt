-- ===== src/LinkedList/Segment.antt =====
-- Linked items as lists of addresses, for src/utils/list.c.
use nanomsg_copy.Prelude.{
  ℕ, ◌≡◌, ◌≢◌, refl, ◌∙◌, true, false, Option, none, some, List, [], ◌∷◌, ◌++◌, has, has-append,
  has-ne, Distinct, update_ne, update_self, arith,
}
use nanomsg_copy.LinkedList.{
  Place, not_in_list, at, Items, LinkedList, set_next, set_prev, set_item,
}

abbrev pub first_or : List ℕ → Option ℕ → Option ℕ
first_or [] a = a
first_or (x ∷ xs) a = some x

abbrev pub last_or : Option ℕ → List ℕ → Option ℕ
last_or b [] = b
last_or b (x ∷ xs) = last_or (some x) xs

-- The items `xs` are linked both ways, behind `b` and in front of `a`.
abbrev pub Seg : Items → Option ℕ → List ℕ → Option ℕ → Type 0
Seg m b [] a = Unit
Seg m b (x ∷ xs) a = (m.prev x ≡ at b) × (m.next x ≡ at (first_or xs a)) × Seg m (some x) xs a

pub record IsList (xs : List ℕ) (self : LinkedList) (m : Items) : Type 0 where
  pub first : self.first ≡ first_or xs none
  pub last : self.last ≡ last_or none xs
  pub linked : Seg m none xs none
  pub distinct : Distinct xs

pub first_or-append :
    (xs ys : List ℕ) (a : Option ℕ) → first_or (xs ++ ys) a ≡ first_or xs (first_or ys a)
first_or-append [] ys a = refl
first_or-append (x ∷ xs) ys a = refl

pub last_or-append :
    (b : Option ℕ) (xs ys : List ℕ) → last_or b (xs ++ ys) ≡ last_or (last_or b xs) ys
last_or-append b [] ys = refl
last_or-append b (x ∷ xs) ys = last_or-append (some x) xs ys

pub Seg-split :
    (m : Items) (b : Option ℕ) (xs ys : List ℕ) (a : Option ℕ)
    → Seg m b (xs ++ ys) a
    → Seg m b xs (first_or ys a) × Seg m (last_or b xs) ys a
Seg-split m b [] ys a s = (tt, s)
Seg-split m b (x ∷ xs) ys a (p, n, s) =
    let (l, r) = Seg-split m (some x) xs ys a s in ((p, rw (← first_or-append xs ys a) n, l), r)

pub Seg-join :
    (m : Items) (b : Option ℕ) (xs ys : List ℕ) (a : Option ℕ)
    → Seg m b xs (first_or ys a)
    → Seg m (last_or b xs) ys a
    → Seg m b (xs ++ ys) a
Seg-join m b [] ys a l r = r
Seg-join m b (x ∷ xs) ys a (p, n, l) r =
    (p, rw (first_or-append xs ys a) n, Seg-join m (some x) xs ys a l r)

-- A member of a segment is marked as in a list.
pub Seg-has :
    (m : Items) (b : Option ℕ) (xs : List ℕ) (a : Option ℕ) (q : ℕ)
    → Seg m b xs a
    → m.prev q ≡ not_in_list
    → has q xs ≡ false
Seg-has m b [] a q s e = refl
Seg-has m b (x ∷ xs) a q (p, n, s) e = ground (arith, p, e, Seg-has m (some x) xs a q s e)

-- Links of other items do not matter.
pub Seg-set_item :
    (m : Items) (b : Option ℕ) (xs : List ℕ) (a : Option ℕ) (q : ℕ) (u v : Place)
    → has q xs ≡ false
    → Seg m b xs a
    → Seg (set_item q u v m) b xs a
Seg-set_item m b [] a q u v h s = tt
Seg-set_item m b (x ∷ xs) a q u v h (p, n, s) =
    let ne : q ≢ x = ground (arith, h) in
    (
      update_ne m.prev q u x ne ∙ p,
      update_ne m.next q v x ne ∙ n,
      Seg-set_item m (some x) xs a q u v (ground (arith, h)) s,
    )

abbrev pub Avoids : Option ℕ → List ℕ → Type 0
Avoids none xs = Unit
Avoids (some q) xs = has q xs ≡ false

Seg-next_ne :
    (m : Items) (b : Option ℕ) (xs : List ℕ) (a : Option ℕ) (q : ℕ) (l : Option ℕ)
    → has q xs ≡ false
    → Seg m b xs a
    → Seg (set_next (some q) l m) b xs a
Seg-next_ne m b [] a q l h s = tt
Seg-next_ne m b (x ∷ xs) a q l h (p, n, s) = (
  p,
  update_ne m.next q (at l) x (ground (arith, h)) ∙ n,
  Seg-next_ne m (some x) xs a q l (ground (arith, h)) s,
)

Seg-prev_ne :
    (m : Items) (b : Option ℕ) (xs : List ℕ) (a : Option ℕ) (q : ℕ) (l : Option ℕ)
    → has q xs ≡ false
    → Seg m b xs a
    → Seg (set_prev (some q) l m) b xs a
Seg-prev_ne m b [] a q l h s = tt
Seg-prev_ne m b (x ∷ xs) a q l h (p, n, s) = (
  update_ne m.prev q (at l) x (ground (arith, h)) ∙ p,
  n,
  Seg-prev_ne m (some x) xs a q l (ground (arith, h)) s,
)

pub Seg-set_next_other :
    (m : Items) (b : Option ℕ) (xs : List ℕ) (a q l : Option ℕ)
    → Avoids q xs
    → Seg m b xs a
    → Seg (set_next q l m) b xs a
Seg-set_next_other m b xs a none l h s = s
Seg-set_next_other m b xs a (some q) l h s = Seg-next_ne m b xs a q l h s

pub Seg-set_prev_other :
    (m : Items) (b : Option ℕ) (xs : List ℕ) (a q l : Option ℕ)
    → Avoids q xs
    → Seg m b xs a
    → Seg (set_prev q l m) b xs a
Seg-set_prev_other m b xs a none l h s = s
Seg-set_prev_other m b xs a (some q) l h s = Seg-prev_ne m b xs a q l h s

pub last_or-has :
    (b : Option ℕ) (x : ℕ) (xs : List ℕ)
    → (t : ℕ) × (last_or b (x ∷ xs) ≡ some t) × (has t (x ∷ xs) ≡ true)
last_or-has b x [] = (x, refl, ground arith)
last_or-has b x (y ∷ ys) = let (t, e, h) = last_or-has (some x) y ys in (t, e, ground (arith, h))

-- The last item of a segment gets another one behind it.
pub Seg-set_next :
    (m : Items) (b : Option ℕ) (xs : List ℕ) (a l : Option ℕ)
    → Distinct xs
    → Seg m b xs a
    → Seg (set_next (last_or none xs) l m) b xs l
Seg-set_next m b [] a l d s = tt
Seg-set_next m b (x ∷ []) a l d (p, n, s) = (p, update_self m.next x (at l), tt)
Seg-set_next m b (x ∷ y ∷ ys) a l d (p, n, s) =
    let (t, e, h) = last_or-has (some x) y ys in
    let rest = Seg-set_next m (some x) (y ∷ ys) a l d.1 s in
    let away : t ≢ x = has-ne t x (y ∷ ys) h d.0 in
    (rw e p, rw e (update_ne m.next t (at l) x away ∙ n), rest)

-- The first item of a segment gets another one in front of it.
pub Seg-set_prev :
    (m : Items) (b : Option ℕ) (xs : List ℕ) (a l : Option ℕ)
    → Distinct xs
    → Seg m b xs a
    → Seg (set_prev (first_or xs none) l m) l xs a
Seg-set_prev m b [] a l d s = tt
Seg-set_prev m b (x ∷ xs) a l d (p, n, s) =
    (update_self m.prev x (at l), n, Seg-prev_ne m (some x) xs a x l d.0 s)

pub Distinct-split :
    (xs ys : List ℕ)
    → Distinct (xs ++ ys)
    → Distinct xs × Distinct ys × ((q : ℕ) → has q xs ≡ true → has q ys ≡ false)
Distinct-split [] ys d = (tt, d, λ q h. cc)
Distinct-split (x ∷ xs) ys (h, d) =
    let (l, r, apart) = Distinct-split xs ys d in
    (
      (ground (arith, h, has-append x xs ys), l),
      r,
      λ q k. ground (arith, h, has-append x xs ys, apart q, k),
    )

pub Distinct-join :
    (xs ys : List ℕ)
    → Distinct xs
    → Distinct ys
    → ((q : ℕ) → has q xs ≡ true → has q ys ≡ false)
    → Distinct (xs ++ ys)
Distinct-join [] ys l r apart = r
Distinct-join (x ∷ xs) ys (h, l) r apart = (
  ground (arith, h, has-append x xs ys, apart x),
  Distinct-join xs ys l r (λ q k. apart q (ground (arith, k))),
)
