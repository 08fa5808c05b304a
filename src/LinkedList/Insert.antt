-- ===== src/LinkedList/Insert.antt =====
-- src/utils/list.c: nn_list_insert as an insertion into a sequence.
use nanomsg_copy.Prelude.{
  ℕ, ◌≡◌, ◌≢◌, refl, sym, ap, ◌∙◌, true, false, ◌||◌, if◌then◌else◌, Option, none, some, List, [],
  ◌∷◌, ◌++◌, has, has-append, has-ne, Bool-cases, inl, inr, Distinct, update_ne, update_self, arith,
  returned,
}
use nanomsg_copy.LinkedList.{
  not_in_list, at, Items, LinkedList, set_next, set_prev, set_item, insert, is_null, same, before,
}
use nanomsg_copy.LinkedList.Segment.{
  first_or, last_or, Seg, IsList, last_or-append, Seg-split, Seg-join, Seg-has, Seg-set_item,
  Avoids, Seg-set_next_other, Seg-set_prev_other, Seg-set_next, Seg-set_prev, Distinct-split,
  Distinct-join, last_or-has,
}

pub first_or-Avoids :
    (xs ys : List ℕ) → ((q : ℕ) → has q ys ≡ true → has q xs ≡ false) → Avoids (first_or ys none) xs
first_or-Avoids xs [] apart = tt
first_or-Avoids xs (y ∷ ys) apart = apart y (ground arith)

pub last_or-Avoids :
    (xs ys : List ℕ) → ((q : ℕ) → has q xs ≡ true → has q ys ≡ false) → Avoids (last_or none xs) ys
last_or-Avoids [] ys apart = tt
last_or-Avoids (x ∷ xs) ys apart = let (t, e, h) = last_or-has none x xs in rw e (apart t h)

pub has-apart :
    (xs ys : List ℕ)
    → ((q : ℕ) → has q xs ≡ true → has q ys ≡ false)
    → (q : ℕ) → has q ys ≡ true
    → has q xs ≡ false
has-apart xs ys apart q h = elim (Bool-cases (has q xs)) [ inl e ↦ cc (h, apart q e) | inr e ↦ e ]

-- The links of another item.
pub set_next-prev : (q l : Option ℕ) (m : Items) (i : ℕ) → (set_next q l m).prev i ≡ m.prev i
set_next-prev none l m i = refl
set_next-prev (some q) l m i = refl

pub set_prev-next : (q l : Option ℕ) (m : Items) (i : ℕ) → (set_prev q l m).next i ≡ m.next i
set_prev-next none l m i = refl
set_prev-next (some q) l m i = refl

pub set_next_ne :
    (q l : Option ℕ) (m : Items) (i : ℕ) → Avoids q (i ∷ []) → (set_next q l m).next i ≡ m.next i
set_next_ne none l m i h = refl
set_next_ne (some q) l m i h = update_ne m.next q (at l) i (ground (arith, h))

pub set_prev_ne :
    (q l : Option ℕ) (m : Items) (i : ℕ) → Avoids q (i ∷ []) → (set_prev q l m).prev i ≡ m.prev i
set_prev_ne none l m i h = refl
set_prev_ne (some q) l m i h = update_ne m.prev q (at l) i (ground (arith, h))

-- The links as nn_list_insert leaves them, `item` put between `xs` and `ys`.
abbrev pub linked_in : ℕ → List ℕ → List ℕ → Items → Items
linked_in item xs ys m =
    let p = last_or none xs in
    let n = first_or ys none in
    set_prev n (some item) (set_next p (some item) (set_item item (at p) (at n) m))

pub last_or-Avoids_one :
    (xs : List ℕ) (item : ℕ) → has item xs ≡ false → Avoids (last_or none xs) (item ∷ [])
last_or-Avoids_one [] item h = tt
last_or-Avoids_one (x ∷ xs) item h =
    let (t, e, k) = last_or-has none x xs in
    let ne : t ≢ item = has-ne t item (x ∷ xs) k h in rw e (ground arith)

pub first_or-Avoids_one :
    (ys : List ℕ) (item : ℕ) → has item ys ≡ false → Avoids (first_or ys none) (item ∷ [])
first_or-Avoids_one [] item h = tt
first_or-Avoids_one (y ∷ ys) item h = ground (arith, h)

Seg-linked_in :
    (item : ℕ) (xs ys : List ℕ) (m : Items)
    → Distinct (xs ++ ys)
    → has item xs ≡ false
    → has item ys ≡ false
    → Seg m none (xs ++ ys) none
    → Seg (linked_in item xs ys m) none (xs ++ item ∷ ys) none
Seg-linked_in item xs ys m d hx hy s =
    let p = last_or none xs in
    let n = first_or ys none in
    let i = some item in
    let m1 = set_item item (at p) (at n) m in
    let m2 = set_next p i m1 in
    let (dx, dy, apart) = Distinct-split xs ys d in
    let (l, r) = Seg-split m none xs ys none s in
    let l1 = Seg-set_item m none xs n item (at p) (at n) hx l in
    let r1 = Seg-set_item m p ys none item (at p) (at n) hy r in
    let l2 = Seg-set_next m1 none xs n i dx l1 in
    let r2 = Seg-set_next_other m1 p ys none p i (last_or-Avoids xs ys apart) r1 in
    let l3 =
      Seg-set_prev_other m2 none xs i n i (first_or-Avoids xs ys (has-apart xs ys apart)) l2 in
    let r3 = Seg-set_prev m2 p ys none i dy r2 in
    Seg-join (linked_in item xs ys m) none xs (item ∷ ys) none l3 (
      set_prev_ne n i m2 item (first_or-Avoids_one ys item hy)
          ∙ set_next-prev p i m1 item
          ∙ update_self m.prev item (at p),
      set_prev-next n i m2 item
          ∙ set_next_ne p i m1 item (last_or-Avoids_one xs item hx)
          ∙ update_self m.next item (at n),
      r3,
    )

Distinct-middle :
    (item : ℕ) (xs ys : List ℕ)
    → Distinct (xs ++ ys)
    → has item xs ≡ false
    → has item ys ≡ false
    → Distinct (xs ++ item ∷ ys)
Distinct-middle item xs ys d hx hy =
    let (dx, dy, apart) = Distinct-split xs ys d in
    Distinct-join xs (item ∷ ys) dx (hy, dy)
      (λ q k. let ne : q ≢ item = has-ne q item xs k hx in ground (arith, apart q k))

insert-first :
    (item : ℕ) (xs ys : List ℕ)
    → Distinct (xs ++ ys)
    → (f : Option ℕ) → f ≡ first_or (xs ++ ys) none
    → (if is_null f || same f (first_or ys none) then some item else f)
      ≡ first_or (xs ++ item ∷ ys) none
insert-first item [] [] d f e = rw e refl
insert-first item [] (y ∷ ys) d f e = rw e (ground arith)
insert-first item (x ∷ xs) [] d f e = rw e refl
insert-first item (x ∷ xs) (y ∷ ys) d f e = rw e (ground (arith, d.0, has-append x xs (y ∷ ys)))

insert-last :
    (item : ℕ) (xs ys : List ℕ) (l : Option ℕ)
    → l ≡ last_or none (xs ++ ys)
    → (if is_null (first_or ys none) then some item else l) ≡ last_or none (xs ++ item ∷ ys)
insert-last item xs [] l e = sym (last_or-append none xs (item ∷ []))
insert-last item xs (y ∷ ys) l e =
    e ∙ last_or-append none xs (y ∷ ys) ∙ sym (last_or-append none xs (item ∷ y ∷ ys))

-- `it->prev`, or the last item of the list.
before-lem :
    (xs ys : List ℕ) (self : LinkedList) (m : Items)
    → IsList (xs ++ ys) self m
    → before (first_or ys none) self m ≡ returned (last_or none xs)
before-lem xs [] self m h = ap returned (h.last ∙ last_or-append none xs [])
before-lem xs (y ∷ ys) self m h =
    let (l, r) = Seg-split m none xs (y ∷ ys) none h.linked in rw r.0 refl

-- nn_list_insert puts an item that is in no list in front of the item `first_or ys none`, at the
-- end for a null pointer: a well-linked list of the items `xs ++ ys`, of which the first of `ys` is
-- the given position, becomes a well-linked list of `xs ++ item ∷ ys`, in both directions. The call
-- returns, and the links it leaves are those of `linked_in`.
pub insert-IsList :
    (item : ℕ) (xs ys : List ℕ) (self : LinkedList) (m : Items)
    → IsList (xs ++ ys) self m
    → m.prev item ≡ not_in_list
    → (self' : LinkedList) × (insert item (first_or ys none) self m
        ≡ returned (self', linked_in item xs ys m))
      × IsList (xs ++ item ∷ ys) self' (linked_in item xs ys m)
unfolding insert
insert-IsList item xs ys self m h free =
    let none_of = Seg-has m none (xs ++ ys) none item h.linked free in
    let hx : has item xs ≡ false = ground (arith, none_of, has-append item xs ys) in
    let hy : has item ys ≡ false = ground (arith, none_of, has-append item xs ys) in
    let it = first_or ys none in
    let self' : LinkedList = record {
      first = if is_null self.first || same self.first it then some item else self.first;
      last = if is_null it then some item else self.last;
    } in
    (
      self',
      rw (free, before-lem xs ys self m h) refl,
      record {
        first = insert-first item xs ys h.distinct self.first h.first;
        last = insert-last item xs ys self.last h.last;
        linked = Seg-linked_in item xs ys m h.distinct hx hy h.linked;
        distinct = Distinct-middle item xs ys h.distinct hx hy;
      },
    )
