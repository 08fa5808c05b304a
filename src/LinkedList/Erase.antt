-- ===== src/LinkedList/Erase.antt =====
-- src/utils/list.c: nn_list_erase as a removal from a sequence.
use nanomsg_copy.Prelude.{
  ℕ, ◌≡◌, refl, sym, ◌∙◌, false, Option, none, some, List, [], ◌∷◌, ◌++◌, has, Distinct,
  update_self, arith, Outcome, returned, if◌then◌else◌,
}
use nanomsg_copy.LinkedList.{
  not_in_list, Items, LinkedList, set_next, set_prev, set_item, erase, is_null,
}
use nanomsg_copy.LinkedList.Segment.{
  first_or, last_or, Seg, IsList, last_or-append, Seg-split, Seg-join, Seg-set_item,
  Seg-set_next_other, Seg-set_prev_other, Seg-set_next, Seg-set_prev, Distinct-split, Distinct-join,
  last_or-has,
}
use nanomsg_copy.LinkedList.Insert.{first_or-Avoids, last_or-Avoids, has-apart}

-- The links as nn_list_erase leaves them, `item` taken from between `xs` and `ys`.
abbrev pub linked_out : ℕ → List ℕ → List ℕ → Items → Items
linked_out item xs ys m =
    let p = last_or none xs in
    let n = first_or ys none in
    set_item item not_in_list not_in_list (set_prev n p (set_next p n m))

Distinct-without :
    (item : ℕ) (xs ys : List ℕ)
    → Distinct (xs ++ item ∷ ys)
    → Distinct (xs ++ ys) × (has item xs ≡ false) × (has item ys ≡ false)
Distinct-without item xs ys d =
    let (dx, (hy, dy), apart) = Distinct-split xs (item ∷ ys) d in
    (
      Distinct-join xs ys dx dy (λ q k. ground (arith, apart q k)),
      has-apart xs (item ∷ ys) apart item (ground arith),
      hy,
    )

Seg-linked_out :
    (item : ℕ) (xs ys : List ℕ) (m : Items)
    → Distinct (xs ++ ys)
    → has item xs ≡ false
    → has item ys ≡ false
    → Seg m none (xs ++ item ∷ ys) none
    → Seg (linked_out item xs ys m) none (xs ++ ys) none
Seg-linked_out item xs ys m d hx hy s =
    let p = last_or none xs in
    let n = first_or ys none in
    let m1 = set_next p n m in
    let m2 = set_prev n p m1 in
    let (dx, dy, apart) = Distinct-split xs ys d in
    let (l, r) = Seg-split m none xs (item ∷ ys) none s in
    let l1 = Seg-set_next m none xs (some item) n dx l in
    let r1 = Seg-set_next_other m (some item) ys none p n (last_or-Avoids xs ys apart) r.2 in
    let l2 =
      Seg-set_prev_other m1 none xs n n p (first_or-Avoids xs ys (has-apart xs ys apart)) l1 in
    let r2 = Seg-set_prev m1 (some item) ys none p dy r1 in
    let u = not_in_list in
    Seg-join (linked_out item xs ys m) none xs ys none (Seg-set_item m2 none xs n item u u hx l2)
      (Seg-set_item m2 p ys none item u u hy r2)

erase-first :
    (item : ℕ) (xs ys : List ℕ) (f : Option ℕ)
    → f ≡ first_or (xs ++ item ∷ ys) none
    → (if is_null (last_or none xs) then first_or ys none else f) ≡ first_or (xs ++ ys) none
erase-first item [] ys f e = refl
erase-first item (x ∷ xs) ys f e = let (t, k, h) = last_or-has none x xs in rw k e

erase-last :
    (item : ℕ) (xs ys : List ℕ) (l : Option ℕ)
    → l ≡ last_or none (xs ++ item ∷ ys)
    → (if is_null (first_or ys none) then last_or none xs else l) ≡ last_or none (xs ++ ys)
erase-last item xs [] l e = sym (last_or-append none xs [])
erase-last item xs (y ∷ ys) l e =
    e ∙ last_or-append none xs (item ∷ y ∷ ys) ∙ sym (last_or-append none xs (y ∷ ys))

-- nn_list_erase takes an item of a well-linked list out of it and returns the item behind it, a null
-- pointer for the last one: the list of `xs ++ item ∷ ys` becomes a well-linked list of `xs ++ ys`,
-- and the item is marked as in no list, so that a second nn_list_erase of it aborts.
pub erase-IsList :
    (item : ℕ) (xs ys : List ℕ) (self : LinkedList) (m : Items)
    → IsList (xs ++ item ∷ ys) self m
    → (self' : LinkedList) × (erase item self m
        ≡ returned (first_or ys none, self', linked_out item xs ys m))
      × IsList (xs ++ ys) self' (linked_out item xs ys m)
      × (erase item self' (linked_out item xs ys m) ≡ Outcome.abort)
unfolding erase
erase-IsList item xs ys self m h =
    let (d, hx, hy) = Distinct-without item xs ys h.distinct in
    let (l, r) = Seg-split m none xs (item ∷ ys) none h.linked in
    let p = last_or none xs in
    let n = first_or ys none in
    let m2 = set_prev n p (set_next p n m) in
    let self' : LinkedList = record {
      first = if is_null p then n else self.first;
      last = if is_null n then p else self.last;
    } in
    (
      self',
      rw (r.0, r.1) refl,
      record {
        first = erase-first item xs ys self.first h.first;
        last = erase-last item xs ys self.last h.last;
        linked = Seg-linked_out item xs ys m d hx hy h.linked;
        distinct = d;
      },
      rw (update_self m2.prev item not_in_list) refl,
    )

pub linked_out_self :
    (item : ℕ) (xs ys : List ℕ) (m : Items) → (linked_out item xs ys m).prev item ≡ not_in_list
linked_out_self item xs ys m =
    let p = last_or none xs in
    let n = first_or ys none in update_self (set_prev n p (set_next p n m)).prev item not_in_list
