-- ===== src/LinkedList/Tests.antt =====
-- The list of src/utils/list.c at concrete items.
use nanomsg_copy.Prelude.{Bool, ◌≡◌, refl, none, some, [], ◌∷◌, update, returned}
use nanomsg_copy.LinkedList.{not_in_list, at, Items, LinkedList, init, empty, next, insert}
use nanomsg_copy.LinkedList.Segment.{IsList}
use nanomsg_copy.LinkedList.Insert.{linked_in, insert-IsList}

abbrev two_items : Items
two_items = record {
  prev = update (update (λ q. not_in_list) 3 (at none)) 5 (at (some 3));
  next = update (update (λ q. not_in_list) 3 (at (some 5))) 5 (at none);
}

abbrev two : LinkedList
two = record { first = some 3; last = some 5 }

abbrev two-IsList : IsList (3 ∷ 5 ∷ []) two two_items
two-IsList = record {
  first = refl;
  last = refl;
  linked = (refl, refl, (refl, refl, tt));
  distinct = (refl, (refl, tt));
}

insert-IsList_example :
    (self' : LinkedList) × (insert 4 (some 5) two two_items
      ≡ returned (self', linked_in 4 (3 ∷ []) (5 ∷ []) two_items))
    × IsList (3 ∷ 4 ∷ 5 ∷ []) self' (linked_in 4 (3 ∷ []) (5 ∷ []) two_items)
insert-IsList_example = insert-IsList 4 (3 ∷ []) (5 ∷ []) two two_items two-IsList refl

first_behind : next 3 (linked_in 4 (3 ∷ []) (5 ∷ []) two_items) ≡ returned (some 4)
first_behind = refl

fresh_empty : empty init ≡ Bool.true
unfolding init
fresh_empty = refl
