-- ===== src/LinkedList.antt =====
-- src/utils/list.c and list.h: a doubly linked list of items that lie in other objects. The links of
-- all items are two functions from addresses.
pub mod Segment
pub mod Insert
pub mod Erase
mod Tests
use nanomsg_copy.Prelude.{
  ℕ, Bool, true, false, not, ◌||◌, Option, none, some, ◌==◌, if◌then◌else◌, update, Outcome,
  returned, ◌>>=◌, ◌>>◌, assert,
}

-- A link of an item: NN_LIST_NOTINLIST, or a pointer.
pub data Place : Type 0 where
  not_in_list : Place
  at : Option ℕ → Place

pub record Items : Type 0 where
  pub prev : ℕ → Place
  pub next : ℕ → Place

pub record LinkedList : Type 0 where
  pub first : Option ℕ
  pub last : Option ℕ

abbrev pub is_null : Option ℕ → Bool
is_null none = true
is_null (some p) = false

-- Following NN_LIST_NOTINLIST is undefined.
abbrev pub target : Place → Outcome (Option ℕ)
target not_in_list = Outcome.undefined
target (at p) = returned p

abbrev pub is_place : Place → Bool
is_place not_in_list = false
is_place (at p) = true

pub init : LinkedList
init = record { first = none; last = none }

pub term : LinkedList → Outcome (Unit {0})
term self = assert (is_null self.first) >> assert (is_null self.last)

abbrev pub empty : LinkedList → Bool
empty self = is_null self.first

abbrev pub begin : LinkedList → Option ℕ
begin self = self.first

-- nn_list_prev, `none` for the end of the list, and nn_list_next.
pub prev : LinkedList → Option ℕ → Items → Outcome (Option ℕ)
prev self none items = returned self.last
prev self (some it) items = assert (is_place (items.prev it)) >> target (items.prev it)

abbrev pub next : ℕ → Items → Outcome (Option ℕ)
next it items = assert (is_place (items.next it)) >> target (items.next it)

-- `if (p) p->next = link` and `if (p) p->prev = link`
abbrev pub set_next : Option ℕ → Option ℕ → Items → Items
set_next none link items = items
set_next (some p) link items = record items { next = update items.next p (at link) }

abbrev pub set_prev : Option ℕ → Option ℕ → Items → Items
set_prev none link items = items
set_prev (some p) link items = record items { prev = update items.prev p (at link) }

abbrev pub set_item : ℕ → Place → Place → Items → Items
set_item item p n items = record {
  prev = update items.prev item p;
  next = update items.next item n;
}

abbrev pub same : Option ℕ → Option ℕ → Bool
same none none = true
same (some p) (some q) = p == q
same _ _ = false

-- `it ? it->prev : self->last`
abbrev pub before : Option ℕ → LinkedList → Items → Outcome (Option ℕ)
before none self items = returned self.last
before (some p) self items = target (items.prev p)

abbrev pub is_in_list : ℕ → Items → Bool
is_in_list item items = is_place (items.prev item)

-- nn_list_insert of `item` in front of `it`, `none` for the end of the list.
pub insert : ℕ → Option ℕ → LinkedList → Items → Outcome (LinkedList × Items)
insert item it self items = do
  assert (not (is_place (items.prev item)))
  p ← before it self items
  let items' = set_prev it (some item) (set_next p (some item) (set_item item (at p) (at it) items))
  returned (
    record {
      first = if is_null self.first || same self.first it then some item else self.first;
      last = if is_null it then some item else self.last;
    },
    items',
  )

-- nn_list_erase, with the item behind as the result.
pub erase : ℕ → LinkedList → Items → Outcome (Option ℕ × LinkedList × Items)
erase item self items = do
  assert (is_place (items.prev item))
  p ← target (items.prev item)
  n ← target (items.next item)
  let items' = set_item item not_in_list not_in_list (set_prev n p (set_next p n items))
  returned (
    n,
    record {
      first = if is_null p then n else self.first;
      last = if is_null n then p else self.last;
    },
    items',
  )

pub item_init : ℕ → Items → Items
item_init item items = set_item item not_in_list not_in_list items

pub item_term : ℕ → Items → Outcome (Unit {0})
item_term item items = assert (not (is_place (items.prev item)))
