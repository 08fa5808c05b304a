-- ===== src/Queue.antt =====
-- src/utils/queue.c: an intrusive singly linked queue. An item is its address; `Links` holds the
-- `next` field of every item in memory, so that queues that share a memory can be told apart.
pub mod Chain
pub mod Fifo
pub mod Remove
mod Tests
use nanomsg_copy.Prelude.{
  ℕ, zero, suc, Bool, true, false, Option, none, some, ◌==◌, if◌then◌else◌, update, Outcome,
  returned, out_of_fuel, assert, ◌>>=◌, ◌>>◌,
}

-- `next`: NN_QUEUE_NOTINQUEUE, or NULL or an item.
pub data Link : Type 0 where
  not_in_queue : Link
  next : Option ℕ → Link

abbrev pub Links : Type 0
Links = ℕ → Link

pub record Queue : Type 0 where
  pub head : Option ℕ
  pub tail : Option ℕ

abbrev pub is_not_in_queue : Link → Bool
is_not_in_queue not_in_queue = true
is_not_in_queue (next p) = false

-- `it->next` where `it` is linked; the marker is not an address, so following it faults.
abbrev pub target : Link → Outcome (Option ℕ)
target not_in_queue = Outcome.abort
target (next p) = returned p

pub init : Queue
init = record { head = none; tail = none }

pub term : Queue → Queue
term self = record { head = none; tail = none }

pub empty : Queue → Bool
empty self = elim self.head [ none ↦ true | some p ↦ false ]

-- `if (p) p->next = link`
set_next : Option ℕ → Link → Links → Links
set_next none link links = links
set_next (some p) link links = update links p link

or_item : Option ℕ → ℕ → Option ℕ
or_item none item = some item
or_item (some p) item = some p

pub push : ℕ → Queue → Links → Outcome (Queue × Links)
unfolding set_next or_item
push item self links = do
  assert (is_not_in_queue (links item))
  let fresh = update links item (next none)
  returned (
    record { head = or_item self.head item; tail = some item },
    set_next self.tail (next (some item)) fresh,
  )

-- `p == item`
abbrev is_item : Option ℕ → ℕ → Bool
is_item none item = false
is_item (some p) item = p == item

-- The loop of nn_queue_remove from `it` on, at most `fuel` rounds.
unlink : ℕ → Option ℕ → Option ℕ → ℕ → Queue → Links → Outcome (Queue × Links)
unfolding set_next
unlink zero it prev item self links = out_of_fuel
unlink (suc fuel) none prev item self links = returned (self, links)
unlink (suc fuel) (some it) prev item self links = do
  after ← target (links it)
  let rest = unlink fuel after (some it) item self links
  if it == item
      then returned (
        record {
          head = if is_item self.head it then after else self.head;
          tail = if is_item self.tail it then prev else self.tail;
        },
        update (set_next prev (next after) links) it not_in_queue,
      )
      else rest

pub remove : ℕ → ℕ → Queue → Links → Outcome (Queue × Links)
unfolding unlink
remove fuel item self links =
    if is_not_in_queue (links item)
    then returned (self, links)
    else unlink fuel self.head none item self links

pub pop : Queue → Links → Outcome (Option ℕ × Queue × Links)
pop self links = elim self.head [
  | none ↦ returned (none, self, links)
  | some result ↦ do
    head ← target (links result)
    returned (
      some result,
      record { head = head; tail = elim head [ none ↦ none | some p ↦ self.tail ] },
      update links result not_in_queue,
    )
]

pub item_init : ℕ → Links → Links
item_init item links = update links item not_in_queue

pub item_term : ℕ → Links → Outcome (Unit {0})
item_term item links = assert (is_not_in_queue (links item))

pub item_is_in_queue : ℕ → Links → Bool
item_is_in_queue item links = if is_not_in_queue (links item) then false else true
