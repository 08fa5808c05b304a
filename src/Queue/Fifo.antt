-- ===== src/Queue/Fifo.antt =====
-- nn_queue_push and nn_queue_pop on the list of queued items.
use nanomsg_copy.Prelude.{
  ℕ, ◌≡◌, refl, sym, ap, ◌∙◌, ◌≢◌, ◌↔◌, update_ne, update_self, has-ne, last-some, true, false,
  Option, none, some, List, [], ◌∷◌, ◌++◌, update, has, first, last, has-last, last-append_one,
  Distinct-append_one, Outcome, returned, arith,
}
use mathlib.Core.List.{tail}
use nanomsg_copy.Queue.{not_in_queue, next, Links, Queue, init, empty, push, pop}
use nanomsg_copy.Queue.Chain.{IsQueue, Linked-update, has-Linked, Linked-append_one}

-- A fresh or terminated queue holds nothing.
init-IsQueue : (links : Links) → IsQueue [] init links
unfolding init
init-IsQueue links = record { head = refl; tail = refl; linked = tt; distinct = tt }

first-append_one : (x a : ℕ) (xs : List ℕ) → first (x ∷ xs ++ a ∷ []) ≡ some x
first-append_one x a xs = refl

-- How nn_queue_push leaves a queue that held `xs`.
pub record Pushed (item : ℕ) (xs : List ℕ) (links : Links) (out : Queue × Links) : Type 0 where
  pub holds : IsQueue (xs ++ item ∷ []) out.0 out.1
  pub same : (p : ℕ) → has p (item ∷ xs) ≡ false → out.1 p ≡ links p

push-some :
    (item : ℕ) (self : Queue) (links : Links) (t x : ℕ) (xs : List ℕ)
    → IsQueue (x ∷ xs) self links
    → links item ≡ not_in_queue
    → last (x ∷ xs) ≡ some t
    → (out : Queue × Links) × (push item self links ≡ returned out) × Pushed item (x ∷ xs) links out
unfolding push
push-some item self links t x xs q free e = (
  (
    record { head = some x; tail = some item },
    update (update links item (next none)) t (next (some item)),
  ),
  ground (arith, q.head, q.tail),
  record {
    holds = record {
      head = refl;
      tail = sym (last-append_one (x ∷ xs) item);
      linked = Linked-append_one links item t x xs q.linked q.distinct fresh e;
      distinct = Distinct-append_one (x ∷ xs) item q.distinct fresh;
    };
    same = λ p h.
        update_ne (update links item (next none)) t (next (some item)) p
          (has-ne t p (x ∷ xs) (has-last (x ∷ xs) t e) (ground arith))
        ∙ update_ne links item (next none) p (ground arith);
  },
)
  where
    fresh : has item (x ∷ xs) ≡ false
    fresh = has-Linked links item (x ∷ xs) q.linked free

push-none :
    (item : ℕ) (self : Queue) (links : Links)
    → IsQueue [] self links
    → links item ≡ not_in_queue
    → (out : Queue × Links) × (push item self links ≡ returned out) × Pushed item [] links out
unfolding push
push-none item self links q free = (
  (record { head = some item; tail = some item }, update links item (next none)),
  ground (arith, q.head, q.tail),
  record {
    holds = record {
      head = refl;
      tail = refl;
      linked = (update_self links item (next none), tt);
      distinct = (refl, tt);
    };
    same = λ p h. update_ne links item (next none) p (ground arith);
  },
)

-- On a queue that holds `xs`, nn_queue_push of an item that is in no queue returns, puts the item
-- behind `xs`, and changes the `next` field of no item outside the queue.
pub push-append :
    (item : ℕ) (self : Queue) (links : Links) (xs : List ℕ)
    → IsQueue xs self links
    → links item ≡ not_in_queue
    → (out : Queue × Links) × (push item self links ≡ returned out) × Pushed item xs links out
push-append item self links [] q free = push-none item self links q free
push-append item self links (x ∷ xs) q free =
    let (t, e) = last-some x xs in push-some item self links t x xs q free e

-- nn_queue_push of an item that is in a queue already fails its assertion.
pub push-queued :
    (item : ℕ) (self : Queue) (links : Links)
    → links item ≢ not_in_queue
    → push item self links ≡ Outcome.abort
unfolding push
push-queued item self links h = ground (arith, h)

-- How nn_queue_pop leaves a queue that held `xs`.
pub record Popped (xs : List ℕ) (links : Links) (out : Option ℕ × Queue × Links) : Type 0 where
  pub result : out.0 ≡ first xs
  pub holds : IsQueue (tail xs) out.1 out.2
  pub freed : (p : ℕ) → first xs ≡ some p → out.2 p ≡ not_in_queue
  pub same : (p : ℕ) → first xs ≢ some p → out.2 p ≡ links p

-- nn_queue_pop returns on every queue: it takes off the oldest item and marks it as in no queue, or
-- returns NULL on an empty queue; no other item changes.
pub pop-first :
    (self : Queue) (links : Links) (xs : List ℕ)
    → IsQueue xs self links
    → (out : Option ℕ × Queue × Links) × (pop self links ≡ returned out) × Popped xs links out
unfolding pop
pop-first self links [] q = (
  (none, self, links),
  ground (arith, q.head),
  record { result = refl; holds = q; freed = λ p h. cc; same = λ p h. refl },
)
pop-first self links (x ∷ []) q = (
  (some x, record { head = none; tail = none }, update links x not_in_queue),
  ground (arith, q.head),
  record {
    result = refl;
    holds = record { head = refl; tail = refl; linked = tt; distinct = tt };
    freed = λ p h. ground arith;
    same = λ p h. update_ne links x not_in_queue p (λ e. h (ap some e));
  },
)
pop-first self links (x ∷ y ∷ ys) q = (
  (some x, record { head = some y; tail = self.tail }, update links x not_in_queue),
  ground (arith, q.head),
  record {
    result = refl;
    holds = record {
      head = refl;
      tail = q.tail;
      linked = Linked-update links x not_in_queue (y ∷ ys) q.linked.1 q.distinct.0;
      distinct = q.distinct.1;
    };
    freed = λ p h. ground arith;
    same = λ p h. update_ne links x not_in_queue p (λ e. h (ap some e));
  },
)

-- nn_queue_empty tells whether the queue holds no item, and nn_queue_item_isinqueue is false of an
-- item that nn_queue_item_init has set up.
pub empty-nil :
    (self : Queue) (links : Links) (xs : List ℕ)
    → IsQueue xs self links
    → (empty self ≡ true) ↔ (xs ≡ [])
unfolding empty
empty-nil self links [] q = (λ h. refl, λ h. ground (arith, q.head))
empty-nil self links (x ∷ xs) q = (λ h. ground (arith, q.head), λ h. cc)
