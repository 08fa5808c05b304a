-- ===== src/Queue/Tests.antt =====
-- Runs of the queue, and its theorems at concrete queues.
use nanomsg_copy.Prelude.{ℕ, Option, ◌≡◌, returned, arith, zero, suc, refl, none, some, [], ◌∷◌}
use nanomsg_copy.Queue.{not_in_queue, next, Links, Queue, pop, remove}
use nanomsg_copy.Queue.Chain.{IsQueue}
use nanomsg_copy.Queue.Fifo.{Popped, pop-first}
use nanomsg_copy.Queue.Remove.{Removed, remove-erase}

-- Items 1 and 2 are queued; item 3 is free.
abbrev two_links : Links
two_links zero = not_in_queue
two_links (suc zero) = next (some 2)
two_links (suc (suc zero)) = next none
two_links (suc (suc (suc n))) = not_in_queue

abbrev two : Queue
two = record { head = some 1; tail = some 2 }

two-IsQueue : IsQueue (1 ∷ 2 ∷ []) two two_links
two-IsQueue = record {
  head = refl;
  tail = refl;
  linked = (refl, (refl, tt));
  distinct = (refl, (refl, tt));
}

pop-first_example :
    (out : Option ℕ × Queue × Links) × (pop two two_links ≡ returned out)
    × Popped (1 ∷ 2 ∷ []) two_links out
pop-first_example = pop-first two two_links (1 ∷ 2 ∷ []) two-IsQueue

remove-erase_example :
    (out : Queue × Links) × (remove 3 2 two two_links ≡ returned out)
    × Removed 2 (1 ∷ 2 ∷ []) two_links out
remove-erase_example = remove-erase 3 2 two two_links (1 ∷ 2 ∷ []) two-IsQueue refl (omega arith)
