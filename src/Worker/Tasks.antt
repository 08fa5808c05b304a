-- ===== src/Worker/Tasks.antt =====
-- src/aio/worker_posix.inc: nn_worker_execute and nn_worker_cancel of a task.
use nanomsg_copy.Prelude.{
  ℕ, suc, ◌<◌, ◌≡◌, refl, true, false, List, [], ◌∷◌, ◌++◌, has, has-append, erase, length,
  length-append, returned, arith,
}
use nanomsg_copy.Queue.{not_in_queue}
use nanomsg_copy.Queue.Chain.{IsQueue, has-Linked}
use nanomsg_copy.Queue.Fifo.{push-append}
use nanomsg_copy.Queue.Remove.{remove-erase}
use nanomsg_copy.Worker.{Worker, execute, cancel}

erase-append_one : (a : ℕ) (xs : List ℕ) → has a xs ≡ false → erase a (xs ++ a ∷ []) ≡ xs
erase-append_one a [] h = ground arith
erase-append_one a (x ∷ xs) h = ground (arith, h, erase-append_one a xs)

-- For a worker whose queue holds the tasks xs, a task that is in no queue, and fuel above the tasks with the new
-- one: nn_worker_execute returns, with the task behind the others and the event descriptor signalled;
-- nn_worker_cancel of the task then returns, with the queue as it was and the task in no queue.
pub cancel-execute :
    (fuel task : ℕ) (xs : List ℕ) (w : Worker)
    → IsQueue xs w.tasks w.links
    → w.links task ≡ not_in_queue
    → suc (length xs) < fuel
    → (w1 : Worker) × (w2 : Worker) × (execute task w ≡ returned w1)
      × IsQueue (xs ++ task ∷ []) w1.tasks w1.links
      × (w1.signalled ≡ true)
      × (cancel fuel task w1 ≡ returned w2)
      × IsQueue xs w2.tasks w2.links
      × (w2.links task ≡ not_in_queue)
unfolding execute cancel
cancel-execute fuel task xs w q free enough =
    let (pushed, e, p) = push-append task w.tasks w.links xs q free in
    let absent : has task xs ≡ false = has-Linked w.links task xs q.linked free in
    let inside : has task (xs ++ task ∷ []) ≡ true =
      ground (arith, has-append task xs (task ∷ [])) in
    let (removed, r, k) =
      remove-erase fuel task pushed.0 pushed.1 (xs ++ task ∷ []) p.holds inside
        (omega (arith, length-append {0} xs (task ∷ []))) in
    let w1 : Worker = record w { tasks = pushed.0; links = pushed.1; signalled = true } in
    (
      w1,
      record w1 { tasks = removed.0; links = removed.1 },
      rw e refl,
      p.holds,
      refl,
      rw r refl,
      rw (erase-append_one task xs absent) at k.holds,
      k.freed,
    )
