-- ===== src/Worker/Tests.antt =====
-- Tests of the worker: two timers, that expire at 20 and at 40, and two tasks.
use nanomsg_copy.Prelude.{
  ◌≡◌, refl, true, false, none, some, [], ◌∷◌, update, Outcome, returned, arith,
}
use nanomsg_copy.Prelude.Int.{pos}
use nanomsg_copy.LinkedList.{not_in_list, at}
use nanomsg_copy.Queue.{not_in_queue, next}
use nanomsg_copy.Queue.Chain.{IsQueue}
use nanomsg_copy.Poller.{no_events}
use nanomsg_copy.Timerset.Order.{IsTimerset}
use nanomsg_copy.Worker.{Worker, Call, fire, execute, cancel}
use nanomsg_copy.Worker.Timers.{LeavesTimers, fire-expired}
use nanomsg_copy.Worker.Tasks.{cancel-execute}

abbrev worker : Worker
worker = record {
  tasks = record { head = some 1; tail = some 2 };
  links = update (update (λ p. not_in_queue) 1 (next (some 2))) 2 (next none);
  signalled = false;
  efd_hndl = 9;
  poller = record { nevents = 0; index = 0; events = λ i. record { hndl = 0; mask = no_events } };
  hndls = λ h. record { fd = h; events = no_events };
  timerset = record { timeouts = record { first = some 3; last = some 5 } };
  timers = record {
    list = record {
      prev = update (update (λ q. not_in_list) 3 (at none)) 5 (at (some 3));
      next = update (update (λ q. not_in_list) 3 (at (some 5))) 5 (at none);
    };
    timeout = update (update (λ q. 0) 3 20) 5 40;
  };
  fd_sources = λ f. record { src = pos 1; owner = f };
  task_sources = λ t. record { src = pos 2; owner = t };
  timer_owners = λ t. t;
}

worker-IsTimerset : IsTimerset (3 ∷ 5 ∷ []) worker.timerset worker.timers
worker-IsTimerset = record {
  list = record {
    first = refl;
    last = refl;
    linked = (refl, refl, (refl, refl, tt));
    distinct = (refl, (refl, tt));
  };
  sorted = ((omega arith, tt), (tt, tt));
}

worker-IsQueue : IsQueue (1 ∷ 2 ∷ []) worker.tasks worker.links
worker-IsQueue = record {
  head = refl;
  tail = refl;
  linked = (refl, (refl, tt));
  distinct = (refl, (refl, tt));
}

-- Machines that do nothing.
abbrev idle : Call → Worker → Outcome Worker
idle call w = returned w

idle-LeavesTimers : LeavesTimers idle
idle-LeavesTimers call w = (w, refl, refl, refl)

fire-expired_example :
    (w' : Worker) × (fire idle (25 ∷ 26 ∷ 27 ∷ []) worker ≡ returned (3 ∷ [], w'))
    × IsTimerset (5 ∷ []) w'.timerset w'.timers
fire-expired_example =
    fire-expired idle (25 ∷ 26 ∷ 27 ∷ []) (3 ∷ 5 ∷ []) worker idle-LeavesTimers worker-IsTimerset
      (omega arith)

cancel-execute_example :
    (w1 : Worker) × (w2 : Worker) × (execute 4 worker ≡ returned w1)
    × IsQueue (1 ∷ 2 ∷ 4 ∷ []) w1.tasks w1.links
    × (w1.signalled ≡ true)
    × (cancel 5 4 w1 ≡ returned w2)
    × IsQueue (1 ∷ 2 ∷ []) w2.tasks w2.links
    × (w2.links 4 ≡ not_in_queue)
cancel-execute_example = cancel-execute 5 4 (1 ∷ 2 ∷ []) worker worker-IsQueue refl (omega arith)
