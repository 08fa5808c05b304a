-- ===== src/Worker.antt =====
-- src/aio/worker_posix.inc, worker.c and their headers: the thread that waits for descriptors and timers and
-- runs tasks. What a state machine does with an event, in its context, is a parameter that changes the worker;
-- the mutex is held in each definition that takes it.
pub mod Timers
pub mod Tasks
mod Tests
use nanomsg_copy.Prelude.{
  ℕ, zero, suc, Bool, true, false, Option, none, some, List, [], ◌∷◌, Outcome, returned, undefined,
  out_of_fuel, ◌>>=◌, ◌>>◌, assert, if◌then◌else◌, ◌==◌, update, Rc, success, failure,
}
use nanomsg_copy.Prelude.Int.{ℤ}
use nanomsg_copy.Queue.{Queue, Links}
use nanomsg_copy.Queue as Tasks_queue
use nanomsg_copy.Poller.{Poller, Kind, poller_in, Wait, Waited, filled, negative, Ctl}
use nanomsg_copy.Poller as Fds
use nanomsg_copy.Timerset.{Timerset}
use nanomsg_copy.Timerset as Timeouts

-- The members src and owner of a struct nn_worker_fd or nn_worker_task, and owner of a nn_worker_timer.
pub record Source : Type 0 where
  pub src : ℤ
  pub owner : ℕ

-- struct nn_worker without its mutex and thread; of the event descriptor, whether it is signalled. Tasks,
-- descriptors and timers are the addresses of their item or handle.
pub record Worker : Type 0 where
  pub tasks : Queue
  pub links : Links
  pub signalled : Bool
  pub efd_hndl : ℕ
  pub poller : Poller
  pub hndls : Fds.Hndls
  pub timerset : Timerset
  pub timers : Timeouts.Hndls
  pub fd_sources : ℕ → Source
  pub task_sources : ℕ → Source
  pub timer_owners : ℕ → ℕ

-- The calls of nn_fsm_feed, between nn_ctx_enter and nn_ctx_leave: the owner, the source and the pointer.
pub data Call : Type 0 where
  timer_timeout : ℕ → ℕ → Call
  fd_event : ℕ → ℤ → ℕ → Call

pub fd_init : ℕ → ℤ → ℕ → Worker → Worker
fd_init fd src owner w = record w {
  fd_sources = update w.fd_sources fd (record { src = src; owner = owner });
}

-- What a call of the poller gives, back in the worker.
abbrev with_poller : Worker → List Ctl × Poller × Fds.Hndls → List Ctl × Worker
with_poller w (calls, p, hs) = (calls, record w { poller = p; hndls = hs })

pub add_fd : ℕ → ℕ → Worker → List Ctl × Worker
add_fd s fd w = with_poller w (Fds.add s fd w.poller w.hndls)

pub rm_fd : ℕ → Worker → Outcome (List Ctl × Worker)
rm_fd fd w = do r ← Fds.rm fd w.poller w.hndls; returned (with_poller w r)

pub set_in : ℕ → Worker → List Ctl × Worker
set_in fd w = with_poller w (Fds.set_in fd w.poller w.hndls)

pub reset_in : ℕ → Worker → Outcome (List Ctl × Worker)
reset_in fd w = do r ← Fds.reset_in fd w.poller w.hndls; returned (with_poller w r)

pub set_out : ℕ → Worker → List Ctl × Worker
set_out fd w = with_poller w (Fds.set_out fd w.poller w.hndls)

pub reset_out : ℕ → Worker → Outcome (List Ctl × Worker)
reset_out fd w = do r ← Fds.reset_out fd w.poller w.hndls; returned (with_poller w r)

-- `now` is what nn_clock_ms returns, and the fuel bounds the loop of nn_timerset_add.
pub add_timer : ℕ → ℕ → ℤ → ℕ → Worker → Outcome Worker
add_timer fuel now timeout timer w = do
  (first, ts, hs) ← Timeouts.add fuel now timeout timer w.timerset w.timers
  returned (record w { timerset = ts; timers = hs })

pub rm_timer : ℕ → Worker → Outcome Worker
rm_timer timer w = do
  (first, ts, hs) ← Timeouts.rm timer w.timerset w.timers
  returned (record w { timerset = ts; timers = hs })

pub task_init : ℕ → ℤ → ℕ → Worker → Worker
task_init task src owner w = record w {
  task_sources = update w.task_sources task (record { src = src; owner = owner });
  links = Tasks_queue.item_init task w.links;
}

pub task_term : ℕ → Worker → Outcome (Unit {0})
task_term task w = Tasks_queue.item_term task w.links

pub timer_init : ℕ → ℕ → Worker → Worker
timer_init timer owner w = record w {
  timer_owners = update w.timer_owners timer owner;
  timers = Timeouts.hndl_init timer w.timers;
}

pub timer_term : ℕ → Worker → Outcome (Unit {0})
timer_term timer w = Timeouts.hndl_term timer w.timers

pub timer_is_active : ℕ → Worker → Bool
timer_is_active timer w = Timeouts.hndl_is_active timer w.timers

pub execute : ℕ → Worker → Outcome Worker
execute task w = do
  (q, l) ← Tasks_queue.push task w.tasks w.links
  returned (record w { tasks = q; links = l; signalled = true })

-- The fuel bounds the loop of nn_queue_remove.
pub cancel : ℕ → ℕ → Worker → Outcome Worker
cancel fuel task w = do
  (q, l) ← Tasks_queue.remove fuel task w.tasks w.links
  returned (record w { tasks = q; links = l })

abbrev is_in : Kind → Bool
is_in poller_in = true
is_in _ = false

module _ (feed : Call → Worker → Outcome Worker) where
  -- The loop of nn_worker_routine over expired timers, for what nn_clock_ms returns in each call of
  -- nn_timerset_event; the timers that it feeds are a result.
  pub fire : List ℕ → Worker → Outcome (List ℕ × Worker)
  fire [] w = out_of_fuel
  fire (now ∷ nows) w = do
    (rc, timer, ts, hs) ← Timeouts.event now w.timerset w.timers
    let w1 : Worker = record w { timerset = ts; timers = hs }
    elim timer [
      | none ↦ returned ([], w1)
      | some t ↦ do
        w2 ← feed (timer_timeout (w.timer_owners t) t) w1
        (ts', w3) ← fire nows w2
        returned (t ∷ ts', w3)
    ]

  -- The loop over the events of the poller. For an event of the worker's own descriptor the routine takes the
  -- tasks out of the worker, and then reads its first task from a pointer that is not initialised.
  pub events : ℕ → Worker → Outcome Worker
  events zero w = out_of_fuel
  events (suc fuel) w =
      let (rc, out, p) = Fds.event w.poller in
      let w1 : Worker = record w { poller = p } in
      elim out [
        | none ↦ returned w1
        | some (k, h) ↦ if h == w.efd_hndl then (do assert (is_in k); undefined) else do
          w2 ← feed (fd_event (w.fd_sources h).owner (w.fd_sources h).src h) w1
          events fuel w2
      ]

  -- One round of nn_worker_routine, for the answers of epoll_wait.
  pub round : ℕ → List Wait → List ℕ → Worker → Outcome (List ℕ × Worker)
  round fuel answers nows w = do
    waited ← Fds.wait answers w.poller
    elim waited [
      | negative ↦ undefined
      | filled p ↦ do
        (ts, w1) ← fire nows (record w { poller = p })
        w2 ← events fuel w1
        returned (ts, w2)
    ]
