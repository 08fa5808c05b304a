-- ===== src/Timer.antt =====
-- src/aio/timer.c and timer.h: a timer that runs on a worker thread. What the worker and the event loop are
-- asked to do are results, in order; their code is not part of it.
pub mod Run
mod Tests
use nanomsg_copy.Prelude.{
  ℕ, zero, suc, Bool, true, false, not, List, [], ◌∷◌, ◌++◌, Outcome, returned, ◌>>=◌, ◌>>◌, assert,
  if◌then◌else◌,
}
use nanomsg_copy.Prelude.Int.{ℤ, pos, negsuc, ltb_ℤ}

-- NN_TIMER_STATE_*
pub data State : Type 0 where
  idle active stopping : State

-- NN_FSM_START, NN_FSM_STOP and other actions; NN_TIMER_SRC_START_TASK and NN_TIMER_SRC_STOP_TASK, each
-- with whether the type is NN_WORKER_TASK_EXECUTE; the worker's timer, with whether the type is
-- NN_WORKER_TIMER_TIMEOUT.
pub data Event : Type 0 where
  start stop other_action : Event
  start_task stop_task expiry : Bool → Event
  other_source : Event

-- nn_fsm_start, nn_worker_execute of the two tasks, nn_worker_add_timer, nn_worker_rm_timer, nn_fsm_raise
-- of NN_TIMER_TIMEOUT and nn_fsm_stopped.
pub data Action : Type 0 where
  fsm_start execute_start execute_stop rm_timer raise_timeout fsm_stopped : Action
  add_timer : ℤ → Action

pub record Timer : Type 0 where
  pub state : State
  pub timeout : ℤ

abbrev pub Result : Type 0
Result = Outcome (List Action × Timer)

abbrev is_idle : State → Bool
is_idle State.idle = true
is_idle _ = false

pub init : Timer
init = record { state = State.idle; timeout = negsuc 0 }

pub term : Timer → Outcome (Unit {0})
term self = assert (is_idle self.state)

-- nn_timer_start
pub begin : ℤ → Timer → Result
begin timeout self =
    assert (not (ltb_ℤ timeout (pos 0)))
    >> returned (Action.fsm_start ∷ [], record self { timeout = timeout })

-- The branch of nn_timer_shutdown for NN_TIMER_STATE_STOPPING.
on_stopping : Event → Timer → Result
on_stopping (Event.stop_task execute) self =
    assert execute
    >> returned (Action.rm_timer ∷ Action.fsm_stopped ∷ [], record self { state = State.idle })
on_stopping event self = returned ([], self)

-- nn_timer_shutdown
pub shutdown : Event → Timer → Result
shutdown Event.stop self =
    returned (Action.execute_stop ∷ [], record self { state = State.stopping })
shutdown event self = elim self.state [
  | State.stopping ↦ on_stopping event self
  | _ ↦ Outcome.abort
]

abbrev is_unset : ℤ → Bool
is_unset (negsuc n) = elim n [ zero ↦ true | suc k ↦ false ]
is_unset (pos n) = false

on_active : Event → Timer → Result
on_active (Event.start_task execute) self =
    assert execute
    >> assert (not (ltb_ℤ self.timeout (pos 0)))
    >> returned (Action.add_timer self.timeout ∷ [], record self { timeout = negsuc 0 })
on_active (Event.expiry true) self =
    assert (is_unset self.timeout) >> returned (Action.raise_timeout ∷ [], self)
on_active event self = Outcome.abort

on_idle : Event → Timer → Result
on_idle Event.start self =
    returned (Action.execute_start ∷ [], record self { state = State.active })
on_idle event self = Outcome.abort

-- nn_timer_handler
pub handler : Event → Timer → Result
handler event self = elim self.state [
  | State.idle ↦ on_idle event self
  | State.active ↦ on_active event self
  | State.stopping ↦ Outcome.abort
]
