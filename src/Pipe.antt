-- ===== src/Pipe.antt =====
-- src/core/pipe.c: one end of a connection between a protocol and a transport. A transport keeps a
-- state of type `T`, and its send and receive functions (nn_pipebase_vfptr of src/transport.h) may
-- call nn_pipebase_sent and nn_pipebase_received, so they get the pipe and give it back.
pub mod Flow
pub mod Start
pub mod Options
mod Tests
use nanomsg_copy.Prelude.{
  ℕ, ◌+◌, ◌-◌, ◌%◌, Bool, true, false, List, [], ◌∷◌, ◌++◌, Outcome, returned, ◌>>=◌, ◌>>◌, assert,
  if◌then◌else◌,
}
use nanomsg_copy.Prelude.Int.{ℤ, pos, negsuc, ltb_ℤ}
use nanomsg_copy.Sock.{Sock, Protocol}
use nanomsg_copy.Sock.Statistics as Statistics

-- NN_PIPEBASE_STATE_*
pub data State : Type 0 where
  idle active failed : State

-- NN_PIPEBASE_INSTATE_*
pub data Instate : Type 0 where
  deactivated idle receiving received async : Instate

-- NN_PIPEBASE_OUTSTATE_*
pub data Outstate : Type 0 where
  deactivated idle sending sent async : Outstate

-- NN_PIPE_IN and NN_PIPE_OUT, the events that a pipe raises for its socket.
pub data Event : Type 0 where
  pipe_in pipe_out : Event

-- `raised` holds the events in the order of the nn_fsm_raise calls.
pub record Pipebase : Type 0 where
  pub state : State
  pub instate : Instate
  pub outstate : Outstate
  pub raised : List Event

pub is_idle : State → Bool
is_idle State.idle = true
is_idle _ = false

-- nn_pipebase_init, and nn_pipebase_term, which has an assertion only.
pub init : Pipebase
init = record {
  state = State.idle;
  instate = Instate.deactivated;
  outstate = Outstate.deactivated;
  raised = [];
}

pub term : Pipebase → Outcome (Unit {0})
term self = assert (is_idle self.state)

pub raise : Event → Pipebase → Pipebase
raise event self = record self { raised = self.raised ++ event ∷ [] }

module _ {S O Msg : Type 0} (vfptr : Protocol S Msg) where
  -- nn_pipebase_start of the pipe with this number, on its socket.
  pub start : ℕ → Pipebase → Sock S O → Outcome (ℤ × Pipebase × Sock S O)
  start pipe self sock = do
    assert (is_idle self.state)
    added ← Statistics.add vfptr pipe sock
    let started = record self {
      state = State.active;
      instate = Instate.async;
      outstate = Outstate.idle;
    }
    (if ltb_ℤ added.0 (pos 0)
        then returned (added.0, record started { state = State.failed }, added.1)
        else returned (pos 0, raise Event.pipe_out started, added.1))

  -- nn_pipebase_stop
  pub stop : ℕ → Pipebase → Sock S O → Outcome (Pipebase × Sock S O)
  stop pipe self sock = elim self.state [
    | State.active ↦ do
      sock' ← Statistics.rm vfptr pipe sock
      returned (record self { state = State.idle }, sock')
    | _ ↦ returned (record self { state = State.idle }, sock)
  ]

-- nn_pipebase_received
pub on_received : Pipebase → Outcome Pipebase
on_received self = elim self.instate [
  | Instate.receiving ↦ returned (record self { instate = Instate.received })
  | Instate.async ↦ returned (raise Event.pipe_in (record self { instate = Instate.idle }))
  | _ ↦ Outcome.abort
]

-- nn_pipebase_sent
pub on_sent : Pipebase → Outcome Pipebase
on_sent self = elim self.outstate [
  | Outstate.sending ↦ returned (record self { outstate = Outstate.sent })
  | Outstate.async ↦ returned (raise Event.pipe_out (record self { outstate = Outstate.idle }))
  | _ ↦ Outcome.abort
]

-- `rc | NN_PIPEBASE_RELEASE`
pub release : ℕ → ℕ
release rc = rc + (1 - rc % 2)

module _ {T : Type 0} where
  -- The part of nn_pipe_send behind the call of the transport.
  pub after_send : ℤ × Pipebase × T → Outcome (ℕ × Pipebase × T)
  after_send (negsuc n, self, t) = Outcome.abort
  after_send (pos rc, self, t) = elim self.outstate [
    | Outstate.sent ↦ returned (rc, record self { outstate = Outstate.idle }, t)
    | Outstate.sending ↦ returned (release rc, record self { outstate = Outstate.async }, t)
    | _ ↦ Outcome.abort
  ]

  -- nn_pipe_send, with the transport's send function applied to the message.
  pub send : (Pipebase → T → Outcome (ℤ × Pipebase × T)) → Pipebase → T → Outcome (ℕ × Pipebase × T)
  send vsend self t = elim self.outstate [
    | Outstate.idle ↦ vsend (record self { outstate = Outstate.sending }) t >>= after_send
    | _ ↦ Outcome.abort
  ]

  -- The part of nn_pipe_recv behind the call of the transport.
  pub after_recv : {Msg : Type 0} → ℤ × Msg × Pipebase × T → Outcome (ℕ × Msg × Pipebase × T)
  after_recv (negsuc n, msg, self, t) = Outcome.abort
  after_recv (pos rc, msg, self, t) = elim self.instate [
    | Instate.received ↦ returned (rc, msg, record self { instate = Instate.idle }, t)
    | Instate.receiving ↦ returned (release rc, msg, record self { instate = Instate.async }, t)
    | _ ↦ Outcome.abort
  ]

  -- nn_pipe_recv
  pub recv :
      {Msg : Type 0}
      → (Pipebase → T → Outcome (ℤ × Msg × Pipebase × T))
      → Pipebase
      → T
      → Outcome (ℕ × Msg × Pipebase × T)
  recv vrecv self t = elim self.instate [
    | Instate.idle ↦ vrecv (record self { instate = Instate.receiving }) t >>= after_recv
    | _ ↦ Outcome.abort
  ]
