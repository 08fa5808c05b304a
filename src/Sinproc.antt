-- ===== src/Sinproc.antt =====
-- src/transports/inproc/sinproc.c: one of the two sessions of an in-process connection. The state
-- that the event loop keeps of it (nn_fsm) is not part of it here. The other session is its peer; an
-- event from the peer comes with the message that the peer is sending, and what becomes of that
-- message slot is a result. Raised events are results too, in order.
pub mod Ending
mod Tests
use nanomsg_copy.Prelude.{
  ℕ, zero, suc, Bool, true, false, ◌&&◌, ◌||◌, not, Option, none, some, List, [], ◌∷◌, ◌++◌, Rc,
  success, failure, Errno, Outcome, returned, ◌>>=◌, ◌>>◌, assert, if◌then◌else◌,
}
use nanomsg_copy.Prelude.Int.{ℤ, pos, negsuc}
use nanomsg_copy.Sock.{Sock, Protocol}
use nanomsg_copy.Msgqueue as Msgqueue
use nanomsg_copy.Msgqueue.{Msgqueue, MsgOps}
use nanomsg_copy.Pipe as Pipe
use nanomsg_copy.Pipe.{Pipebase}

-- NN_SINPROC_STATE_*
pub data State : Type 0 where
  idle connecting ready active disconnected stopping_peer stopping : State

-- NN_SINPROC_CONNECT and so on, from the peer.
pub data Kind : Type 0 where
  connect ready accepted sent received disconnect stopped : Kind

-- The events of the state machine: NN_FSM_START, NN_FSM_STOP, NN_SINPROC_ACTION_READY and
-- NN_SINPROC_ACTION_ACCEPTED, those from the peer, and those from any other source.
pub data Event : Type 0 where
  start stop action_ready action_accepted : Event
  from_peer : Kind → Event
  other_source : Event

-- nn_fsm_raiseto to the peer, and nn_fsm_raise to the owner.
pub data Raised : Type 0 where
  to_peer to_owner : Kind → Raised

-- `sock` is the socket of the pipe; `connected` says that `peer` is not NULL.
pub record Sinproc (S O Msg : Type 0) : Type 0 where
  pub state : State
  pub sending : Bool  -- NN_SINPROC_FLAG_SENDING
  pub receiving : Bool  -- NN_SINPROC_FLAG_RECEIVING
  pub connected : Bool
  pub pipebase : Pipebase
  pub sock : Sock S O
  pub msgqueue : Msgqueue Msg
  pub msg : Msg

-- What an event leaves behind; `slot` is the message of the peer.
pub record Result (S O Msg : Type 0) : Type 0 where
  pub raised : List Raised
  pub self : Sinproc S O Msg
  pub slot : Msg

abbrev is_zero : ℤ → Bool
is_zero (pos zero) = true
is_zero (pos (suc n)) = false
is_zero (negsuc n) = false

-- nn_pipebase_received under a condition.
pub received_if : Bool → Pipebase → Outcome Pipebase
received_if true p = Pipe.on_received p
received_if false p = returned p

-- The states in which nn_fsm_stop has nobody to tell.
abbrev is_detached : State → Bool
is_detached State.idle = true
is_detached State.disconnected = true
is_detached _ = false

abbrev is_stopping : State → Bool
is_stopping State.stopping = true
is_stopping _ = false

pub may_receive : State → Bool
may_receive State.active = true
may_receive State.disconnected = true
may_receive _ = false

pub is_disconnected : State → Bool
is_disconnected State.disconnected = true
is_disconnected _ = false

-- `blank` is the message that nn_msg_init makes for size 0, `ops` what the queue calls on a message, and
-- `pipe` the number of the pipe. `fresh` is what nn_alloc gives for a chunk of the queue.
module _ {S O Msg : Type 0} (vfptr : Protocol S Msg) (ops : MsgOps Msg) (blank : Msg)
    (pipe : ℕ) where
  -- The initial state; `queue` is what nn_msgqueue_init makes.
  pub init : Sock S O → Msgqueue Msg → Sinproc S O Msg
  init sock queue = record {
    state = State.idle;
    sending = false;
    receiving = false;
    connected = false;
    pipebase = Pipe.init;
    sock = sock;
    msgqueue = queue;
    msg = blank;
  }

  abbrev result : List Raised → Sinproc S O Msg → Msg → Outcome (Result S O Msg)
  result raised self slot = returned (record { raised = raised; self = self; slot = slot })

  start_pipe : Sinproc S O Msg → Outcome (ℤ × Sinproc S O Msg)
  start_pipe self = do
    r ← Pipe.start vfptr pipe self.pipebase self.sock
    returned (r.0, record self { pipebase = r.1; sock = r.2 })

  pub stop_pipe : Sinproc S O Msg → Outcome (Sinproc S O Msg)
  stop_pipe self = do
    r ← Pipe.stop vfptr pipe self.pipebase self.sock
    returned (record self { pipebase = r.0; sock = r.1 })

  pub on_connecting : Event → Sinproc S O Msg → Msg → Outcome (Result S O Msg)
  on_connecting Event.action_ready self slot = result [] (record self { state = State.ready }) slot
  on_connecting (Event.from_peer Kind.ready) self slot = do
    r ← start_pipe (record self { connected = true })
    assert (is_zero r.0)
    result (Raised.to_peer Kind.accepted ∷ []) (record r.1 { state = State.active }) slot
  on_connecting event self slot = Outcome.abort

  pub on_ready : Event → Sinproc S O Msg → Msg → Outcome (Result S O Msg)
  on_ready (Event.from_peer Kind.ready) self slot = do
    r ← start_pipe self
    assert (is_zero r.0)
    result [] (record r.1 { state = State.active }) slot
  on_ready (Event.from_peer Kind.accepted) self slot = do
    r ← start_pipe self
    if is_zero r.0 then result [] (record r.1 { state = State.active }) slot else do
      halted ← stop_pipe r.1
      result (Raised.to_owner Kind.disconnect ∷ [])
          (record halted { state = State.disconnected; connected = false }) slot
  on_ready event self slot = Outcome.abort

  -- NN_SINPROC_SENT: the message of the peer goes to the queue, if it fits.
  pub on_sent : Option ℕ → Sinproc S O Msg → Msg → Outcome (Result S O Msg)
  on_sent fresh self slot = do
    r ← Msgqueue.send ops fresh slot self.msgqueue
    (elim r.0 [
      | failure Errno.eagain ↦ result [] (record self { receiving = true }) r.1
      | failure e ↦ Outcome.abort
      | success ↦ do
        p ← received_if (Msgqueue.empty ops self.msgqueue) self.pipebase
        result (Raised.to_peer Kind.received ∷ []) (record self { msgqueue = r.2; pipebase = p })
            blank
    ])

  pub on_received : Sinproc S O Msg → Msg → Outcome (Result S O Msg)
  on_received self slot = do
    assert self.sending
    p ← Pipe.on_sent self.pipebase
    result [] (record self { pipebase = p; sending = false }) slot

  pub on_disconnect : Sinproc S O Msg → Msg → Outcome (Result S O Msg)
  on_disconnect self slot = do
    halted ← stop_pipe self
    result (Raised.to_peer Kind.disconnect ∷ Raised.to_owner Kind.disconnect ∷ [])
        (record halted { state = State.disconnected; connected = false }) slot

  pub on_active : Option ℕ → Event → Sinproc S O Msg → Msg → Outcome (Result S O Msg)
  on_active fresh (Event.from_peer Kind.sent) self slot = on_sent fresh self slot
  on_active fresh (Event.from_peer Kind.received) self slot = on_received self slot
  on_active fresh (Event.from_peer Kind.disconnect) self slot = on_disconnect self slot
  on_active fresh event self slot = Outcome.abort

  abbrev on_idle : Event → Sinproc S O Msg → Msg → Outcome (Result S O Msg)
  on_idle Event.start self slot = result [] (record self { state = State.connecting }) slot
  on_idle event self slot = Outcome.abort

  abbrev on_disconnected : Event → Sinproc S O Msg → Msg → Outcome (Result S O Msg)
  on_disconnected (Event.from_peer Kind.received) self slot = result [] self slot
  on_disconnected event self slot = Outcome.abort

  -- nn_sinproc_handler
  pub handler : Option ℕ → Event → Sinproc S O Msg → Msg → Outcome (Result S O Msg)
  handler fresh event self slot = elim self.state [
    | State.idle ↦ on_idle event self slot
    | State.connecting ↦ on_connecting event self slot
    | State.ready ↦ on_ready event self slot
    | State.active ↦ on_active fresh event self slot
    | State.disconnected ↦ on_disconnected event self slot
    | _ ↦ Outcome.abort
  ]

  -- The branch of nn_sinproc_shutdown_events for NN_FSM_STOP. Telling a peer that is NULL reads
  -- through that pointer.
  pub on_stop : Sinproc S O Msg → Msg → Outcome (Result S O Msg)
  on_stop self slot =
      if is_detached self.state then result [] (record self { state = State.stopping }) slot else do
        halted ← stop_pipe self
        (if self.connected
            then result (Raised.to_peer Kind.disconnect ∷ [])
                (record halted { state = State.stopping_peer }) slot
            else Outcome.undefined)

  -- nn_sinproc_shutdown_events. The actions other than NN_FSM_STOP fall through to the cases for the
  -- peer, none of which has their numbers.
  pub shutdown_events : Event → Sinproc S O Msg → Msg → Outcome (Result S O Msg)
  shutdown_events Event.stop self slot = on_stop self slot
  shutdown_events (Event.from_peer Kind.received) self slot = result [] self slot
  shutdown_events (Event.from_peer Kind.disconnect) self slot = elim self.state [
    | State.stopping_peer ↦ result [] (record self { state = State.stopping }) slot
    | _ ↦ Outcome.abort
  ]
  shutdown_events (Event.from_peer kind) self slot = elim self.state [
    | State.stopping_peer ↦ result [] self slot
    | _ ↦ Outcome.abort
  ]
  shutdown_events event self slot = Outcome.abort

  -- nn_sinproc_shutdown; `pending` says whether event_received or event_disconnect of the session are
  -- still queued, `others` the same of event_connect and event_sent. The Boolean of the result is
  -- whether nn_fsm_stopped is called.
  pub shutdown : Bool → Bool → Event → Sinproc S O Msg → Msg → Outcome (Bool × Result S O Msg)
  shutdown pending others event self slot = do
    r ← shutdown_events event self slot
    (if not (is_stopping r.self.state) || pending
        then returned (false, r)
        else assert (not others) >> returned (true, r))

  -- The block of nn_sinproc_recv that lets a peer go on that waits for room.
  pub unblock : Option ℕ → Sinproc S O Msg → Msg → Outcome (Result S O Msg)
  unblock fresh self slot = do
    r ← Msgqueue.send ops fresh slot self.msgqueue
    (elim r.0 [
      | success ↦
          result (Raised.to_peer Kind.received ∷ [])
            (record self { msgqueue = r.2; receiving = false }) blank
      | failure Errno.eagain ↦ result [] self r.1
      | failure e ↦ Outcome.abort
    ])

  -- nn_sinproc_recv
  pub recv : Option ℕ → Sinproc S O Msg → Msg → Outcome (Msg × Result S O Msg)
  recv fresh self slot = do
    assert (may_receive self.state)
    q ← Msgqueue.recv ops self.msgqueue
    (elim q.1 [
      | none ↦ Outcome.abort
      | some msg ↦ do
        let taken : Sinproc S O Msg = record self { msgqueue = q.2 }
        r ←
            (if not (is_disconnected self.state) && self.receiving
              then unblock fresh taken slot
              else result [] taken slot)
        p ← received_if (not (Msgqueue.empty ops r.self.msgqueue)) r.self.pipebase
        returned (msg, record r { self = record r.self { pipebase = p } })
    ])

  -- nn_pipe_recv on the pipe of the session, which calls nn_sinproc_recv.
  pub pipe_recv : Option ℕ → Sinproc S O Msg → Msg → Outcome (ℕ × Msg × Result S O Msg)
  pipe_recv fresh self slot =
      Pipe.recv
        (λ p t. recv fresh (record self { pipebase = p }) slot >>= λ r.
          returned (pos 0, r.0, r.1.self.pipebase, r.1))
        self.pipebase (record { raised = []; self = self; slot = slot })
      >>= λ r. returned (r.0, r.1, record r.3 { self = record r.3.self { pipebase = r.2 } })
