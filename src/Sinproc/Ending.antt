-- ===== src/Sinproc/Ending.antt =====
-- How NN_FSM_STOP ends an in-process session (src/transports/inproc/sinproc.c).
use nanomsg_copy.Prelude.{
  ℕ, suc, ◌-◌, ◌^◌, ◌<◌, ◌≡◌, refl, Bool, true, false, [], ◌∷◌, returned, ◌>>=◌, arith,
}
use nanomsg_copy.Prelude.Int.{pos}
use nanomsg_copy.Sock.{Protocol}
use nanomsg_copy.Msgqueue.{MsgOps}
use nanomsg_copy.Pipe as Pipe
use nanomsg_copy.Pipe.{Pipebase}
use nanomsg_copy.Pipe.Start.{stop-active}
use nanomsg_copy.Sinproc.{
  State, Kind, Event, Raised, Sinproc, on_stop, shutdown, shutdown_events, stop_pipe,
}

module _ {S O Msg : Type 0} (vfptr : Protocol S Msg) (ops : MsgOps Msg) (blank : Msg)
    (pipe : ℕ) where
  -- The session when its pipe has been stopped.
  abbrev pub without_pipe : ℕ → Sinproc S O Msg → Sinproc S O Msg
  without_pipe n self = record self {
    pipebase = record self.pipebase { state = Pipe.State.idle };
    sock = record self.sock {
      sockbase = vfptr.rm pipe self.sock.sockbase;
      statistics = record self.sock.statistics { current_connections = pos n };
    };
  }

  stop_pipe-active :
      (n : ℕ) (self : Sinproc S O Msg)
      → self.pipebase.state ≡ Pipe.State.active
      → self.sock.statistics.current_connections ≡ pos (suc n)
      → n < 2 ^ 31 - 1
      → stop_pipe vfptr ops blank pipe self ≡ returned (without_pipe n self)
  unfolding stop_pipe
  stop_pipe-active n self p h k = rw (stop-active vfptr pipe n self.pipebase self.sock p h k)

  stop-active_session :
      (self : Sinproc S O Msg) (slot : Msg)
      → self.state ≡ State.active
      → self.connected ≡ true
      → on_stop vfptr ops blank pipe self slot ≡ (
          stop_pipe vfptr ops blank pipe self >>= λ halted. returned (record {
            raised = Raised.to_peer Kind.disconnect ∷ [];
            self = record halted { state = State.stopping_peer };
            slot = slot;
          }))
  unfolding on_stop
  stop-active_session self slot st c = ground (arith, st, c)

  -- An active session that is stopped takes its pipe from its socket, tells its peer and waits; it is
  -- not stopped yet. When the peer answers, and none of the four events of the session are queued, it
  -- is stopped, without telling the peer again.
  pub shutdown-handshake :
      (n : ℕ) (pending others : Bool) (self : Sinproc S O Msg) (slot slot' : Msg)
      → self.state ≡ State.active
      → self.connected ≡ true
      → self.pipebase.state ≡ Pipe.State.active
      → self.sock.statistics.current_connections ≡ pos (suc n)
      → n < 2 ^ 31 - 1
      → (waits : Sinproc S O Msg) × (after : Sinproc S O Msg) × (shutdown vfptr ops blank pipe
            pending others Event.stop self slot
          ≡ returned (
            false,
            record { raised = Raised.to_peer Kind.disconnect ∷ []; self = waits; slot = slot },
          ))
        × (waits.sock.statistics.current_connections ≡ pos n)
        × (shutdown vfptr ops blank pipe false false (Event.from_peer Kind.disconnect) waits slot'
            ≡ returned (true, record { raised = []; self = after; slot = slot' }))
        × (after.state ≡ State.stopping)
  unfolding shutdown shutdown_events
  shutdown-handshake n pending others self slot slot' st c p h k = (
    record (without_pipe n self) { state = State.stopping_peer },
    record (without_pipe n self) { state = State.stopping },
    rw (stop-active_session self slot st c, stop_pipe-active n self p h k),
    refl,
    refl,
    refl,
  )
