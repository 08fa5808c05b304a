-- ===== src/Sinproc/Tests.antt =====
-- A session with one message in its queue; messages are numbers and their own sizes.
use nanomsg_copy.Prelude.{ℕ, ◌≡◌, refl, true, false, Option, none, some, [], ◌∷◌, returned, arith}
use nanomsg_copy.Prelude.Int.{pos}
use nanomsg_copy.Sock.{Sock}
use nanomsg_copy.Sock.Samples.{no_protocol, fresh_sock, fresh_counters}
use nanomsg_copy.Msgqueue.{Msgqueue, MsgOps}
use nanomsg_copy.Pipe as Pipe
use nanomsg_copy.Sinproc.{State, Kind, Event, Raised, Sinproc, shutdown}
use nanomsg_copy.Sinproc.Ending.{shutdown-handshake}

abbrev weight : MsgOps ℕ
weight = record { size = λ m. returned (m, m); mv = λ m. returned m }

abbrev one_message : Msgqueue ℕ
one_message = record {
  out_chunk = some 1;
  out_pos = 1;
  in_chunk = some 1;
  in_pos = 0;
  count = 1;
  mem = 7;
  maxmem = 100;
  cache = none;
  msgs = λ c i. 7;
  next = λ c. none;
}

abbrev one_connection : Sock (Option ℕ) ℕ
one_connection = record fresh_sock {
  statistics = record fresh_counters { current_connections = pos 1 };
}

abbrev session : Sinproc (Option ℕ) ℕ ℕ
session = record {
  state = State.active;
  sending = false;
  receiving = false;
  connected = true;
  pipebase = record {
    state = Pipe.State.active;
    instate = Pipe.Instate.idle;
    outstate = Pipe.Outstate.idle;
    raised = [];
  };
  sock = one_connection;
  msgqueue = one_message;
  msg = 0;
}

shutdown-handshake_example :
    (waits : Sinproc (Option ℕ) ℕ ℕ) × (after : Sinproc (Option ℕ) ℕ ℕ) × (shutdown no_protocol
        weight 0 3 true false Event.stop session 9
      ≡ returned
          (false, record { raised = Raised.to_peer Kind.disconnect ∷ []; self = waits; slot = 9 }))
    × (waits.sock.statistics.current_connections ≡ pos 0)
    × (shutdown no_protocol weight 0 3 false false (Event.from_peer Kind.disconnect) waits 8
        ≡ returned (true, record { raised = []; self = after; slot = 8 }))
    × (after.state ≡ State.stopping)
shutdown-handshake_example =
    shutdown-handshake no_protocol weight 0 3 0 true false session 9 8 refl refl refl refl
      (omega arith)
