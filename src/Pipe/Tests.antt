-- ===== src/Pipe/Tests.antt =====
-- A pipe on a transport that keeps the last message.
use nanomsg_copy.Prelude.{ℕ, ◌≡◌, refl, ◌>>=◌, ◌⊎◌, Option, [], ◌∷◌, ◌++◌, Outcome, returned, arith}
use nanomsg_copy.Prelude.Int.{ℤ, pos}
use nanomsg_copy.Sock.{Sock}
use nanomsg_copy.Sock.Samples.{no_protocol, fresh_sock}
use nanomsg_copy.Pipe.{
  State, Instate, Outstate, Event, Pipebase, init, start, stop, on_received, on_sent, send, recv,
}
use nanomsg_copy.Pipe.Flow.{is_released, send-ready, recv-ready}
use nanomsg_copy.Pipe.Start.{stop-start}

stop-start_example :
    (p1 : Pipebase) × (s1 : Sock (Option ℕ) ℕ) × (s2 : Sock (Option ℕ) ℕ) × (start no_protocol 3
        init fresh_sock
      ≡ returned (pos 0, p1, s1))
    × (p1.outstate ≡ Outstate.idle)
    × (p1.instate ≡ Instate.async)
    × (p1.raised ≡ init.raised ++ Event.pipe_out ∷ [])
    × (stop no_protocol 3 p1 s1 ≡ returned (record p1 { state = State.idle }, s2))
    × (s2.statistics ≡ fresh_sock.statistics)
unfolding init
stop-start_example = stop-start no_protocol 3 0 0 init fresh_sock refl refl (omega arith) refl

abbrev ready : Pipebase
ready = record {
  state = State.active;
  instate = Instate.idle;
  outstate = Outstate.idle;
  raised = [];
}

abbrev keeps : ℕ → Pipebase → ℕ → Outcome (ℤ × Pipebase × ℕ)
keeps m p t = returned (pos 0, p, m)

abbrev gives : Pipebase → ℕ → Outcome (ℤ × ℕ × Pipebase × ℕ)
gives p t = on_received p >>= λ p. returned (pos 0, t, p, 0)

send-ready_example :
    (out : ℕ × Pipebase × ℕ) × (send (keeps 7) ready 0 ≡ returned out)
    × (((is_released out.0 ≡ 0) × (out.1 ≡ record ready { outstate = Outstate.idle }))
        ⊎ ((is_released out.0 ≡ 1)
            × (on_sent out.1
                ≡ returned
                    (record ready { outstate = Outstate.idle; raised = Event.pipe_out ∷ [] }))))
send-ready_example =
    send-ready (keeps 7) ready (record ready { outstate = Outstate.sending }) 0 7 0 refl refl tt
      refl

recv-ready_example :
    (out : ℕ × ℕ × Pipebase × ℕ) × (recv gives ready 8 ≡ returned out)
    × (out.1 ≡ 8)
    × (((is_released out.0 ≡ 0) × (out.2 ≡ record ready { instate = Instate.idle }))
        ⊎ ((is_released out.0 ≡ 1)
            × (on_received out.2
                ≡ returned (record ready { instate = Instate.idle; raised = Event.pipe_in ∷ [] }))))
unfolding on_received
recv-ready_example =
    recv-ready gives ready (record ready { instate = Instate.received }) 8 0 8 0 refl refl tt refl
