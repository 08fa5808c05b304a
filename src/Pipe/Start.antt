-- ===== src/Pipe/Start.antt =====
-- The start and the stop of a pipe (src/core/pipe.c) and its socket.
use nanomsg_copy.Prelude.{
  ℕ, suc, ◌-◌, ◌^◌, ◌<◌, ◌≡◌, refl, ◌∙◌, true, [], ◌∷◌, ◌++◌, returned, ◌>>=◌,
}
use nanomsg_copy.Prelude.Int.{pos}
use nanomsg_copy.Sock.{Sock, Protocol}
use nanomsg_copy.Sock.Statistics as Statistics
use nanomsg_copy.Sock.Statistics.Levels as Levels
use nanomsg_copy.Pipe.{State, Instate, Outstate, Event, Pipebase, is_idle, start, stop, raise}

is_idle_of : (s : State) → s ≡ State.idle → is_idle s ≡ true
unfolding is_idle
is_idle_of s e = rw e

module _ {S O Msg : Type 0} (vfptr : Protocol S Msg) where
  -- A pipe that is idle, and that the protocol accepts, starts: it is ready to send, waits for the
  -- transport to receive, and tells its socket that it can send. Stopping it makes it idle again, and
  -- the statistics of the socket are then as before.
  pub stop-start :
      (pipe n r : ℕ) (self : Pipebase) (sock : Sock S O)
      → self.state ≡ State.idle
      → sock.statistics.current_connections ≡ pos n
      → n < 2 ^ 31 - 1
      → (vfptr.add pipe sock.sockbase).0 ≡ pos r
      → (p1 : Pipebase) × (s1 : Sock S O) × (s2 : Sock S O) × (start vfptr pipe self sock
          ≡ returned (pos 0, p1, s1))
        × (p1.outstate ≡ Outstate.idle)
        × (p1.instate ≡ Instate.async)
        × (p1.raised ≡ self.raised ++ Event.pipe_out ∷ [])
        × (stop vfptr pipe p1 s1 ≡ returned (record p1 { state = State.idle }, s2))
        × (s2.statistics ≡ sock.statistics)
  unfolding start stop raise
  stop-start pipe n r self sock st h k e =
      let (s1, s2, add_eq, up, rm_eq, same, base) = Levels.rm-add vfptr pipe n r sock h k e in
      let p1 : Pipebase = record {
        state = State.active;
        instate = Instate.async;
        outstate = Outstate.idle;
        raised = self.raised ++ Event.pipe_out ∷ [];
      } in
      (
        p1,
        s1,
        s2,
        rw (is_idle_of self.state st, add_eq, Levels.ltb_ℤ-pos r),
        refl,
        refl,
        refl,
        rw rm_eq,
        same,
      )

  pub stop-active :
      (pipe n : ℕ) (self : Pipebase) (sock : Sock S O)
      → self.state ≡ State.active
      → sock.statistics.current_connections ≡ pos (suc n)
      → n < 2 ^ 31 - 1
      → stop vfptr pipe self sock
        ≡ returned (
          record self { state = State.idle },
          record sock {
            sockbase = vfptr.rm pipe sock.sockbase;
            statistics = record sock.statistics { current_connections = pos n };
          },
        )
  unfolding stop
  stop-active pipe n self sock st h k =
      stop_of self.state st ∙ rw (Levels.rm-connected vfptr pipe n sock h k)
    where
      stop_of :
          (s : State)
          → s ≡ State.active
          → stop vfptr pipe (record self { state = s }) sock ≡ (
              Statistics.rm vfptr pipe sock >>= λ sock'.
              returned (record self { state = State.idle }, sock'))
      stop_of s e = rw e
