-- ===== src/Timer/Run.antt =====
-- A timer from its start to its stop (src/aio/timer.c).
use nanomsg_copy.Prelude.{
  ℕ, ◌≡◌, refl, Bool, true, false, List, [], ◌∷◌, ◌++◌, returned, ◌>>=◌, arith,
}
use nanomsg_copy.Prelude.Int.{pos, negsuc}
use nanomsg_copy.Timer.{
  State, Event, Action, Timer, Result, term, begin, shutdown, on_stopping, handler, on_active,
  on_idle,
}

-- A function is called for the events, in order.
abbrev pub feed : (Event → Timer → Result) → List Event → Timer → Result
feed f [] self = returned ([], self)
feed f (event ∷ events) self = do
  r ← f event self
  rest ← feed f events r.1
  returned (r.0 ++ rest.0, rest.1)

-- Events that come between NN_FSM_STOP and the task that it has asked for.
abbrev pub is_late : Event → Bool
is_late Event.stop = false
is_late (Event.stop_task execute) = false
is_late event = true

abbrev pub AllLate : List Event → Type 0
AllLate [] = Unit
AllLate (event ∷ events) = (is_late event ≡ true) × AllLate events

abbrev pub stopping : Timer
stopping = record { state = State.stopping; timeout = negsuc 0 }

shutdown-late :
    (event : Event) → is_late event ≡ true → shutdown event stopping ≡ returned ([], stopping)
unfolding shutdown on_stopping
shutdown-late Event.stop h = cc
shutdown-late (Event.stop_task execute) h = cc
shutdown-late _ h = refl

feed-late :
    (late : List Event)
    → AllLate late
    → feed shutdown (late ++ Event.stop_task true ∷ []) stopping
      ≡ returned (
        Action.rm_timer ∷ Action.fsm_stopped ∷ [],
        record { state = State.idle; timeout = negsuc 0 },
      )
unfolding shutdown on_stopping
feed-late [] h = refl
feed-late (event ∷ late) h = rw (shutdown-late event h.0, feed-late late h.1) refl

-- An idle timer that is started for `t` milliseconds asks the worker for a timer of just that time, raises
-- its timeout when the worker reports it, and when it is stopped asks the worker to take the timer out;
-- whatever other events come before the worker does so are ignored. Then it reports that it is stopped,
-- is idle, and nn_timer_term accepts it. No assertion fails on the way.
pub feed-stop :
    (t : ℕ) (late : List Event)
    → AllLate late
    → (begin (pos t) (record { state = State.idle; timeout = negsuc 0 })
        ≡ returned (Action.fsm_start ∷ [], record { state = State.idle; timeout = pos t }))
      × (feed handler
            (Event.start ∷ Event.start_task true ∷ Event.expiry true ∷ [])
            (record { state = State.idle; timeout = pos t })
          ≡ returned (
            Action.execute_start ∷ Action.add_timer (pos t) ∷ Action.raise_timeout ∷ [],
            record { state = State.active; timeout = negsuc 0 },
          ))
      × (feed shutdown
            (Event.stop ∷ (late ++ Event.stop_task true ∷ []))
            (record { state = State.active; timeout = negsuc 0 })
          ≡ returned (
            Action.execute_stop ∷ Action.rm_timer ∷ Action.fsm_stopped ∷ [],
            record { state = State.idle; timeout = negsuc 0 },
          ))
      × (term (record { state = State.idle; timeout = negsuc 0 }) ≡ returned tt)
unfolding begin handler on_idle on_active shutdown term
feed-stop t late h = (ground arith, ground arith, rw (feed-late late h) refl, refl)
